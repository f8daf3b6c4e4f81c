-- ===== src/Vless/Security/Tls.antt =====
-- The TLS settings of a configuration on their way through the opaque map.
use vgate_server.Base.{ℕ, ◌≡◌, refl, ap, ◌∙◌, List, [], ◌∷◌, Option, none, some}
use vgate_server.Base.Text.{Bytes, codes, bytes_key, Bytes-discrete}
use vgate_server.Base.Dict.{get}
use vgate_server.Model.{TlsConfig}
use vgate_server.Transport.Settings.{
  Fault, unknown_min_version, unknown_max_version, Checked, ok, ◌>>=◌, text?, flag?, array?,
  text_or_empty, text_at, flag_or_false,
}
use vgate_server.Transport.Tls.{
  TlsSettings, tls_version, known_version, decode_version, alpn_of, decode_tls_config,
}
use vgate_server.Vless.Security.{text_value, flag_value, list_value, tls_fields, tls_map}
use vgate_server.Vless.Security.Fields.{
  or_else-none, find, get-present, text_or_empty-text_value, flag_or_false-flag_value, strings-map,
}

-- A version of the configuration, where no text is no bound.
abbrev pub version_of : Fault → Bytes → Checked ℕ
version_of x [] = ok 0
version_of x (c ∷ s) = known_version x (tls_version (c ∷ s))

abbrev pub list_or_empty : Option (List Bytes) → List Bytes
list_or_empty none = []
list_or_empty (some xs) = xs

-- The settings that a configuration means.
abbrev pub tls_settings : TlsConfig → Checked TlsSettings
tls_settings t = do
  min ← version_of unknown_min_version t.min_version
  max ← version_of unknown_max_version t.max_version
  ok (record {
    server_name = t.server_name;
    cert_file = t.cert_file;
    key_file = t.key_file;
    cert_pem = t.cert_pem;
    key_pem = t.key_pem;
    alpn = list_or_empty t.alpn;
    min_version = min;
    max_version = max;
    reject_unknown_sni = t.reject_unknown_sni;
  })

decode_version_lem :
    (x : Fault) (s : Bytes) → decode_version x (text? (text_value s)) ≡ version_of x s
unfolding decode_version
decode_version_lem x [] = refl
decode_version_lem x (c ∷ s) = refl

alpn_lem : (o : Option (List Bytes)) → alpn_of (array? (list_value o)) ≡ list_or_empty o
alpn_lem none = refl
alpn_lem (some []) = refl
alpn_lem (some (s ∷ xs)) = ap (λ t. s ∷ t) (strings-map xs)

module _ (t : TlsConfig) where
  field_lem : (k : Bytes) → get (tls_map t) k ≡ find k (tls_fields t)
  unfolding tls_map
  field_lem k = get-present k (tls_fields t)

  text_lem :
      (k s : Bytes)
      → find k (tls_fields t) ≡ text_value s
      → text_or_empty (text_at k (tls_map t)) ≡ s
  text_lem k s h = ap (λ v. text_or_empty (text? v)) (field_lem k ∙ h) ∙ text_or_empty-text_value s

  version_lem :
      (x : Fault) (k s : Bytes)
      → find k (tls_fields t) ≡ text_value s
      → decode_version x (text_at k (tls_map t)) ≡ version_of x s
  version_lem x k s h =
      ap (λ v. decode_version x (text? v)) (field_lem k ∙ h) ∙ decode_version_lem x s

  sni_lem :
      flag_or_false (flag? (get (tls_map t) (codes "reject_unknown_sni"))) ≡ t.reject_unknown_sni
  unfolding Bytes-discrete
  sni_lem =
      ap (λ v. flag_or_false (flag? v))
        (field_lem (codes "reject_unknown_sni") ∙ or_else-none (flag_value t.reject_unknown_sni))
      ∙ flag_or_false-flag_value t.reject_unknown_sni

  protos_lem : alpn_of (array? (get (tls_map t) (codes "alpn"))) ≡ list_or_empty t.alpn
  unfolding Bytes-discrete
  protos_lem =
      ap (λ v. alpn_of (array? v)) (field_lem (codes "alpn") ∙ or_else-none (list_value t.alpn))
      ∙ alpn_lem t.alpn

  -- The opaque map of structToMap loses nothing of a TLS configuration: it is decoded to the
  -- settings that the configuration means, or fails by a version that is unknown.
  pub decode_tls_config-tls_map : decode_tls_config (some (tls_map t)) ≡ tls_settings t
  unfolding decode_tls_config Bytes-discrete
  decode_tls_config-tls_map = rw (
    version_lem unknown_min_version (codes "min_version") t.min_version (or_else-none _),
    version_lem unknown_max_version (codes "max_version") t.max_version (or_else-none _),
    text_lem (codes "server_name") t.server_name (or_else-none _),
    text_lem (codes "cert_file") t.cert_file (or_else-none _),
    text_lem (codes "key_file") t.key_file (or_else-none _),
    text_lem (codes "cert_pem") t.cert_pem (or_else-none _),
    text_lem (codes "key_pem") t.key_pem (or_else-none _),
    protos_lem,
    sni_lem,
  )
