-- ===== src/Vless/Security.antt =====
-- proxy/vless/server.go: buildSecuritySettings, which passes the typed security settings on as an
-- opaque map. `structToMap` marshals and unmarshals: a field with `omitempty` is left out if it is
-- empty. Strings are valid UTF-8, which Marshal does not change.
pub mod Fields
pub mod Tls
pub mod Reality
pub mod Decoded
use vgate_server.Base.{
  zero, suc, List, [], ◌∷◌, Option, none, some, Bool, true, false, map, if◌then◌else◌,
}
use vgate_server.Base.Int.{ℤ, pos, negsuc}
use vgate_server.Base.Text.{Bytes, codes, bytes_eq}
use vgate_server.Model.{Stream, TlsConfig, RealityConfig}
use vgate_server.Transport.Settings.{Floats, Settings, Value, flag, number, text, array}

-- The value of one field, by its type; `none` if it is left out.
abbrev pub text_value : Bytes → Option Value
text_value [] = none
text_value (c ∷ s) = some (text (c ∷ s))

abbrev pub flag_value : Bool → Option Value
flag_value false = none
flag_value true = some (flag true)

abbrev pub number_value : Floats → ℤ → Option Value
number_value f (pos zero) = none
number_value f (pos (suc n)) = some (number (f.of_int (pos (suc n))))
number_value f (negsuc n) = some (number (f.of_int (negsuc n)))

abbrev pub list_value : Option (List Bytes) → Option Value
list_value none = none
list_value (some []) = none
list_value (some (s ∷ xs)) = some (array (some s ∷ map some xs))

-- The entries of the fields that are there.
abbrev pub present : List (Bytes × Option Value) → Settings
present [] = []
present ((key, none) ∷ fields) = present fields
present ((key, some v) ∷ fields) = (key, v) ∷ present fields

abbrev pub tls_fields : TlsConfig → List (Bytes × Option Value)
tls_fields t =
    (codes "server_name", text_value t.server_name)
    ∷ (codes "cert_file", text_value t.cert_file)
    ∷ (codes "key_file", text_value t.key_file)
    ∷ (codes "cert_pem", text_value t.cert_pem)
    ∷ (codes "key_pem", text_value t.key_pem)
    ∷ (codes "alpn", list_value t.alpn)
    ∷ (codes "min_version", text_value t.min_version)
    ∷ (codes "max_version", text_value t.max_version)
    ∷ (codes "reject_unknown_sni", flag_value t.reject_unknown_sni)
    ∷ []

-- structToMap on a TlsConfig
unfoldable pub tls_map : TlsConfig → Settings
tls_map t = present (tls_fields t)

abbrev pub reality_fields : Floats → RealityConfig → List (Bytes × Option Value)
reality_fields f r =
    (codes "show", flag_value r.show)
    ∷ (codes "target", text_value r.target)
    ∷ (codes "xver", number_value f r.xver)
    ∷ (codes "server_name", text_value r.server_name)
    ∷ (codes "private_key", text_value r.private_key)
    ∷ (codes "short_ids", list_value r.short_ids)
    ∷ (codes "min_client_ver", text_value r.min_client_ver)
    ∷ (codes "max_client_ver", text_value r.max_client_ver)
    ∷ (codes "max_time_diff", number_value f r.max_time_diff)
    ∷ []

-- structToMap on a RealityConfig
unfoldable pub reality_map : Floats → RealityConfig → Settings
reality_map f r = present (reality_fields f r)

abbrev pub opt_map : {A : Type 0} → (A → Settings) → Option A → Option Settings
opt_map f none = none
opt_map f (some a) = some (f a)

-- buildSecuritySettings
unfoldable pub build_security_settings : {S : Type 0} → Floats → Stream S → Option Settings
unfolding tls_map reality_map
build_security_settings f s =
    if bytes_eq s.security (codes "tls")
    then opt_map tls_map s.tls_config
    else if bytes_eq s.security (codes "reality")
    then opt_map (reality_map f) s.reality_config
    else none
