-- ===== src/Transport/Bridge.antt =====
-- transport/xraybridge/bridge.go: settings for the transports of xray-core.
pub mod Names
pub mod Versions
use vgate_server.Base.{
  ℕ, suc, ◌+◌, ◌-◌, ◌*◌, ◌/◌, ◌%◌, ◌^◌, List, [], ◌∷◌, ◌++◌, Option, none, some, Bool, ◌&&◌, ◌==◌,
  leb, if◌then◌else◌,
}
use vgate_server.Base.Int.{ℤ, pos, negsuc}
use vgate_server.Base.Text.{Bytes, codes, bytes_key}
use vgate_server.Base.Dict.{Dict, put}
use vgate_server.Transport.Settings.{
  Floats, Settings, bad_settings, no_certificate, certificate_not_loaded, Checked, ok, bad, ◌>>=◌,
}
use vgate_server.Transport.Tls.{TlsSettings, decode_tls_config, default_alpn, is_set}
use vgate_server.Transport.Reality.{KeySet, RealitySettings, decode_reality_config}

-- strings.Split(s, "_"), as the first part and the others
unfoldable pub split_underscores : Bytes → Bytes × List Bytes
split_underscores [] = ([], [])
split_underscores (c ∷ s) =
    let parts = split_underscores s in
    if c == b'_' then ([], parts.0 ∷ parts.1) else (c ∷ parts.0, parts.1)

-- strings.ToUpper on one ASCII byte
unfoldable pub upper : ℕ → ℕ
upper c = if leb b'a' c && leb c b'z' then c - 32 else c

unfoldable pub capitalise : Bytes → Bytes
unfolding upper
capitalise [] = []
capitalise (c ∷ s) = upper c ∷ s

unfoldable pub join_capitals : List Bytes → Bytes
unfolding capitalise
join_capitals [] = []
join_capitals (p ∷ ps) = capitalise p ++ join_capitals ps

-- SnakeToCamel
unfoldable pub snake_to_camel : Bytes → Bytes
unfolding split_underscores join_capitals
snake_to_camel s = (split_underscores s).0 ++ join_capitals (split_underscores s).1

-- The map with camel-case keys; where two keys become one, the later entry stays.
unfoldable pub camel_keys : {V : Type 0} → Dict Bytes V → Dict Bytes V → Dict Bytes V
camel_keys [] camel = camel
camel_keys ((k, v) ∷ m) camel = camel_keys m (put camel (snake_to_camel k) v)

abbrev pub read_or_fail : {A : Type 0} → Option A → Checked A
read_or_fail none = bad bad_settings
read_or_fail (some a) = ok a

-- DecodeSettings, over what json.Marshal and protojson make of a map; without settings the message
-- stays as it is
unfoldable pub decode_settings :
    {V M : Type 0} → (Dict Bytes V → Option M) → M → Dict Bytes V → Checked M
decode_settings unmarshal empty [] = ok empty
decode_settings unmarshal empty (x ∷ m) = read_or_fail (unmarshal (camel_keys (x ∷ m) []))

-- tlsVersionToString; other versions are left out
unfoldable pub tls_version_string : ℕ → Bytes
tls_version_string n =
    if n == 0x0301
    then codes "1.0"
    else if n == 0x0302
    then codes "1.1"
    else if n == 0x0303
    then codes "1.2"
    else if n == 0x0304
    then codes "1.3"
    else []

-- xray-core's tls.Config
pub record XrayTls : Type 0 where
  pub server_name : Bytes
  pub certificate : Bytes
  pub key : Bytes
  pub reject_unknown_sni : Bool
  pub next_protocol : List Bytes
  pub min_version : Bytes
  pub max_version : Bytes

abbrev pub file : Option Bytes → Checked Bytes
file none = bad certificate_not_loaded
file (some b) = ok b

-- The certificate and the key: PEM texts before files.
unfoldable pub choose_pem : (Bytes → Option Bytes) → TlsSettings → Checked (Bytes × Bytes)
choose_pem read_file cfg =
    if is_set cfg.cert_pem && is_set cfg.key_pem
    then ok (cfg.cert_pem, cfg.key_pem)
    else if is_set cfg.cert_file && is_set cfg.key_file
    then (do
      cert ← file (read_file cfg.cert_file)
      key ← file (read_file cfg.key_file)
      ok (cert, key))
    else bad no_certificate

-- BuildXrayTLSConfig
unfoldable pub build_xray_tls_config : (Bytes → Option Bytes) → Option Settings → Checked XrayTls
build_xray_tls_config read_file raw = do
  cfg ← decode_tls_config raw
  (cert, key) ← choose_pem read_file cfg
  ok (record {
    server_name = cfg.server_name;
    certificate = cert;
    key = key;
    reject_unknown_sni = cfg.reject_unknown_sni;
    next_protocol = default_alpn cfg.alpn;
    min_version = tls_version_string cfg.min_version;
    max_version = tls_version_string cfg.max_version;
  })

-- uint64(d / time.Millisecond)
unfoldable pub whole_milliseconds : ℤ → ℕ
whole_milliseconds (pos n) = n / 10 ^ 6
whole_milliseconds (negsuc n) = (2 ^ 64 - suc n / 10 ^ 6) % 2 ^ 64

-- xray-core's reality.Config
pub record XrayReality : Type 0 where
  pub show : Bool
  pub dest : Bytes
  pub type : Bytes
  pub xver : ℕ
  pub private_key : Bytes
  pub min_client_ver : Bytes
  pub max_client_ver : Bytes
  pub max_time_diff : ℕ
  pub server_names : List Bytes
  pub short_ids : List Bytes

abbrev pub keys : KeySet → List Bytes
keys [] = []
keys ((k, u) ∷ m) = k ∷ keys m

-- BuildXrayRealityConfig
unfoldable pub build_xray_reality_config : Floats → Option Settings → Checked XrayReality
build_xray_reality_config f raw = do
  cfg ← decode_reality_config f raw
  ok (record {
    show = cfg.show;
    dest = cfg.target;
    type = codes "tcp";
    xver = cfg.xver;
    private_key = cfg.private_key;
    min_client_ver = cfg.min_client_ver;
    max_client_ver = cfg.max_client_ver;
    max_time_diff = whole_milliseconds cfg.max_time_diff;
    server_names = keys cfg.server_names;
    short_ids = keys cfg.short_ids;
  })
