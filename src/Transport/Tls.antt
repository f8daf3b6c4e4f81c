-- ===== src/Transport/Tls.antt =====
-- transport/security/tls.go: TLS settings, as the opaque map brings them, and the crypto/tls
-- configuration that is built from them.
use vgate_server.Base.{
  ℕ, List, [], ◌∷◌, Option, none, some, Bool, true, not, ◌&&◌, ◌==◌, if◌then◌else◌,
}
use vgate_server.Base.Text.{Bytes, codes, bytes_eq, bytes_key}
use vgate_server.Base.Dict.{get}
use vgate_server.Transport.Settings.{
  Settings, Fault, no_settings, unknown_min_version, unknown_max_version, no_certificate,
  certificate_not_loaded, Checked, ok, bad, ◌>>=◌, text_at, text_or_empty, flag?, flag_or_false,
  array?, strings,
}

-- security.TLSConfig; a version is a uint16, 0 if it is not set
pub record TlsSettings : Type 0 where
  pub server_name : Bytes
  pub cert_file : Bytes
  pub key_file : Bytes
  pub cert_pem : Bytes
  pub key_pem : Bytes
  pub alpn : List Bytes
  pub min_version : ℕ
  pub max_version : ℕ
  pub reject_unknown_sni : Bool

-- tlsVersionMap
unfoldable pub tls_version : Bytes → Option ℕ
tls_version s =
    if bytes_eq s (codes "1.0")
    then some 0x0301
    else if bytes_eq s (codes "1.1")
    then some 0x0302
    else if bytes_eq s (codes "1.2")
    then some 0x0303
    else if bytes_eq s (codes "1.3")
    then some 0x0304
    else none

abbrev pub known_version : Fault → Option ℕ → Checked ℕ
known_version x none = bad x
known_version x (some n) = ok n

unfoldable pub decode_version : Fault → Option Bytes → Checked ℕ
decode_version x none = ok 0
decode_version x (some s) = known_version x (tls_version s)

abbrev pub alpn_of : Option (List (Option Bytes)) → List Bytes
alpn_of none = []
alpn_of (some xs) = strings xs

-- DecodeTLSConfig
unfoldable pub decode_tls_config : Option Settings → Checked TlsSettings
decode_tls_config none = bad no_settings
decode_tls_config (some raw) = do
  min ← decode_version unknown_min_version (text_at (codes "min_version") raw)
  max ← decode_version unknown_max_version (text_at (codes "max_version") raw)
  ok (record {
    server_name = text_or_empty (text_at (codes "server_name") raw);
    cert_file = text_or_empty (text_at (codes "cert_file") raw);
    key_file = text_or_empty (text_at (codes "key_file") raw);
    cert_pem = text_or_empty (text_at (codes "cert_pem") raw);
    key_pem = text_or_empty (text_at (codes "key_pem") raw);
    alpn = alpn_of (array? (get raw (codes "alpn")));
    min_version = min;
    max_version = max;
    reject_unknown_sni = flag_or_false (flag? (get raw (codes "reject_unknown_sni")));
  })

-- crypto/tls: the certificate of two files, or of two PEM texts.
pub record Certificates : Type 1 where
  pub Certificate : Type 0
  pub load_files : Bytes → Bytes → Option Certificate
  pub load_pem : Bytes → Bytes → Option Certificate

-- The tls.Config; `expected_sni` is the name that GetConfigForClient insists on, if it is set.
pub record TlsServer (c : Certificates) : Type 0 where
  pub server_name : Bytes
  pub next_protos : List Bytes
  pub min_version : ℕ
  pub max_version : ℕ
  pub certificate : c.Certificate
  pub expected_sni : Option Bytes

abbrev pub loaded : {A : Type 0} → Option A → Checked A
loaded none = bad certificate_not_loaded
loaded (some a) = ok a

abbrev pub default_alpn : List Bytes → List Bytes
default_alpn [] = codes "h2" ∷ codes "http/1.1" ∷ []
default_alpn (p ∷ ps) = p ∷ ps

abbrev pub is_set : Bytes → Bool
is_set s = not (bytes_eq s [])

-- The certificate: files before PEM texts.
unfoldable pub choose_certificate : (c : Certificates) → TlsSettings → Checked c.Certificate
choose_certificate c cfg =
    if is_set cfg.cert_file && is_set cfg.key_file
    then loaded (c.load_files cfg.cert_file cfg.key_file)
    else if is_set cfg.cert_pem && is_set cfg.key_pem
    then loaded (c.load_pem cfg.cert_pem cfg.key_pem)
    else bad no_certificate

-- BuildTLSConfig
unfoldable pub build_tls_config : (c : Certificates) → TlsSettings → Checked (TlsServer c)
build_tls_config c cfg = do
  cert ← choose_certificate c cfg
  ok (record {
    server_name = cfg.server_name;
    next_protos = default_alpn cfg.alpn;
    min_version = if cfg.min_version == 0 then 0x0303 else cfg.min_version;
    max_version = cfg.max_version;
    certificate = cert;
    expected_sni = if cfg.reject_unknown_sni then some cfg.server_name else none;
  })

-- GetConfigForClient: whether a ClientHello with this server name goes on.
unfoldable pub accepts_hello : Option Bytes → Bytes → Bool
accepts_hello none name = true
accepts_hello (some expected) name = not (is_set expected && not (bytes_eq name expected))
