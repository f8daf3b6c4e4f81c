-- ===== src/Transport/Security.antt =====
-- transport/security: the layer that a transport puts on its raw listener.
use vgate_server.Base.{ℕ, [], Option, Bool, true, ◌||◌, if◌then◌else◌}
use vgate_server.Base.Int.{ℤ}
use vgate_server.Base.Text.{Bytes, codes, bytes_eq}
use vgate_server.Transport.Settings.{
  Floats, Settings, unsupported_security, Checked, ok, bad, ◌>>=◌,
}
use vgate_server.Transport.Tls.{Certificates, TlsServer, decode_tls_config, build_tls_config}
use vgate_server.Transport.Reality.{KeySet, RealitySettings, decode_reality_config}

-- The reality.Config; its dialer for the fallback target is left out.
pub record RealityServer : Type 0 where
  pub show : Bool
  pub type : Bytes
  pub dest : Bytes
  pub xver : ℕ
  pub server_names : KeySet
  pub private_key : Bytes
  pub short_ids : KeySet
  pub min_client_ver : Bytes
  pub max_client_ver : Bytes
  pub max_time_diff : ℤ
  pub session_tickets_disabled : Bool

-- BuildRealityConfig, which does not fail
unfoldable pub build_reality_config : RealitySettings → RealityServer
build_reality_config cfg = record {
  show = cfg.show;
  type = codes "tcp";
  dest = cfg.target;
  xver = cfg.xver;
  server_names = cfg.server_names;
  private_key = cfg.private_key;
  short_ids = cfg.short_ids;
  min_client_ver = cfg.min_client_ver;
  max_client_ver = cfg.max_client_ver;
  max_time_diff = cfg.max_time_diff;
  session_tickets_disabled = true;
}

-- crypto/tls and github.com/xtls/reality: listeners on listeners; and the conversions of Go.
pub record Layers (Listener : Type 0) : Type 1 where
  pub certificates : Certificates
  pub floats : Floats
  pub new_tls_listener : Listener → TlsServer certificates → Listener
  pub new_reality_listener : Listener → RealityServer → Listener

module _ {Listener : Type 0} (l : Layers Listener) where
  -- WrapTLS
  unfoldable pub wrap_tls : Listener → Option Settings → Checked Listener
  wrap_tls ln raw = do
    cfg ← decode_tls_config raw
    tc ← build_tls_config l.certificates cfg
    ok (l.new_tls_listener ln tc)

  -- WrapReality
  unfoldable pub wrap_reality : Listener → Option Settings → Checked Listener
  wrap_reality ln raw = do
    cfg ← decode_reality_config l.floats raw
    ok (l.new_reality_listener ln (build_reality_config cfg))

  -- Wrap
  unfoldable pub wrap : Listener → Bytes → Option Settings → Checked Listener
  wrap ln security raw =
      if bytes_eq security [] || bytes_eq security (codes "none")
      then ok ln
      else if bytes_eq security (codes "tls")
      then wrap_tls ln raw
      else if bytes_eq security (codes "reality")
      then wrap_reality ln raw
      else bad unsupported_security
