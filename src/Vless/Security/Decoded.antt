-- ===== src/Vless/Security/Decoded.antt =====
-- What a transport decodes from the security settings that Start passes on.
use vgate_server.Base.{ℕ, ◌≡◌, ◌<◌, some}
use vgate_server.Base.Int.{pos}
use vgate_server.Transport.Settings.{Floats, IsFloats, IsExact}
use vgate_server.Base.Text.{codes, Bytes-discrete}
use vgate_server.Model.{TlsConfig, RealityConfig, Stream}
use vgate_server.Transport.Tls.{decode_tls_config}
use vgate_server.Transport.Reality.{decode_reality_config}
use vgate_server.Vless.Security.{build_security_settings}
use vgate_server.Vless.Security.Tls.{tls_settings, decode_tls_config-tls_map}
use vgate_server.Vless.Security.Reality.{reality_settings, decode_reality_config-reality_map}

-- The settings of a stream with security "tls" or "reality" pass the opaque map without a loss:
-- decoding gives what the stream's TLS or Reality configuration means, or fails as that does. The
-- conversions of Go are exact in range, the xver of the Reality configuration is a byte, and its
-- max_time_diff is an int of at most 2^53, either way.
pub build_security_settings_decoded :
    {S : Type 0} (f : Floats) (st : Stream S) (t : TlsConfig) (r : RealityConfig) (n : ℕ)
    → IsFloats f
    → n < 256
    → r.xver ≡ pos n
    → IsExact r.max_time_diff
    → (decode_tls_config
          (build_security_settings f (record st { security = codes "tls"; tls_config = some t }))
        ≡ tls_settings t)
      × (decode_reality_config f (
            build_security_settings f
              (record st { security = codes "reality"; reality_config = some r }))
          ≡ reality_settings r)
unfolding build_security_settings Bytes-discrete
build_security_settings_decoded f st t r n laws small at exact =
    (decode_tls_config-tls_map t, decode_reality_config-reality_map f r laws n small at exact)
