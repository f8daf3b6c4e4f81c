-- ===== src/Tests/Transport.antt =====
-- Transports at concrete inputs.
use vgate_server.Base.{
  ℕ, ◌≡◌, ◌≢◌, ◌%◌, ◌^◌, refl, ap, get_or, [], ◌∷◌, none, some, true, false, arith, inl, inr,
}
use vgate_server.Base.Int.{pos}
use vgate_server.Base.Text.{Bytes, codes, Bytes-discrete}
use vgate_server.Base.Dict.{get}
use vgate_server.Model.{TlsConfig, RealityConfig, Stream}
use vgate_server.Transport.Settings.{ok}
use vgate_server.Transport.Tls.{decode_tls_config, decode_version, tls_version}
use vgate_server.Transport.Reality.{decode_reality_config}
use vgate_server.Transport.Address.{XrayNet, domain, parse_xray_address, parse_addr_port}
use vgate_server.Transport.Address.Ports.{itoa, parse_addr_port-itoa}
use vgate_server.Transport.Bridge.{XrayTls, choose_pem, tls_version_string, build_xray_tls_config}
use vgate_server.Transport.Registry.{StreamConfig, Net}
use vgate_server.Transport.Registry.Dispatch.{IsSecurity}
use vgate_server.Vless.Security.{tls_map, build_security_settings}
use vgate_server.Vless.Security.Tls.{tls_settings}
use vgate_server.Vless.Security.Reality.{reality_settings}
use vgate_server.Vless.Security.Decoded.{build_security_settings_decoded}
use vgate_server.Transport.Settings.{IsFloats}
use vgate_server.Tests.Fixture.{exact_floats}

abbrev xray_net : XrayNet
xray_net = record {
  parse_address = λ host. domain host;
  any_ip = 0 ∷ 0 ∷ 0 ∷ 0 ∷ [];
  local_host_ip = 127 ∷ 0 ∷ 0 ∷ 1 ∷ [];
}

-- A network on which every call listens, with the listener 5.
abbrev pub network : Net ℕ (Unit {0})
network = record {
  net_listen = λ addr. some 5;
  layers = record {
    certificates = record {
      Certificate = Unit {0};
      load_files = λ c k. some tt;
      load_pem = λ c k. some tt;
    };
    floats = exact_floats;
    new_tls_listener = λ l c. l;
    new_reality_listener = λ l c. l;
  };
  read_file = λ p. some p;
  xray_net = xray_net;
  Message = λ p. Unit {0};
  empty_message = λ p. tt;
  unmarshal = λ p m. some tt;
  listen_xray = λ p a n m s. some 6;
}

-- A later call gets another listener.
abbrev pub other_network : Net ℕ (Unit {0})
other_network = record network { net_listen = λ addr. some 9 }

parse_addr_port-itoa_example :
    parse_addr_port xray_net (b':' ∷ itoa 70000)
    ≡ some (parse_xray_address xray_net [], 70000 % 2 ^ 16)
parse_addr_port-itoa_example = parse_addr_port-itoa xray_net 70000 (omega arith)

abbrev xtls_stream : StreamConfig (Unit {0})
xtls_stream = record {
  network = codes "ws";
  settings = [];
  security = codes "xtls";
  security_settings = none;
}

first_byte : {s t : Bytes} → s ≡ t → get_or s 0 0 ≢ get_or t 0 0 → ⊥
first_byte h ne = ne (ap (λ s. get_or s 0 0) h)

xtls_unknown : ¬ IsSecurity network (codes "xtls")
xtls_unknown (inl h) = first_byte h (omega arith)
xtls_unknown (inr (inl h)) = first_byte h (omega arith)
xtls_unknown (inr (inr (inl h))) = first_byte h (omega arith)
xtls_unknown (inr (inr (inr h))) = first_byte h (omega arith)

abbrev tls : TlsConfig
tls = record {
  server_name = codes "a.example";
  cert_file = codes "c.pem";
  key_file = codes "k.pem";
  cert_pem = [];
  key_pem = [];
  alpn = none;
  min_version = codes "1.2";
  max_version = [];
  reject_unknown_sni = true;
}

abbrev reality : RealityConfig
reality = record {
  show = false;
  target = codes "b.example:443";
  xver = pos 2;
  server_name = codes "b.example";
  private_key = codes "AAAAAAAAAAAAAAAAAAAAAAAAAAAAAAAAAAAAAAAAAAA";
  short_ids = some (codes "ab01" ∷ []);
  min_client_ver = [];
  max_client_ver = [];
  max_time_diff = pos 70000;
}

abbrev pub tcp_stream : Stream (Unit {0})
tcp_stream = record {
  network = [];
  settings = tt;
  security = codes "none";
  tls_config = none;
  reality_config = none;
}

exact_floats-IsFloats : IsFloats exact_floats
exact_floats-IsFloats = record {
  exact = λ z h. refl;
  byte = λ n h. omega (arith, h);
  int64 = λ z h. refl;
}

build_security_settings_decoded_example :
    (decode_tls_config (
        build_security_settings exact_floats
          (record tcp_stream { security = codes "tls"; tls_config = some tls }))
      ≡ tls_settings tls)
    × (decode_reality_config exact_floats (
          build_security_settings exact_floats
            (record tcp_stream { security = codes "reality"; reality_config = some reality }))
        ≡ reality_settings reality)
build_security_settings_decoded_example =
    build_security_settings_decoded exact_floats tcp_stream tls reality 2 exact_floats-IsFloats
      (omega arith) refl (omega arith, omega arith)

abbrev built : XrayTls
built = record {
  server_name = codes "a.example";
  certificate = codes "c.pem";
  key = codes "k.pem";
  reject_unknown_sni = true;
  next_protocol = codes "h2" ∷ codes "http/1.1" ∷ [];
  min_version = codes "1.2";
  max_version = [];
}

is_built : build_xray_tls_config (λ p. some p) (some (tls_map tls)) ≡ ok built
unfolding build_xray_tls_config Bytes-discrete tls_map decode_tls_config choose_pem
    tls_version_string decode_version get tls_version
is_built = refl
