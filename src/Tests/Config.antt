-- ===== src/Tests/Config.antt =====
-- A configuration, and the texts that the server decodes.
use vgate_server.Base.{
  ◌≡◌, refl, List, [], ◌∷◌, none, some, true, false, arith, replicate, take, drop, ◌≢◌,
}
use vgate_server.Base.Int.{pos}
use vgate_server.Base.Text.{Bytes, codes, bytes_key, Bytes-discrete}
use vgate_server.Model.{Config, Stream, Vless}
use vgate_server.Vless.Server.{Server, no_vless}
use vgate_server.Vless.Protocol.{parse_uuid, hex_decode, hex_digit}
use vgate_server.Vless.Handler.{xrv, entry_node}
use vgate_server.Vless.Config.{update_config, vless_equal, stream_equal, transport_name}
use vgate_server.Vless.Config.Keys.{sid_key}
use vgate_server.Vless.Config.EntryNode.{entry_node-update_config}
use vgate_server.Vless.Config.Reload.{FlowFits, update_config-FlowFits, stale_flow}
use vgate_server.Vless.Udp.{end_of_stream, out_of_fuel, uplink}
use vgate_server.Vless.Udp.RoundTrip.{frames, uplink-frames, uplink_ends}
use vgate_server.Tests.Fixture.{ext, served, alice_uuid}

abbrev with_vision : Vless
with_vision = record no_vless { flow = xrv }

abbrev plain_stream : Stream (Unit {0})
plain_stream = record {
  network = codes "ws";
  settings = tt;
  security = codes "none";
  tls_config = none;
  reality_config = none;
}

abbrev config : Config (Unit {0})
config = record {
  port = pos 443;
  stream = plain_stream;
  vless = with_vision;
  speed_limit_up_bps = pos 0;
  speed_limit_down_bps = pos 1000;
  traffic_sids =
      record { node_id = codes "n1"; sid = codes " AB01" }
      ∷ record { node_id = codes "n2"; sid = codes "ab01" }
      ∷ [];
}

-- The server had a vision flow already.
abbrev vision_server : Server ext
vision_server = record served { vless = with_vision; ln = some 3 }

new_flow : vless_equal served.vless with_vision ≡ false
unfolding vless_equal Bytes-discrete
new_flow = refl

same_flow : vless_equal with_vision with_vision ≡ true
unfolding vless_equal Bytes-discrete
same_flow = refl

new_stream : stream_equal ext vision_server.stream plain_stream ≡ false
unfolding stream_equal transport_name Bytes-discrete
new_stream = refl

parsed : parse_uuid (codes "11111111-1111-1111-1111-111111111111") ≡ some alice_uuid
unfolding parse_uuid hex_digit
parsed = refl

update_config-FlowFits_example :
    FlowFits plain_stream (update_config {e = ext} config served).0.vless.flow
update_config-FlowFits_example = update_config-FlowFits {e = ext} config served new_flow

-- A WebSocket stream without security keeps the vision flow.
stale_flow_example :
    let t = (update_config {e = ext} config vision_server).0 in ¬ FlowFits t.stream t.vless.flow
stale_flow_example = stale_flow {e = ext} config vision_server same_flow new_stream refl (λ h. cc)

entry_node-update_config_example :
    entry_node (some (0xab ∷ 1 ∷ replicate 6 0)) (update_config {e = ext} config served).0
    ≡ codes "n2"
unfolding sid_key Bytes-discrete hex_digit hex_decode
entry_node-update_config_example =
    entry_node-update_config {e = ext} config served (0xab ∷ 1 ∷ replicate 6 0)

abbrev sent : List Bytes
sent = codes "abc" ∷ [] ∷ replicate 3000 7 ∷ []

uplink-frames_example :
    uplink 3 (take 4 (frames sent)) (drop 4 (frames sent)) ≡ (sent, end_of_stream)
uplink-frames_example =
    uplink-frames sent 0 (take 4 (frames sent)) (drop 4 (frames sent))
      (omega arith, (omega arith, (omega arith, tt))) refl

uplink_ends_example : (uplink 1 [] (frames sent)).1 ≢ out_of_fuel
uplink_ends_example = uplink_ends 1 [] (frames sent)
