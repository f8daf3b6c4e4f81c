-- ===== src/Tests/Connection.antt =====
-- A connection from its first byte to its end.
use vgate_server.Base.{◌≡◌, refl, [], ◌∷◌, Option, none, true}
use vgate_server.Base.Text.{Bytes, codes, Bytes-discrete, bytes_key}
use vgate_server.Base.Dict.{get}
use vgate_server.Vless.Quota.{user_over_quota}
use vgate_server.Vless.Handler.Wire.{ok, Destination, domain, read_at_least, buffer_size}
use vgate_server.Vless.Handler.{Incoming, gate, opened, first_read, authorise}
use vgate_server.Vless.Handler.Delivery.{request}
use vgate_server.Vless.Relay.{from_client, to_client}
use vgate_server.Vless.Vision.{other_conn}
use vgate_server.Vless.Vision.Direct.{complete}
use vgate_server.Vless.Connection.{Outside, serve_connection}
use vgate_server.Vless.Connection.Ending.{IsGone, serve_connection-IsGone}
use vgate_server.Tests.Fixture.{ext, alice_uuid, served}

abbrev web : Destination
web = record { address = domain (codes "a.b"); port = 443 }

abbrev asked : Incoming ext
asked = record {
  conn = 9;
  short_id = none;
  chunks = request alice_uuid 1 web (codes "hello") ∷ [];
  tunnel = λ i. none;
  written = 2;
  write_ok = true;
}

abbrev outside : Outside
outside = record {
  raw_conn = other_conn;
  of_tls = complete;
  of_reality = complete;
  answers = true;
  payload_written = true;
  chunks = from_client 5 ∷ to_client 1000 ∷ [];
}

abbrev no_flow : Bytes → Option Bytes
no_flow b = none

passed : gate asked served ≡ ok (alice_uuid, read_at_least 18 buffer_size asked.chunks)
unfolding gate opened first_read authorise user_over_quota get Bytes-discrete read_at_least
passed = refl

serve_connection-IsGone_example :
    IsGone alice_uuid 9 (serve_connection {e = ext} no_flow outside asked served).0
serve_connection-IsGone_example =
    serve_connection-IsGone {e = ext} no_flow outside asked served alice_uuid
      (read_at_least 18 buffer_size asked.chunks) passed
