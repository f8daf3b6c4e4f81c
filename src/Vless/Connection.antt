-- ===== src/Vless/Connection.antt =====
-- proxy/vless/handler.go: handleConnection to its end, with the forwarder that it calls and the
-- deferred calls behind it.
pub mod Ending
use vgate_server.Base.{List, [], Option, Bool, ◌||◌, if◌then◌else◌, take, drop, length}
use vgate_server.Base.Text.{Bytes, bytes_eq}
use vgate_server.Vless.Server.{Externals, Server}
use vgate_server.Vless.Ratelimit.{Wait}
use vgate_server.Vless.Handler.Wire.{Step, ok, reject, panic}
use vgate_server.Vless.Handler.{
  Incoming, Forward, to_mux, to_tcp, to_udp, to_vision, gate, admitted, register, finish,
  close_conn, entry_node,
}
use vgate_server.Vless.Relay.{Chunk, Counted, counted_step, relay_chunks}
use vgate_server.Vless.Vision.{RawConn, Fields, handle_tcp_vision, handle_mux}

-- What a forwarder meets: the connection below, whether the destination answers or xray-core's
-- worker starts, whether the payload of the header can be written to the destination, and the chunks
-- that are then relayed.
pub record Outside : Type 0 where
  pub raw_conn : RawConn
  pub of_tls : Fields
  pub of_reality : Fields
  pub answers : Bool
  pub payload_written : Bool
  pub chunks : List Chunk

module _ {e : Externals} (o : Outside) (uuid node : Bytes) where
  -- handleTCP as its connection counts it
  unfoldable pub handle_tcp : Bytes → Server e → Counted e
  handle_tcp payload s =
      let relayed = relay_chunks (counted_step uuid node) o.chunks s in
      if o.answers
      then (if bytes_eq payload [] || o.payload_written then relayed else (s, []))
      else (s, [])

  -- handleUDP as its connection counts it
  unfoldable pub handle_udp : Server e → Counted e
  handle_udp s =
      let relayed = relay_chunks (counted_step uuid node) o.chunks s in
      if o.answers then relayed else (s, [])

  -- The call of the forwarder.
  unfoldable pub run_forwarder : Forward → Server e → Counted e
  unfolding handle_tcp handle_udp
  run_forwarder (to_mux payload vision) s =
      handle_mux o.of_tls o.of_reality uuid node vision o.raw_conn o.answers o.chunks s
  run_forwarder (to_tcp dest payload) s = handle_tcp payload s
  run_forwarder (to_udp dest payload) s = handle_udp s
  run_forwarder (to_vision dest payload) s =
      handle_tcp_vision o.of_tls o.of_reality uuid node o.raw_conn o.answers o.chunks s

  -- From the registered connection to the deferred calls.
  unfoldable pub run_registered : Incoming e → Step Forward × Server e → Counted e
  unfolding run_forwarder
  run_registered c (ok f, s) = let (t, waits) = run_forwarder f s in (finish uuid c.conn t, waits)
  run_registered c (reject x, s) = (finish uuid c.conn s, [])
  run_registered c (panic, s) = (finish uuid c.conn s, [])

-- handleConnection, when nothing else runs in between
unfoldable pub serve_connection :
    {e : Externals} → (Bytes → Option Bytes) → Outside → Incoming e → Server e → Counted e
unfolding run_registered
serve_connection flow_of o c s =
    let node = entry_node c.short_id s in
    elim (gate c s) [
      | reject x ↦ (close_conn c.conn s, [])
      | panic ↦ (close_conn c.conn s, [])
      | ok (uuid, r) ↦
          run_registered o uuid node c
            (admitted flow_of c uuid node r (register c uuid node (length r.got) s))
    ]
