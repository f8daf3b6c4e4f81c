-- ===== src/Tests/Relay.antt =====
-- Relays, listeners and Mux sessions at concrete inputs.
use vgate_server.Base.{
  ℕ, ◌≡◌, ◌≢◌, refl, List, [], ◌∷◌, ◌++◌, Option, none, some, Bool, true, false, arith, ◌≤◌,
  if◌then◌else◌, length, ◌⊎◌,
}
use vgate_server.Base.Text.{Bytes, codes}
use vgate_server.Vless.Relay.{
  Chunk, from_client, to_client, relay_chunks, counted_step, vision_step, mux_vision_step,
}
use vgate_server.Vless.Relay.Accounting.{relay_vision-relay_counted, relay_mux_vision-unlimited}
use vgate_server.Vless.HandleTcp.{
  Relay, dialled, moved, finished, move, end_of_stream, Step, Steps, none_yet, later, upward,
  downward,
}
use vgate_server.Vless.HandleTcp.Copies.{Steps-stream, first_report_cuts}
use vgate_server.Vless.Vision.{tls_conn, handle_tcp_vision, handle_mux}
use vgate_server.Vless.Vision.Direct.{complete, vision_refused}
use vgate_server.Vless.Mux.{
  UdpAddr, Dialer, udp6, udp, MuxDestination, full_cone, dispatch, to4, open_udp, listen_family,
}
use vgate_server.Transport.ChanListener.{
  ChanListener, add, add_closed, accept, close_first, Reach, start,
}
use vgate_server.Transport.ChanListener.Delivery.{Inv, Reach-Inv}
use vgate_server.Tests.Fixture.{ext, served, alice_uuid}

abbrev chunks : List Chunk
chunks = from_client 100 ∷ to_client 0 ∷ to_client 7000 ∷ []

relay_vision-relay_counted_example :
    relay_chunks (vision_step {e = ext} alice_uuid []) chunks served
    ≡ relay_chunks (counted_step {e = ext} alice_uuid []) chunks served
relay_vision-relay_counted_example =
    relay_vision-relay_counted {e = ext} alice_uuid [] chunks served

relay_mux_vision-unlimited_example :
    relay_chunks (mux_vision_step {e = ext} alice_uuid []) chunks served
    ≡ ((relay_chunks (counted_step {e = ext} alice_uuid []) chunks served).0, [])
relay_mux_vision-unlimited_example =
    relay_mux_vision-unlimited {e = ext} alice_uuid [] chunks served

vision_refused_example :
    (handle_tcp_vision {e = ext} complete complete alice_uuid []
        (tls_conn 0x0303)
        true
        chunks
        served
      ≡ (served, []))
    × (handle_mux {e = ext} complete complete alice_uuid [] true
          (tls_conn 0x0303)
          true
          chunks
          served
        ≡ (served, []))
vision_refused_example =
    vision_refused {e = ext} alice_uuid [] (tls_conn 0x0303) true chunks served complete complete
      (λ h. ground (arith, h))

-- The client closed its side; the destination has an answer left.
abbrev half_done : Relay
half_done = record (dialled (codes "GET") [] (codes "200 OK")) {
  up = finished (dialled (codes "GET") [] (codes "200 OK")).up;
  down = moved 3 (dialled (codes "GET") [] (codes "200 OK")).down;
}

half_run : Steps (dialled (codes "GET") [] (codes "200 OK")) half_done
half_run =
    later (later none_yet (upward (end_of_stream refl refl refl))) (downward (move 3 refl refl))

Steps-stream_example :
    (half_done.up.delivered ++ half_done.up.left ≡ codes "GET")
    × (half_done.down.delivered ++ half_done.down.left ≡ codes "200 OK")
Steps-stream_example = Steps-stream (codes "GET") [] (codes "200 OK") half_done half_run

first_report_cuts_example :
    Step half_done (record half_done { returned = true }) × (half_done.down.delivered ≡ codes "200")
first_report_cuts_example =
    first_report_cuts half_done (record half_done { returned = true }) refl none_yet

abbrev dialer : Dialer
dialer = record {
  resolve = λ s. some (record {
    ip = 0x20 ∷ 1 ∷ 0 ∷ 0 ∷ 0 ∷ 0 ∷ 0 ∷ 0 ∷ 0 ∷ 0 ∷ 0 ∷ 0 ∷ 0 ∷ 0 ∷ 0 ∷ 5 ∷ [];
    port = 53;
  });
  listen_udp = λ f. some 4;
  dial_tcp = λ s. none;
}

abbrev stun : UdpAddr
stun = record {
  ip = 0x20 ∷ 1 ∷ 0 ∷ 0 ∷ 0 ∷ 0 ∷ 0 ∷ 0 ∷ 0 ∷ 0 ∷ 0 ∷ 0 ∷ 0 ∷ 0 ∷ 0 ∷ 5 ∷ [];
  port = 53;
}

abbrev to_stun : MuxDestination
to_stun = record { network = udp; net_addr = codes "[2001::5]:53" }

stun_socket : dispatch dialer to_stun ≡ some (full_cone 4 udp6 stun)
unfolding dispatch open_udp listen_family to4 vgate_server.Base.Text.Bytes-discrete
stun_socket = refl

abbrev closed_listener : ChanListener
closed_listener = record {
  queue = 9 ∷ [];
  closed = true;
  inner_closes = 1;
  sent = 8 ∷ 9 ∷ [];
  accepted = 8 ∷ [];
  dropped = 10 ∷ [];
}

listener_run : Reach closed_listener
listener_run =
    Reach.later
      (Reach.later
        (Reach.later (Reach.later (Reach.later start (add 8 (omega arith))) (accept 8 [] refl))
          (close_first refl))
        (add 9 (omega arith)))
      (add_closed 10 refl)

Reach-Inv_example : Inv closed_listener
Reach-Inv_example = Reach-Inv listener_run
