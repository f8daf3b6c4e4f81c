-- ===== src/Vless/Vision/Direct.antt =====
-- Which connections carry Vision.
use vgate_server.Base.{◌==◌, ◌≡◌, refl, arith, List, [], Bool, true, false, inl, inr, Bool-cases}
use vgate_server.Base.Text.{Bytes}
use vgate_server.Vless.Server.{Externals, Server}
use vgate_server.Vless.Relay.{Chunk, counted_step, relay_chunks}
use vgate_server.Vless.Relay.Accounting.{relay_vision-relay_counted, relay_mux_vision-unlimited}
use vgate_server.Vless.Vision.{
  RawConn, tls_conn, reality_conn, other_conn, version_tls13, Fields, peek_buffers,
  setup_vision_conn, is_wrapped, handle_tcp_vision, handle_mux,
}

abbrev pub complete : Fields
complete = record { has_input = true; has_raw_input = true }

-- The connections that Vision can read below: TLS 1.3 and Reality.
abbrev pub IsDirect : RawConn → Type 0
IsDirect (tls_conn v) = v ≡ version_tls13
IsDirect reality_conn = Unit
IsDirect other_conn = ⊥

setup-IsDirect :
    (c : RawConn) → IsDirect c → is_wrapped (setup_vision_conn complete complete c) ≡ true
unfolding setup_vision_conn peek_buffers
setup-IsDirect (tls_conn v) h = ground (arith, h)
setup-IsDirect reality_conn h = refl
setup-IsDirect other_conn h = absurd h

setup-refused :
    (f g : Fields) (c : RawConn) → ¬ IsDirect c → is_wrapped (setup_vision_conn f g c) ≡ false
unfolding setup_vision_conn
setup-refused f g (tls_conn v) h = elim (Bool-cases (v == version_tls13)) [
  | inl same ↦ absurd (h (ground arith))
  | inr other ↦ rw other refl
]
setup-refused f g reality_conn h = absurd (h tt)
setup-refused f g other_conn h = refl

module _ {e : Externals} (uuid node : Bytes) (c : RawConn) (up : Bool) (cs : List Chunk)
    (s : Server e) where
  -- On a connection that is neither TLS 1.3 nor Reality, handleTCPVision, and handleMux with the
  -- Vision flow, return without relaying a chunk: whatever the connection would have carried, they
  -- count nothing and wait for no token. What handleConnection does before it calls them is not part
  -- of this.
  pub vision_refused :
      (f g : Fields)
      → ¬ IsDirect c
      → (handle_tcp_vision f g uuid node c up cs s ≡ (s, []))
        × (handle_mux f g uuid node true c up cs s ≡ (s, []))
  unfolding handle_tcp_vision handle_mux
  vision_refused f g other = rw (setup-refused f g c other) (refl, refl)

  -- On TLS 1.3 and on Reality, where the connection structs have their two buffers, a request with
  -- the Vision flow for a destination that answers is counted and limited like one without, and a
  -- Mux tunnel with Vision is counted like one without, but not limited.
  pub vision_relays :
      IsDirect c
      → (handle_tcp_vision complete complete uuid node c true cs s
          ≡ relay_chunks (counted_step uuid node) cs s)
        × (handle_mux complete complete uuid node true c true cs s
            ≡ ((handle_mux complete complete uuid node false c true cs s).0, []))
  unfolding handle_tcp_vision handle_mux
  vision_relays direct =
      rw (setup-IsDirect c direct)
        (relay_vision-relay_counted uuid node cs s, relay_mux_vision-unlimited uuid node cs s)
