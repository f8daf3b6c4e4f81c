-- ===== src/Vless/Vision.antt =====
-- proxy/vless/vision.go: which connections Vision accepts, and its relay. The Vision reader and
-- writer are xray-core's; the chunks of a relay are what they decode and get to encode.
pub mod Direct
use vgate_server.Base.{ℕ, ◌==◌, List, [], Option, none, some, Bool, true, false, not, if◌then◌else◌}
use vgate_server.Base.Text.{Bytes}
use vgate_server.Vless.Server.{Externals, Server}
use vgate_server.Vless.Relay.{
  Chunk, Counted, counted_step, vision_step, mux_vision_step, relay_chunks,
}

-- The connection that handleConnection got: a *crypto/tls.Conn with its version, a
-- *github.com/xtls/reality.Conn, or another one.
pub data RawConn : Type 0 where
  tls_conn : ℕ → RawConn
  reality_conn : RawConn
  other_conn : RawConn

abbrev pub version_tls13 : ℕ
version_tls13 = 0x0304

-- Whether a struct of another module has the fields that reflection looks up.
pub record Fields : Type 0 where
  pub has_input : Bool
  pub has_raw_input : Bool

-- The xray-core type that a connection is wrapped in.
pub data Wrapped : Type 0 where
  xray_tls_conn : Wrapped
  xray_reality_conn : Wrapped

pub data Setup : Type 0 where
  wants_tls13 : ℕ → Setup
  not_direct : Setup
  no_input_field : Setup
  no_raw_input_field : Setup
  wrapped : Wrapped → Setup

-- peekBuffers, and what setupVisionConn then returns
unfoldable pub peek_buffers : Fields → Wrapped → Setup
peek_buffers f w =
    if not f.has_input
    then no_input_field
    else if not f.has_raw_input
    then no_raw_input_field
    else wrapped w

-- setupVisionConn
unfoldable pub setup_vision_conn : Fields → Fields → RawConn → Setup
setup_vision_conn of_tls of_reality (tls_conn v) =
    if v == version_tls13 then peek_buffers of_tls xray_tls_conn else wants_tls13 v
setup_vision_conn of_tls of_reality reality_conn = peek_buffers of_reality xray_reality_conn
setup_vision_conn of_tls of_reality other_conn = not_direct

-- Whether the setup succeeded.
abbrev pub is_wrapped : Setup → Bool
is_wrapped (wrapped w) = true
is_wrapped _ = false

module _ {e : Externals} (of_tls of_reality : Fields) (uuid node : Bytes) where
  -- handleTCPVision, where `dialled` tells that the destination answered
  unfoldable pub handle_tcp_vision : RawConn → Bool → List Chunk → Server e → Counted e
  handle_tcp_vision conn dialled cs s =
      let relayed = relay_chunks (vision_step uuid node) cs s in
      if is_wrapped (setup_vision_conn of_tls of_reality conn)
      then (if dialled then relayed else (s, []))
      else (s, [])

  -- handleMux, where `started` tells that xray-core's worker started
  unfoldable pub handle_mux : Bool → RawConn → Bool → List Chunk → Server e → Counted e
  handle_mux vision conn started cs s =
      let decoded = relay_chunks (mux_vision_step uuid node) cs s in
      let plain = relay_chunks (counted_step uuid node) cs s in
      if vision
      then (if is_wrapped (setup_vision_conn of_tls of_reality conn)
          then (if started then decoded else (s, []))
          else (s, []))
      else (if started then plain else (s, []))
