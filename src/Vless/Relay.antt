-- ===== src/Vless/Relay.antt =====
-- What a relay does for each chunk it moves: countingConn, accountReader and accountWriter of
-- proxy/vless/traffic.go, rateLimitedConn of ratelimit.go, and how handleTCP, handleMux and
-- handleTCPVision put them together.
pub mod Accounting
use vgate_server.Base.{ℕ, ◌==◌, List, [], ◌∷◌, ◌++◌, if◌then◌else◌}
use vgate_server.Base.Int.{ℤ, pos}
use vgate_server.Base.Text.{Bytes}
use vgate_server.Vless.Server.{Externals, Server}
use vgate_server.Vless.Traffic.{add_traffic}
use vgate_server.Vless.Ratelimit.{Wait, apply_limits}

-- A chunk of this many bytes from the client, or to it: what one Read or Write of a connection
-- moves, or one buffer of xray-core, where a read that brings several buffers is several chunks.
pub data Chunk : Type 0 where
  from_client : ℕ → Chunk
  to_client : ℕ → Chunk

-- The server afterwards, and the waits for tokens in their order.
abbrev pub Counted : Externals → Type 0
Counted e = Server e × List (Wait e.Limiter)

module _ {e : Externals} (uuid node : Bytes) where
  -- countingConn.Read, of which the connection below returned n bytes
  unfoldable pub counted_read : ℕ → Server e → Counted e
  counted_read n s =
      let t = add_traffic uuid node (pos n) (pos 0) s in
      if n == 0 then (s, []) else (t, apply_limits uuid (pos n) (pos 0) t)

  -- countingConn.Write
  unfoldable pub counted_write : ℕ → Server e → Counted e
  counted_write n s =
      let t = add_traffic uuid node (pos 0) (pos n) s in
      if n == 0 then (s, []) else (t, apply_limits uuid (pos 0) (pos n) t)

  -- accountReader.ReadMultiBuffer and accountWriter.WriteMultiBuffer, whose `fn` gets the bytes of
  -- a chunk that is not empty
  unfoldable pub account : (ℤ → Server e → Server e) → ℕ → Server e → Server e
  account fn n s = if n == 0 then s else fn (pos n) s

  -- The `fn` of each direction.
  abbrev pub account_up : ℤ → Server e → Server e
  account_up n s = add_traffic uuid node n (pos 0) s

  abbrev pub account_down : ℤ → Server e → Server e
  account_down n s = add_traffic uuid node (pos 0) n s

  -- rateLimitedConn.Read
  unfoldable pub limited_read : ℕ → Server e → List (Wait e.Limiter)
  limited_read n s = if n == 0 then [] else apply_limits uuid (pos 0) (pos n) s

  -- rateLimitedConn.Write
  unfoldable pub limited_write : ℕ → Server e → List (Wait e.Limiter)
  limited_write n s = if n == 0 then [] else apply_limits uuid (pos n) (pos 0) s

  -- handleTCP, and handleMux without Vision: both copies go through the counting connection.
  unfoldable pub counted_step : Chunk → Server e → Counted e
  unfolding counted_read counted_write
  counted_step (from_client n) s = counted_read n s
  counted_step (to_client n) s = counted_write n s

  -- handleTCPVision: from an accountReader into the limited destination, and from the limited
  -- destination through an accountReader
  unfoldable pub vision_step : Chunk → Server e → Counted e
  unfolding account limited_read limited_write
  vision_step (from_client n) s = let t = account account_up n s in (t, limited_write n t)
  vision_step (to_client n) s = (account account_down n s, limited_read n s)

  -- handleMux with Vision: an accountReader and an accountWriter, and no limited connection
  unfoldable pub mux_vision_step : Chunk → Server e → Counted e
  unfolding account
  mux_vision_step (from_client n) s = (account account_up n s, [])
  mux_vision_step (to_client n) s = (account account_down n s, [])

-- The chunks of both directions in the order in which they are counted.
unfoldable pub relay_chunks :
    {e : Externals} → (Chunk → Server e → Counted e) → List Chunk → Server e → Counted e
relay_chunks step [] s = (s, [])
relay_chunks step (c ∷ cs) s =
    let (t, now) = step c s in let (u, next) = relay_chunks step cs t in (u, now ++ next)
