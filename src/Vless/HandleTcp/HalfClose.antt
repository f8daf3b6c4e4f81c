-- ===== src/Vless/HandleTcp/HalfClose.antt =====
-- closeWrite of proxy/vless/handler.go, and the CloseWrite of the two connections that wrap another.
use vgate_server.Base.{◌≡◌, refl, Bool, true, false, if◌then◌else◌}

-- A connection of the transport, with a CloseWrite of its own or without; a countingConn and a
-- rateLimitedConn around a connection.
data Conn : Type 0 where
  transport : Bool → Conn
  counting : Conn → Conn
  rate_limited : Conn → Conn

-- The type assertion on `interface{ CloseWrite() error }`.
abbrev has_close_write : Conn → Bool
has_close_write (transport can) = can
has_close_write (counting c) = true
has_close_write (rate_limited c) = true

-- The method, on a connection that has it: whether the transport's connection is half-closed.
unfoldable conn_close_write : Conn → Bool
conn_close_write (transport can) = true
conn_close_write (counting c) =
    let inner = conn_close_write c in if has_close_write c then inner else false
conn_close_write (rate_limited c) =
    let inner = conn_close_write c in if has_close_write c then inner else false

-- closeWrite
unfoldable close_write : Conn → Bool
unfolding conn_close_write
close_write c = if has_close_write c then conn_close_write c else false

abbrev can_half_close : Conn → Bool
can_half_close (transport can) = can
can_half_close (counting c) = can_half_close c
can_half_close (rate_limited c) = can_half_close c

-- Through any wrappers, closeWrite half-closes the transport's connection exactly where that can be.
close_write_lem : (c : Conn) → close_write c ≡ can_half_close c
unfolding close_write conn_close_write
close_write_lem (transport true) = refl
close_write_lem (transport false) = refl
close_write_lem (counting c) = close_write_lem c
close_write_lem (rate_limited c) = close_write_lem c
