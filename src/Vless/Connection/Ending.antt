-- ===== src/Vless/Connection/Ending.antt =====
-- What is left of a connection when its handler has returned.
use mathlib.Core.List.{Mem, mem-cons_self}
use vgate_server.Base.{ℕ, ◌≡◌, refl, [], ◌∷◌, Option, none, inl, inr, Option-cases, length}
use vgate_server.Base.Text.{Bytes, bytes_key, nat_key}
use vgate_server.Base.Dict.{get, remove, get-remove_self, get-put_self}
use vgate_server.Vless.Server.{Externals, Server, ConnSet}
use vgate_server.Vless.Quota.{conns_or_none}
use vgate_server.Vless.User.{remove_found, remove_conn}
use vgate_server.Vless.Handler.Wire.{Step, ok, reject, panic, Reading}
use vgate_server.Vless.Handler.{
  Incoming, Forward, gate, admitted, register, finish, close_conn, entry_node,
}
use vgate_server.Vless.Connection.{Outside, run_forwarder, run_registered, serve_connection}

-- Whether the user's set has the connection.
abbrev pub registered : {e : Externals} → Bytes → ℕ → Server e → Option (Unit {0})
registered uuid conn s = get (conns_or_none (get s.user_conns uuid)) conn

module _ {e : Externals} (uuid : Bytes) (conn : ℕ) where
  remove_found_lem :
      (set : ConnSet) (s : Server e)
      → get set conn ≡ none
      → registered uuid conn (remove_found uuid set s) ≡ none
  unfolding remove_found get
  remove_found_lem [] s h = rw (get-remove_self s.user_conns uuid) refl
  remove_found_lem (c ∷ cs) s h = rw (get-put_self s.user_conns uuid (c ∷ cs)) h

  registered-remove_conn : (s : Server e) → registered uuid conn (remove_conn uuid conn s) ≡ none
  unfolding get remove_conn
  registered-remove_conn s = elim (Option-cases (get s.user_conns uuid)) [
    | inl absent ↦ rw (absent, remove_conn) (rw absent refl)
    | inr (conns, found) ↦
        rw (found, remove_conn)
          (remove_found_lem (remove conns conn) s (get-remove_self conns conn))
  ]

  -- What is left of a connection that was registered for a user.
  abbrev pub IsGone : Server e → Type 0
  IsGone t = Mem conn t.closed × (registered uuid conn t ≡ none)

  finish-IsGone : (s : Server e) → IsGone (finish uuid conn s)
  unfolding finish close_conn
  finish-IsGone s = (mem-cons_self, registered-remove_conn s)

module _ {e : Externals} (o : Outside) (uuid node : Bytes) (c : Incoming e) where
  run_registered-IsGone :
      (r : Step Forward × Server e) → IsGone uuid c.conn (run_registered o uuid node c r).0
  unfolding run_registered
  run_registered-IsGone (ok f, s) = finish-IsGone uuid c.conn (run_forwarder o uuid node f s).0
  run_registered-IsGone (reject x, s) = finish-IsGone uuid c.conn s
  run_registered-IsGone (panic, s) = finish-IsGone uuid c.conn s

-- A connection that passed the gate, whatever its header says, its forwarder does and however much
-- it relays, ends up closed, and its user's connections do not have it any more.
pub serve_connection-IsGone :
    {e : Externals} (flow_of : Bytes → Option Bytes) (o : Outside) (c : Incoming e) (s : Server e)
    (uuid : Bytes) (r : Reading)
    → gate c s ≡ ok (uuid, r)
    → IsGone uuid c.conn (serve_connection flow_of o c s).0
unfolding serve_connection get
serve_connection-IsGone flow_of o c s uuid r passed =
    rw (passed, serve_connection)
      (run_registered-IsGone o uuid (entry_node c.short_id s) c (
        admitted flow_of c uuid (entry_node c.short_id s) r
          (register c uuid (entry_node c.short_id s) (length r.got) s)))
