-- ===== src/Vless/System.antt =====
-- The server of proxy/vless under any sequence of what its goroutines do while they hold the mutex:
-- the calls of sync, of Start, and of the connections.
pub mod Valid
pub mod Users
pub mod Preserve
pub mod Account
pub mod Emails
pub mod Frames
pub mod Reactions
pub mod Refines
pub mod Closing
pub mod Untouched
pub mod Gate
pub mod Budget
pub mod Books
pub mod Conserve
use vgate_server.Base.{ℕ, List, [], ◌∷◌, some}
use vgate_server.Base.Int.{pos}
use vgate_server.Base.Text.{Bytes}
use vgate_server.Model.{User, UserUsage, Config}
use vgate_server.Vless.Server.{Externals, Server, set_node_id}
use vgate_server.Vless.Quota.{apply_usage}
use vgate_server.Vless.Traffic.{add_traffic, get_and_reset_traffic}
use vgate_server.Vless.User.{update_users, add_conn}
use vgate_server.Vless.Handler.{finish, close_conn}
use vgate_server.Vless.Config.{update_config}

-- UpdateConfig, UpdateUsers, ApplyUsage, GetAndResetTraffic and SetNodeID; Start's store of its
-- listener; and of a connection addConn, addTraffic, the deferred calls of a registered one, and the
-- Close of one that was refused.
pub data Op (e : Externals) : Type 0 where
  configure : Config e.Settings → Op e
  set_users : List User → Op e
  set_usage : List UserUsage → Op e
  collect : Op e
  name_node : Bytes → Op e
  listen_on : ℕ → Op e
  open_conn : Bytes → ℕ → Op e
  count : Bytes → Bytes → ℕ → ℕ → Op e
  end_conn : Bytes → ℕ → Op e
  refuse : ℕ → Op e

module _ {e : Externals} where
  unfoldable pub perform : Op e → Server e → Server e
  perform (configure cfg) s = (update_config cfg s).0
  perform (set_users us) s = update_users us s
  perform (set_usage us) s = apply_usage us s
  perform collect s = (get_and_reset_traffic s).0
  perform (name_node id) s = set_node_id id s
  perform (listen_on l) s = record s { ln = some l }
  perform (open_conn uuid conn) s = add_conn uuid conn s
  perform (count uuid node up down) s = add_traffic uuid node (pos up) (pos down) s
  perform (end_conn uuid conn) s = finish uuid conn s
  perform (refuse conn) s = close_conn conn s

  unfoldable pub perform_all : List (Op e) → Server e → Server e
  unfolding perform
  perform_all [] s = s
  perform_all (op ∷ ops) s = perform_all ops (perform op s)
