-- ===== src/Vless/System/Refines.antt =====
-- The server of proxy/vless as one user sees it, over any operations of any users.
use vgate_server.Base.{◌≡◌, refl, ap, ◌∙◌, List, [], ◌∷◌, All}
use vgate_server.Base.Int.{pos}
use vgate_server.Base.Text.{Bytes, bytes_key, nat_key}
use vgate_server.Vless.Server.{Externals, Server, set_node_id}
use vgate_server.Vless.Quota.{apply_usage}
use vgate_server.Vless.Quota.Snapshot.{Apart}
use vgate_server.Vless.Traffic.{get_and_reset_traffic}
use vgate_server.Vless.Traffic.Conservation.{users-add_traffic}
use vgate_server.Vless.User.{add_conn}
use vgate_server.Vless.Handler.{close_conn}
use vgate_server.Vless.System.{
  Op, configure, set_users, set_usage, collect, name_node, listen_on, open_conn, count, end_conn,
  refuse, perform, perform_all,
}
use vgate_server.Vless.System.Valid.{IsValid}
use vgate_server.Vless.System.Preserve.{perform-IsValid}
use vgate_server.Vless.System.Account.{account, react, react_all}
use vgate_server.Vless.System.Reactions.{
  account-update_config, account-add_conn, account-finish, account-add_traffic, account-apply_usage,
  account-update_users, users-update_config,
}
use vgate_server.Vless.System.Frames.{SameUsers-finish}
use vgate_server.Vless.System.Emails.{IsSupplied, update_users-Apart}

module _ {e : Externals} (uuid : Bytes) where
  perform_refines :
      (op : Op e) (s : Server e)
      → IsValid s
      → Apart s.users
      → account uuid (perform op s) ≡ react uuid op (account uuid s)
  unfolding perform set_node_id close_conn get_and_reset_traffic
  perform_refines (configure cfg) s v a = account-update_config uuid s cfg
  perform_refines (set_users us) s v a = account-update_users uuid s us v
  perform_refines (set_usage us) s v a = account-apply_usage uuid s us v a
  perform_refines collect s v a = refl
  perform_refines (name_node id) s v a = refl
  perform_refines (listen_on l) s v a = refl
  perform_refines (open_conn id conn) s v a = account-add_conn uuid s id conn
  perform_refines (count id node up down) s v a = account-add_traffic uuid s id node up down
  perform_refines (end_conn id conn) s v a = account-finish uuid s id conn
  perform_refines (refuse conn) s v a = refl

  -- The emails stay apart if every list of users that is handed over has them apart.
  perform-Apart :
      (op : Op e) (s : Server e) → IsSupplied op → Apart s.users → Apart (perform op s).users
  unfolding perform set_node_id close_conn get_and_reset_traffic add_conn apply_usage
  perform-Apart (configure cfg) s own a = rw (users-update_config cfg s) a
  perform-Apart (set_users us) s own a = update_users-Apart us s own
  perform-Apart (set_usage us) s own a = a
  perform-Apart collect s own a = a
  perform-Apart (name_node id) s own a = a
  perform-Apart (listen_on l) s own a = a
  perform-Apart (open_conn id conn) s own a = a
  perform-Apart (count id node up down) s own a =
      rw (users-add_traffic id node (pos up) (pos down) s) a
  perform-Apart (end_conn id conn) s own a = rw ((SameUsers-finish id conn s).users) a
  perform-Apart (refuse conn) s own a = a

  -- Over any operations of any users, what the server holds for a user is what the user's own rules
  -- make of those operations: the last list of users gives or takes the account, the last payload of
  -- usage sets the quota, counted bytes go on the meter, and a connection is open from its
  -- registration until its end or the revocation. The server is valid, no
  -- two of its users share an email, and every list of users gives each user an email of their own.
  pub perform_all_refines :
      (ops : List (Op e)) (s : Server e)
      → IsValid s
      → Apart s.users
      → All IsSupplied ops
      → account uuid (perform_all ops s) ≡ react_all uuid ops (account uuid s)
  unfolding perform_all
  perform_all_refines [] s v a own = refl
  perform_all_refines (op ∷ ops) s v a own =
      perform_all_refines ops (perform op s) (perform-IsValid op s v) (perform-Apart op s own.0 a)
        own.1
      ∙ ap (react_all uuid ops) (perform_refines op s v a)
