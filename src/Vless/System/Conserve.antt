-- ===== src/Vless/System/Conserve.antt =====
-- What GetAndResetTraffic reports over any operations of proxy/vless.
use native.Mathlib.Nat.{add_assoc}
use vgate_server.Base.{
  ◌≤◌, ℕ, ◌+◌, ◌^◌, ◌<◌, ◌≡◌, ◌≢◌, refl, ◌∙◌, List, [], ◌∷◌, ◌++◌, Bool, if◌then◌else◌, arith, All,
}
use vgate_server.Base.Int.{pos}
use vgate_server.Base.Text.{Bytes, bytes_key, pair_key}
use vgate_server.Base.Dict.{Dict, get, All-put}
use vgate_server.Model.{User, UserTraffic}
use vgate_server.Vless.Server.{Externals, Server, set_node_id}
use vgate_server.Vless.Quota.{apply_usage}
use vgate_server.Vless.Traffic.{email_of, add_traffic, get_and_reset_traffic}
use vgate_server.Vless.Traffic.Ledger.{
  Direction, upload, download, Stats, pick, pending, reported, pending-put, reported-append,
}
use vgate_server.Vless.Traffic.Conservation.{counted, traffic-add_traffic, weight_found}
use vgate_server.Vless.User.{add_conn, drop_user, drop_users, update_users}
use vgate_server.Vless.Handler.{finish, close_conn}
use vgate_server.Vless.System.{
  Op, configure, set_users, set_usage, collect, name_node, listen_on, open_conn, count, end_conn,
  refuse, perform, perform_all,
}
use vgate_server.Vless.System.Untouched.{books-remove_conn, books-update_config}
use vgate_server.Vless.System.Books.{
  IsTally, counter, IsTally-more, IsTally-grown, IsTally-found, IsTally-reset, weight_more,
  books_collected,
}

pick_bound : (d : Direction) (a b : ℕ) → pick d a b ≤ a + b
pick_bound upload a b = omega arith
pick_bound download a b = omega arith

module _ {e : Externals} where
  -- The reports that the operations hand out.
  abbrev pub report_of : Op e → Server e → List UserTraffic
  report_of collect s = (get_and_reset_traffic s).1
  report_of op s = []

  abbrev pub reports : List (Op e) → Server e → List UserTraffic
  reports [] s = []
  reports (op ∷ ops) s = report_of op s ++ reports ops (perform op s)

  abbrev pub volume_of : Op e → ℕ
  volume_of (count uuid node up down) = up + down
  volume_of op = 0

  -- All bytes counted.
  abbrev pub all_bytes : List (Op e) → ℕ
  all_bytes [] = 0
  all_bytes (op ∷ ops) = volume_of op + all_bytes ops

  -- Every count goes to a counter with an email.
  abbrev pub IsAttributed : Op e → Server e → Type 0
  IsAttributed (count uuid node up down) s = (counter uuid node s).email ≢ []
  IsAttributed op s = Unit

  abbrev pub AllAttributed : List (Op e) → Server e → Type 0
  AllAttributed [] s = Unit
  AllAttributed (op ∷ ops) s = IsAttributed op s × AllAttributed ops (perform op s)

  pub traffic-drop_users :
      (old : Dict Bytes User) (s : Server e) → (drop_users old s).user_traffic ≡ s.user_traffic
  unfolding drop_users
  traffic-drop_users [] s = refl
  traffic-drop_users ((k, u) ∷ old) s = traffic-drop_users old (drop_user k s) ∙ one k s
    where
      one : (k : Bytes) (s : Server e) → (drop_user k s).user_traffic ≡ s.user_traffic
      one k s = unfold drop_user in ground arith

  module _ (mine : Bytes → Bytes → Bool) (d : Direction) where
    -- The bytes counted in one direction for the chosen emails and entry points, where the email of
    -- a count is that of its counter.
    abbrev pub share : Op e → Server e → ℕ
    share (count uuid node up down) s =
        if mine (counter uuid node s).email node then pick d up down else 0
    share op s = 0

    abbrev pub shares : List (Op e) → Server e → ℕ
    shares [] s = 0
    shares (op ∷ ops) s = share op s + shares ops (perform op s)

    -- An operation that begins with these counters and ends with those.
    record Balances (t : ℕ) (op : Op e) (s : Server e) (m : Stats) : Type 0 where
      tally : All (IsTally (t + volume_of op)) m
      books :
          reported mine d (report_of op s) + pending mine d m
          ≡ pending mine d s.user_traffic + share op s

    idle-Balances :
        (t : ℕ) (op : Op e) (s : Server e)
        → (perform op s).user_traffic ≡ s.user_traffic
        → volume_of op ≡ 0
        → share op s ≡ 0
        → report_of op s ≡ []
        → All (IsTally t) s.user_traffic
        → Balances t op s (perform op s).user_traffic
    idle-Balances t op s same v q r h = record {
      tally = rw (same, v) (IsTally-more t s.user_traffic 0 h);
      books = rw (same, q, r) (omega arith);
    }

    count-Balances :
        (uuid node : Bytes) (a b t : ℕ) (s : Server e)
        → (counter uuid node s).email ≢ []
        → t + (a + b) < 2 ^ 63
        → All (IsTally t) s.user_traffic
        → Balances t (count uuid node a b) s (add_traffic uuid node (pos a) (pos b) s).user_traffic
    count-Balances uuid node a b t s known fits h =
        let email = email_of (get s.users uuid) in
        let old = get s.user_traffic (uuid, node) in
        let stat = counter uuid node s in
        let sound = IsTally-found t s.user_traffic (uuid, node) email known h in
        rw (traffic-add_traffic uuid node (pos a) (pos b) s) (record {
          tally =
              All-put (IsTally (t + (a + b))) s.user_traffic (uuid, node) _
                (IsTally-more t s.user_traffic (a + b) h)
                (IsTally-grown t (uuid, node) stat a b fits sound);
          books = omega (
            arith,
            pending-put mine d s.user_traffic (uuid, node)
                (counted s.users s.user_traffic uuid node (pos a) (pos b)),
            weight_more mine d (uuid, node) stat a b t fits sound,
            weight_found mine d email (uuid, node) old,
          );
        })

    perform-Balances :
        (op : Op e) (t : ℕ) (s : Server e)
        → IsAttributed op s
        → t + volume_of op < 2 ^ 63
        → All (IsTally t) s.user_traffic
        → Balances t op s (perform op s).user_traffic
    unfolding perform update_users apply_usage get_and_reset_traffic set_node_id add_conn finish
        close_conn
    perform-Balances (configure cfg) t s k f h =
        idle-Balances t (configure cfg) s (books-update_config cfg s).0 refl refl refl h
    perform-Balances (set_users us) t s k f h =
        idle-Balances t (set_users us) s (traffic-drop_users s.users _) refl refl refl h
    perform-Balances (set_usage us) t s k f h =
        idle-Balances t (set_usage us) s refl refl refl refl h
    perform-Balances collect t s k f h = record {
      tally = IsTally-more t _ 0 (IsTally-reset t s.users s.user_traffic h);
      books = omega (arith, books_collected mine d s.users t s.user_traffic h);
    }
    perform-Balances (name_node id) t s k f h =
        idle-Balances t (name_node id) s refl refl refl refl h
    perform-Balances (listen_on l) t s k f h = idle-Balances t (listen_on l) s refl refl refl refl h
    perform-Balances (open_conn uuid conn) t s k f h =
        idle-Balances t (open_conn uuid conn) s refl refl refl refl h
    perform-Balances (count uuid node a b) t s k f h = count-Balances uuid node a b t s k f h
    perform-Balances (end_conn uuid conn) t s k f h =
        idle-Balances t (end_conn uuid conn) s (books-remove_conn uuid conn s).0 refl refl refl h
    perform-Balances (refuse conn) t s k f h = idle-Balances t (refuse conn) s refl refl refl refl h

    -- Over any operations, also when users come, go and change in between: for every choice of emails
    -- and entry points, and in each direction, what the reports hold and what the counters hold then
    -- is what the counters held before and what was counted. Every count goes to a counter with an
    -- email, and all counts together fit an int64.
    pub perform_all_conserves :
        (ops : List (Op e)) (t : ℕ) (s : Server e)
        → All (IsTally t) s.user_traffic
        → AllAttributed ops s
        → t + all_bytes ops < 2 ^ 63
        → reported mine d (reports ops s) + pending mine d (perform_all ops s).user_traffic
          ≡ pending mine d s.user_traffic + shares ops s
    unfolding perform_all
    perform_all_conserves [] t s h k f = omega arith
    perform_all_conserves (op ∷ ops) t s h k f =
        let now = perform-Balances op t s k.0 (omega arith) h in
        rw (reported-append mine d (report_of op s)) (
          omega (
            arith,
            now.books,
            perform_all_conserves ops (t + volume_of op) (perform op s) now.tally k.1 (omega arith),
          ))

    share_bound : (op : Op e) (s : Server e) → share op s ≤ volume_of op
    share_bound (configure cfg) s = omega arith
    share_bound (set_users us) s = omega arith
    share_bound (set_usage us) s = omega arith
    share_bound collect s = omega arith
    share_bound (name_node id) s = omega arith
    share_bound (listen_on l) s = omega arith
    share_bound (open_conn uuid conn) s = omega arith
    share_bound (count uuid node a b) s = ground (arith, pick_bound d a b)
    share_bound (end_conn uuid conn) s = omega arith
    share_bound (refuse conn) s = omega arith

    pub shares_bound : (ops : List (Op e)) (s : Server e) → shares ops s ≤ all_bytes ops
    shares_bound [] s = omega arith
    shares_bound (op ∷ ops) s = omega (arith, share_bound op s, shares_bound ops (perform op s))

    pub perform_all-IsTally :
        (ops : List (Op e)) (t : ℕ) (s : Server e)
        → All (IsTally t) s.user_traffic
        → AllAttributed ops s
        → t + all_bytes ops < 2 ^ 63
        → All (IsTally (t + all_bytes ops)) (perform_all ops s).user_traffic
    unfolding perform_all
    perform_all-IsTally [] t s h k f = IsTally-more t s.user_traffic 0 h
    perform_all-IsTally (op ∷ ops) t s h k f = rw (← add_assoc t (volume_of op) (all_bytes ops)) (
        perform_all-IsTally ops (t + volume_of op) (perform op s)
          (perform-Balances op t s k.0 (omega arith) h).tally k.1 (omega arith))
