-- ===== src/Vless/System/Account.antt =====
-- The server as one user sees it: the user's own entries in the maps, and what each operation does
-- to them, said without the maps and without the other users.
use mathlib.Core.Option
use vgate_server.Base.{
  ℕ, ◌≡◌, List, [], ◌∷◌, Option, none, some, Bool, true, false, ite, ◌>>=◌, ℕ_discrete,
}
use vgate_server.Base.Int.{pos, add64}
use vgate_server.Base.Text.{Bytes, bytes_key, nat_key, Bytes-discrete}
use vgate_server.Base.Dict.{get}
use vgate_server.Model.{User}
use vgate_server.Vless.Server.{Externals, Server, QuotaState, RateBucket}
use vgate_server.Vless.Quota.{conns_or_none, snapshot}
use vgate_server.Vless.Quota.Accrual.{meter}
use vgate_server.Vless.Quota.Snapshot.{latest}
use vgate_server.Vless.Ratelimit.{limiter_or_none}
use vgate_server.Vless.User.{reuse_bucket}
use vgate_server.Vless.User.Update.{listed}
use vgate_server.Vless.System.{
  Op, configure, set_users, set_usage, collect, name_node, listen_on, open_conn, count, end_conn,
  refuse,
}

pub record Account (e : Externals) : Type 0 where
  pub user : Option User
  pub quota : Option QuotaState
  pub up : Option (Option (RateBucket e.Limiter))
  pub down : Option (Option (RateBucket e.Limiter))
  pub is_open : ℕ → Bool

-- The order of the connections and an entry without any are forgotten.
abbrev pub is_some : {A : Type 0} → Option A → Bool
is_some none = false
is_some (some a) = true

module _ {e : Externals} where
  abbrev pub has_conn : Bytes → Server e → ℕ → Bool
  has_conn uuid s c = is_some (get (conns_or_none (get s.user_conns uuid)) c)

  abbrev pub account : Bytes → Server e → Account e
  account uuid s = record {
    user = get s.users uuid;
    quota = get s.user_quota uuid;
    up = get s.user_u_limiters uuid;
    down = get s.user_d_limiters uuid;
    is_open = has_conn uuid s;
  }

  -- A user who is not listed loses everything; who was no user keeps a late connection.
  abbrev pub revoke : Option User → Account e → Account e
  revoke none a = a
  revoke (some u) a = record {
    user = none;
    quota = none;
    up = none;
    down = none;
    is_open = λ c. false;
  }

  abbrev pub grant : Option User → Account e → Account e
  grant none a = revoke a.user a
  grant (some u) a = record a {
    user = some u;
    up = some (reuse_bucket e (limiter_or_none a.up) u.speed_limit_up_bps);
    down = some (reuse_bucket e (limiter_or_none a.down) u.speed_limit_down_bps);
  }

  abbrev pub react : Bytes → Op e → Account e → Account e
  react uuid (configure cfg) a = a
  react uuid (set_users us) a = grant (listed uuid us none) a
  react uuid (set_usage us) a = record a {
    quota = Option.map snapshot (a.user >>= λ u. latest u.email us none);
  }
  react uuid collect a = a
  react uuid (name_node id) a = a
  react uuid (listen_on l) a = a
  react uuid (open_conn id conn) a =
      ite (Bytes-discrete id uuid)
        (record a { is_open = λ c. ite (ℕ_discrete conn c) true (a.is_open c) }) a
  react uuid (count id node up down) a =
      ite (Bytes-discrete id uuid)
        (record a { quota = Option.map (meter (add64 (pos up) (pos down))) a.quota }) a
  react uuid (end_conn id conn) a =
      ite (Bytes-discrete id uuid)
        (record a { is_open = λ c. ite (ℕ_discrete conn c) false (a.is_open c) }) a
  react uuid (refuse conn) a = a

  abbrev pub react_all : Bytes → List (Op e) → Account e → Account e
  react_all uuid [] a = a
  react_all uuid (op ∷ ops) a = react_all uuid ops (react uuid op a)

  pub Account-path :
      {a b : Account e}
      → a.user ≡ b.user
      → a.quota ≡ b.quota
      → a.up ≡ b.up
      → a.down ≡ b.down
      → ((c : ℕ) → a.is_open c ≡ b.is_open c)
      → a ≡ b
  Account-path user quota up down conns = λ i. record {
    user = user i;
    quota = quota i;
    up = up i;
    down = down i;
    is_open = λ c. conns c i;
  }
