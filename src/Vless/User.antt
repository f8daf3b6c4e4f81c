-- ===== src/Vless/User.antt =====
-- proxy/vless/user.go: the user set, and the connections of each user.
pub mod Update
pub mod Revoke
pub mod Access
use vgate_server.Base.{ℕ, List, [], ◌∷◌, ◌++◌, Option, none, some, Bool, if◌then◌else◌}
use vgate_server.Base.Int.{ℤ, eqb_ℤ}
use vgate_server.Base.Text.{Bytes, bytes_key, nat_key}
use vgate_server.Base.Dict.{Dict, get, put, remove}
use vgate_server.Model.{User}
use vgate_server.Vless.Server.{Externals, Server, RateBucket, ConnSet}
use vgate_server.Vless.Ratelimit.{new_rate_bucket, limiter_or_none}
use vgate_server.Vless.Quota.{members, conns_or_none}
use vgate_server.Vless.Protocol.{parse_uuid}

-- The three maps that the loop of UpdateUsers fills.
pub record Filled (e : Externals) : Type 0 where
  pub users : Dict Bytes User
  pub u_limiters : Dict Bytes (Option (RateBucket e.Limiter))
  pub d_limiters : Dict Bytes (Option (RateBucket e.Limiter))

-- The old bucket if there is one of this rate, or else a new one.
unfoldable pub reuse_bucket :
    (e : Externals) → Option (RateBucket e.Limiter) → ℤ → Option (RateBucket e.Limiter)
unfolding new_rate_bucket
reuse_bucket e none rate = new_rate_bucket e rate
reuse_bucket e (some b) rate = if eqb_ℤ b.rate rate then some b else new_rate_bucket e rate

module _ {e : Externals} where
  -- The round for a user with a valid UUID.
  unfoldable pub fill_user : Server e → User → Bytes → Filled e → Filled e
  unfolding reuse_bucket
  fill_user s u uuid f = record {
    users = put f.users uuid u;
    u_limiters =
        put f.u_limiters uuid
          (reuse_bucket e (limiter_or_none (get s.user_u_limiters uuid)) u.speed_limit_up_bps);
    d_limiters =
        put f.d_limiters uuid
          (reuse_bucket e (limiter_or_none (get s.user_d_limiters uuid)) u.speed_limit_down_bps);
  }

  unfoldable pub fill_users : Server e → List User → Filled e → Filled e
  unfolding fill_user
  fill_users s [] f = f
  fill_users s (u ∷ us) f =
      fill_users s us (elim (parse_uuid u.id) [ none ↦ f | some uuid ↦ fill_user s u uuid f ])

  -- The round for one user of the old set: without a place in the new one, its connections are
  -- closed and its entries deleted.
  unfoldable pub drop_user : Bytes → Server e → Server e
  drop_user uuid s = elim (get s.users uuid) [
    | some _ ↦ s
    | none ↦ record s {
      closed = members (conns_or_none (get s.user_conns uuid)) ++ s.closed;
      user_conns = remove s.user_conns uuid;
      user_u_limiters = remove s.user_u_limiters uuid;
      user_d_limiters = remove s.user_d_limiters uuid;
      user_quota = remove s.user_quota uuid;
    }
  ]

  unfoldable pub drop_users : Dict Bytes User → Server e → Server e
  unfolding drop_user
  drop_users [] s = s
  drop_users ((uuid, u) ∷ old) s = drop_users old (drop_user uuid s)

  -- UpdateUsers
  unfoldable pub update_users : List User → Server e → Server e
  unfolding fill_users drop_users
  update_users users s =
      let f = fill_users s users (record { users = []; u_limiters = []; d_limiters = [] }) in
      drop_users s.users (record s {
        users = f.users;
        user_u_limiters = f.u_limiters;
        user_d_limiters = f.d_limiters;
      })

  unfoldable pub add_conn : Bytes → ℕ → Server e → Server e
  add_conn uuid conn s = record s {
    user_conns = put s.user_conns uuid (put (conns_or_none (get s.user_conns uuid)) conn tt);
  }

  -- removeConn: the last connection takes the user's entry with it
  unfoldable pub remove_found : Bytes → ConnSet → Server e → Server e
  remove_found uuid conns s = elim conns [
    | [] ↦ record s { user_conns = remove s.user_conns uuid }
    | c ∷ cs ↦ record s { user_conns = put s.user_conns uuid (c ∷ cs) }
  ]

  unfoldable pub remove_conn : Bytes → ℕ → Server e → Server e
  unfolding remove_found
  remove_conn uuid conn s = elim (get s.user_conns uuid) [
    | none ↦ s
    | some conns ↦ remove_found uuid (remove conns conn) s
  ]
