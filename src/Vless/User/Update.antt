-- ===== src/Vless/User/Update.antt =====
-- The three maps that UpdateUsers of user.go builds.
use mathlib.Core.Option
use vgate_server.Base.{
  ◌≡◌, ◌∙◌, inl, inr, List, [], ◌∷◌, Option, none, some, Option-cases, ite, if_pos, if_neg,
}
use vgate_server.Base.Text.{Bytes, bytes_key, Bytes-discrete}
use vgate_server.Base.Dict.{get, get-put_self, get-put_ne}
use vgate_server.Model.{User}
use vgate_server.Vless.Server.{Externals, Server}
use vgate_server.Vless.Ratelimit.{limiter_or_none}
use vgate_server.Vless.Protocol.{parse_uuid}
use vgate_server.Vless.User.{Filled, reuse_bucket, fill_user, fill_users}

-- The last entry of a list whose ID is this UUID, or else the given one.
abbrev pub listed : Bytes → List User → Option User → Option User
listed uuid [] o = o
listed uuid (u ∷ us) o =
    listed uuid us
      (elim (parse_uuid u.id) [ none ↦ o | some k ↦ ite (Bytes-discrete k uuid) (some u) o ])

module _ {e : Externals} (s : Server e) (uuid : Bytes) where
  -- What a user entry puts at its UUID.
  pub record Shows (f : Filled e) (o : Option User) : Type 0 where
    pub users : get f.users uuid ≡ o
    pub u_limiters :
        get f.u_limiters uuid
        ≡ Option.map
            (λ u.
              reuse_bucket e (limiter_or_none (get s.user_u_limiters uuid)) u.speed_limit_up_bps)
            o
    pub d_limiters :
        get f.d_limiters uuid
        ≡ Option.map
            (λ u.
              reuse_bucket e (limiter_or_none (get s.user_d_limiters uuid)) u.speed_limit_down_bps)
            o

  fill_user-Shows :
      (u : User) (k : Bytes) (f : Filled e) (o : Option User)
      → Shows f o
      → Shows (fill_user s u k f) (ite (Bytes-discrete k uuid) (some u) o)
  unfolding fill_user
  fill_user-Shows u k f o h = elim (Bytes-discrete k uuid) [
    | yes hit ↦ rw (if_pos _ hit) (
        rw hit (record {
          users = get-put_self f.users uuid u;
          u_limiters = get-put_self f.u_limiters uuid _;
          d_limiters = get-put_self f.d_limiters uuid _;
        }))
    | no miss ↦ rw (if_neg _ miss) (record {
      users = get-put_ne f.users u miss ∙ h.users;
      u_limiters = get-put_ne f.u_limiters _ miss ∙ h.u_limiters;
      d_limiters = get-put_ne f.d_limiters _ miss ∙ h.d_limiters;
    })
  ]

  pub fill_users-Shows :
      (us : List User) (f : Filled e) (o : Option User)
      → Shows f o
      → Shows (fill_users s us f) (listed uuid us o)
  unfolding fill_users
  fill_users-Shows [] f o h = h
  fill_users-Shows (u ∷ us) f o h = elim (Option-cases (parse_uuid u.id)) [
    | inl bad ↦ rw bad (fill_users-Shows us f o h)
    | inr (k, good) ↦ rw good (fill_users-Shows us _ _ (fill_user-Shows u k f o h))
  ]
