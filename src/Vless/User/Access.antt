-- ===== src/Vless/User/Access.antt =====
-- Who has access after UpdateUsers of user.go, and a connection that registers too late.
use mathlib.Core.Option
use mathlib.Core.List.{Mem}
use vgate_server.Base.{ℕ, ◌≡◌, refl, ap, ◌∙◌, List, [], ◌∷◌, none, some}
use vgate_server.Base.Text.{Bytes, bytes_key, nat_key}
use vgate_server.Base.Dict.{Dict, get, put, get-put_self}
use vgate_server.Model.{User}
use vgate_server.Vless.Server.{Externals, Server}
use vgate_server.Vless.Ratelimit.{limiter_or_none}
use vgate_server.Vless.Quota.Cut.{conns_of}
use vgate_server.Vless.User.{
  Filled, reuse_bucket, fill_users, drop_user, drop_users, update_users, add_conn,
}
use vgate_server.Vless.User.Update.{listed, Shows, fill_users-Shows}
use vgate_server.Vless.User.Revoke.{
  IsForgotten, users-drop_user, drop_users_gone, drop_users-IsKept, drop_users_absent,
}

module _ {e : Externals} where
  pub users-drop_users : (old : Dict Bytes User) (s : Server e) → (drop_users old s).users ≡ s.users
  unfolding drop_users
  users-drop_users [] s = refl
  users-drop_users ((k, u) ∷ old) s = users-drop_users old (drop_user k s) ∙ users-drop_user k s

module _ {e : Externals} (users : List User) (s : Server e) (uuid : Bytes) where
  unfoldable pub filled : Filled e
  filled = fill_users s users (record { users = []; u_limiters = []; d_limiters = [] })

  pub filled-Shows : Shows s uuid filled (listed uuid users none)
  unfolding filled get
  filled-Shows =
      fill_users-Shows s uuid users _ none
        (record { users = refl; u_limiters = refl; d_limiters = refl })

  -- The user set is that of the list: for each UUID its last valid entry.
  pub users-update_users : get (update_users users s).users uuid ≡ listed uuid users none
  unfolding update_users filled
  users-update_users = rw users-drop_users filled-Shows.users

  -- A user who is not listed any more is not a user, every connection of the user is closed, and
  -- nothing is kept: no connection set, quota state or limiter.
  pub update_users_revokes :
      (u : User)
      → get s.users uuid ≡ some u
      → listed uuid users none ≡ none
      → let t = update_users users s in
        (get t.users uuid ≡ none)
        × IsForgotten uuid t
        × ((conn : ℕ) → Mem conn (conns_of uuid s) → Mem conn t.closed)
  unfolding update_users filled
  update_users_revokes u old gone =
      let done = drop_users_gone uuid s.users _ u old (filled-Shows.users ∙ gone) in
      (users-update_users ∙ gone, done.0, done.1)

  -- A listed user keeps connections and quota state, and gets a bucket for each limit of the list:
  -- the old one if it has that rate, or else a new one.
  pub update_users_keeps :
      (u : User)
      → listed uuid users none ≡ some u
      → let t = update_users users s in
        (get t.user_conns uuid ≡ get s.user_conns uuid)
        × (get t.user_quota uuid ≡ get s.user_quota uuid)
        × (get t.user_u_limiters uuid
            ≡ some (
                reuse_bucket e (limiter_or_none (get s.user_u_limiters uuid)) u.speed_limit_up_bps))
        × (get t.user_d_limiters uuid
            ≡ some (
                reuse_bucket e
                  (limiter_or_none (get s.user_d_limiters uuid))
                  u.speed_limit_down_bps))
  unfolding update_users filled
  update_users_keeps u stays =
      let kept = drop_users-IsKept uuid s.users _ u (filled-Shows.users ∙ stays) in
      (
        kept.conns,
        kept.quota,
        kept.u_limiter ∙ filled-Shows.u_limiters ∙ ap (Option.map _) stays,
        kept.d_limiter ∙ filled-Shows.d_limiters ∙ ap (Option.map _) stays,
      )

  pub conns-update_users_absent :
      get s.users uuid ≡ none → get (update_users users s).user_conns uuid ≡ get s.user_conns uuid
  unfolding update_users
  conns-update_users_absent h = (drop_users_absent uuid s.users _ h).conns

module _ {e : Externals} (users : List User) (s : Server e) (uuid : Bytes) (conn : ℕ) where
  -- A connection that the handler registers after UpdateUsers has revoked its user stays registered
  -- through the next UpdateUsers, whatever its list, since that does not find the user in the old
  -- set.
  pub late_conn_survives :
      (u : User) (later : List User)
      → get s.users uuid ≡ some u
      → listed uuid users none ≡ none
      → let t = add_conn uuid conn (update_users users s) in
        (get t.users uuid ≡ none)
        × (get (update_users later t).user_conns uuid ≡ some ((conn, tt) ∷ []))
  unfolding add_conn
  late_conn_survives u later old gone =
      let revoked = update_users_revokes users s uuid u old gone in
      let t = add_conn uuid conn (update_users users s) in
      (
        revoked.0,
        conns-update_users_absent later t uuid revoked.0
            ∙ get-put_self (update_users users s).user_conns uuid _
            ∙ rw revoked.1.conns (unfold put in refl),
      )
