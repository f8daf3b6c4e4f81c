-- ===== src/Vless/System/Reactions.antt =====
-- What each operation of proxy/vless changes of what the server holds for one user.
use vgate_server.Base.{
  ℕ, ◌≡◌, refl, sym, ap, ◌∙◌, inl, inr, List, none, ite, if_pos, if_neg, arith, Option-cases,
  Bool-cases, ℕ_discrete, Bool, true, false,
}
use vgate_server.Base.Int.{pos}
use vgate_server.Base.Text.{Bytes, bytes_key, nat_key, Bytes-discrete}
use vgate_server.Base.Dict.{get, put, remove, get-put, get-remove, get-put_self, get-put_ne}
use vgate_server.Model.{User, UserUsage, Config}
use vgate_server.Vless.Server.{Externals, Server, ConnSet}
use vgate_server.Vless.Quota.{conns_or_none, apply_usage}
use vgate_server.Vless.Quota.Cut.{quota-add_traffic, quota-add_traffic_ne, conns-add_traffic}
use vgate_server.Vless.Quota.Snapshot.{Apart, quota-apply_usage, quota-apply_usage_stranger}
use vgate_server.Vless.Traffic.{add_traffic}
use vgate_server.Vless.Traffic.Conservation.{users-add_traffic}
use vgate_server.Vless.User.{update_users, add_conn}
use vgate_server.Vless.User.Update.{listed}
use vgate_server.Vless.User.Access.{
  users-update_users, update_users_revokes, update_users_keeps, conns-update_users_absent,
}
use vgate_server.Vless.Handler.{finish}
use vgate_server.Vless.Config.{update_vless, update_config, vless_equal}
use vgate_server.Vless.System.{set_users, set_usage, open_conn, count, end_conn}
use vgate_server.Vless.System.Valid.{IsValid}
use vgate_server.Vless.System.Users.{update_users-IsValid}
use vgate_server.Vless.System.Account.{account, has_conn, is_some, react, Account-path}
use vgate_server.Vless.System.Frames.{
  SameUsers, SameUsers-finish, conns-finish, conns-finish_ne, limiters-add_traffic,
}

is_some-put :
    (m : ConnSet) (k c : ℕ)
    → is_some (get (put m k tt) c) ≡ ite (ℕ_discrete k c) true (is_some (get m c))
is_some-put m k c = ground (arith, get-put m k c tt)

is_some-remove :
    (m : ConnSet) (k c : ℕ)
    → is_some (get (remove m k) c) ≡ ite (ℕ_discrete k c) false (is_some (get m c))
is_some-remove m k c = ground (arith, get-remove m k c)

-- If only connections differ, the user's own entries are the same.
same_account :
    {e : Externals} (uuid : Bytes) (s t : Server e)
    → SameUsers s t
    → {f : ℕ → Bool} → ((c : ℕ) → has_conn uuid t c ≡ f c)
    → account uuid t ≡ record (account uuid s) { is_open = f }
same_account uuid s t same =
    Account-path (ap (λ m. get m uuid) same.users) (ap (λ m. get m uuid) same.quota)
      (ap (λ m. get m uuid) same.up) (ap (λ m. get m uuid) same.down)

module _ {e : Externals} where
  pub users-update_config :
      (cfg : Config e.Settings) (s : Server e) → (update_config cfg s).0.users ≡ s.users
  unfolding update_config update_vless
  users-update_config cfg s = ground arith

module _ {e : Externals} (uuid : Bytes) (s : Server e) where
  pub account-update_config :
      (cfg : Config e.Settings) → account uuid (update_config cfg s).0 ≡ account uuid s
  unfolding update_config
  account-update_config cfg = elim (Bool-cases (vless_equal s.vless cfg.vless)) [
    | inl same ↦ rw (same, update_vless) refl
    | inr new ↦ rw (new, update_vless) refl
  ]

  pub account-add_conn :
      (id : Bytes) (conn : ℕ)
      → account uuid (add_conn id conn s) ≡ react uuid (open_conn id conn) (account uuid s)
  unfolding add_conn
  account-add_conn id conn = elim (Bytes-discrete id uuid) [
    | yes hit ↦ rw (if_pos (Bytes-discrete id uuid) hit) (
        Account-path refl refl refl refl
          λ c. rw (hit, get-put_self) (is_some-put (conns_or_none (get s.user_conns uuid)) conn c))
    | no miss ↦
        rw (if_neg (Bytes-discrete id uuid) miss)
          (Account-path refl refl refl refl λ c. rw (get-put_ne s.user_conns _ miss) refl)
  ]

  pub account-finish :
      (id : Bytes) (conn : ℕ)
      → account uuid (finish id conn s) ≡ react uuid (end_conn id conn) (account uuid s)
  account-finish id conn =
      let same = SameUsers-finish id conn s in
      elim (Bytes-discrete id uuid) [
        | yes hit ↦ rw (if_pos (Bytes-discrete id uuid) hit) (
            same_account uuid s _ same λ c.
              rw (hit, conns-finish)
                (is_some-remove (conns_or_none (get s.user_conns uuid)) conn c))
        | no miss ↦
            rw (if_neg (Bytes-discrete id uuid) miss)
              (same_account uuid s _ same λ c. rw (conns-finish_ne id uuid conn s miss) refl)
      ]

  pub account-add_traffic :
      (id node : Bytes) (up down : ℕ)
      → account uuid (add_traffic id node (pos up) (pos down) s)
        ≡ react uuid (count id node up down) (account uuid s)
  account-add_traffic id node up down =
      let users = ap (λ m. get m uuid) (users-add_traffic id node (pos up) (pos down) s) in
      let (ul, dl) = limiters-add_traffic id node (pos up) (pos down) s in
      let conns = λ (c : ℕ).
        ap (λ m. is_some (get (conns_or_none (get m uuid)) c))
          (conns-add_traffic id node (pos up) (pos down) s) in
      elim (Bytes-discrete id uuid) [
        | yes hit ↦ rw (if_pos (Bytes-discrete id uuid) hit) (
            Account-path users (rw hit (quota-add_traffic uuid node (pos up) (pos down) s))
              (ap (λ m. get m uuid) ul) (ap (λ m. get m uuid) dl) conns)
        | no miss ↦ rw (if_neg (Bytes-discrete id uuid) miss) (
            Account-path users (quota-add_traffic_ne id node (pos up) (pos down) s uuid miss)
              (ap (λ m. get m uuid) ul) (ap (λ m. get m uuid) dl) conns)
      ]

  pub account-apply_usage :
      (us : List UserUsage)
      → IsValid s
      → Apart s.users
      → account uuid (apply_usage us s) ≡ react uuid (set_usage us) (account uuid s)
  account-apply_usage us v apart =
      let quota : get (apply_usage us s).user_quota uuid
          ≡ (react uuid (set_usage us) (account uuid s)).quota =
        elim (Option-cases (get s.users uuid)) [
          | inl unknown ↦ rw unknown (quota-apply_usage_stranger us s uuid unknown)
          | inr (u, known) ↦
              rw known (quota-apply_usage us s uuid u v.users.users_distinct apart known)
        ] in
      unfold apply_usage in Account-path refl (unfold apply_usage in quota) refl refl (λ c. refl)

  pub account-update_users :
      (us : List User)
      → IsValid s
      → account uuid (update_users us s) ≡ react uuid (set_users us) (account uuid s)
  account-update_users us v = elim (Option-cases (listed uuid us none)) [
    | inr (u, stays) ↦
        let (conns, quota, up, down) = update_users_keeps us s uuid u stays in
        rw stays (
          Account-path (users-update_users us s uuid ∙ stays) quota up down
            λ c. ap (λ o. is_some (get (conns_or_none o) c)) conns)
    | inl gone ↦ elim (Option-cases (get s.users uuid)) [
      | inr (u, known) ↦
          let (user, forgotten, closed) = update_users_revokes us s uuid u known gone in
          rw (gone, known)
            (Account-path user forgotten.quota forgotten.u_limiter forgotten.d_limiter
              λ c. ap (λ o. is_some (get (conns_or_none o) c)) forgotten.conns ∙ unfold get in refl)
      | inl unknown ↦
          let user = users-update_users us s uuid ∙ gone in
          let old = v.users.strangers uuid unknown in
          let new = (update_users-IsValid us s v).users.strangers uuid user in
          rw (gone, unknown)
            (Account-path user (new.2 ∙ sym old.2) (new.0 ∙ sym old.0) (new.1 ∙ sym old.1) λ c.
              ap (λ o. is_some (get (conns_or_none o) c))
                (conns-update_users_absent us s uuid unknown))
    ]
  ]
