-- ===== src/Vless/User/Revoke.antt =====
-- What UpdateUsers of user.go does to the connections and the quota states of users that are gone,
-- and of those that stay.
use mathlib.Core.List.{Mem, mem-append_left, mem-append_right}
use vgate_server.Base.{
  ℕ, ◌≡◌, ◌≢◌, refl, sym, ◌∙◌, inl, inr, [], ◌∷◌, none, some, arith, Option-cases, subst,
}
use vgate_server.Base.Text.{Bytes, bytes_key, Bytes-discrete, nat_key}
use vgate_server.Base.Dict.{Dict, get, get-remove_self, get-remove_ne}
use vgate_server.Model.{User}
use vgate_server.Vless.Server.{Externals, Server}
use vgate_server.Vless.Quota.{members, conns_or_none}
use vgate_server.Vless.Quota.Cut.{conns_of}
use vgate_server.Vless.User.{drop_user, drop_users}

-- Nothing that a server keeps about a user.
pub record IsForgotten {e : Externals} (uuid : Bytes) (s : Server e) : Type 0 where
  pub conns : get s.user_conns uuid ≡ none
  pub quota : get s.user_quota uuid ≡ none
  pub u_limiter : get s.user_u_limiters uuid ≡ none
  pub d_limiter : get s.user_d_limiters uuid ≡ none

-- Two servers keep the same about a user.
pub record IsKept {e : Externals} (uuid : Bytes) (s t : Server e) : Type 0 where
  pub user : get t.users uuid ≡ get s.users uuid
  pub conns : get t.user_conns uuid ≡ get s.user_conns uuid
  pub quota : get t.user_quota uuid ≡ get s.user_quota uuid
  pub u_limiter : get t.user_u_limiters uuid ≡ get s.user_u_limiters uuid
  pub d_limiter : get t.user_d_limiters uuid ≡ get s.user_d_limiters uuid

module _ {e : Externals} where
  pub users-drop_user : (k : Bytes) (s : Server e) → (drop_user k s).users ≡ s.users
  unfolding drop_user
  users-drop_user k s = ground arith

module _ {e : Externals} (uuid : Bytes) where
  -- A round for another user, or for one who stays, changes nothing here.
  pub drop_user-IsKept : (k : Bytes) (s : Server e) → k ≢ uuid → IsKept uuid s (drop_user k s)
  unfolding drop_user
  drop_user-IsKept k s h = ground (
    arith,
    get-remove_ne s.user_conns h,
    get-remove_ne s.user_quota h,
    get-remove_ne s.user_u_limiters h,
    get-remove_ne s.user_d_limiters h,
  )

  drop_user_stays :
      (k : Bytes) (s : Server e) (u : User) → get s.users k ≡ some u → drop_user k s ≡ s
  unfolding drop_user
  drop_user_stays k s u h = ground arith

  drop_user-IsForgotten :
      (s : Server e) → get s.users uuid ≡ none → IsForgotten uuid (drop_user uuid s)
  unfolding drop_user
  drop_user-IsForgotten s h = ground (
    arith,
    get-remove_self s.user_conns uuid,
    get-remove_self s.user_quota uuid,
    get-remove_self s.user_u_limiters uuid,
    get-remove_self s.user_d_limiters uuid,
  )

  drop_user_closes :
      (k : Bytes) (s : Server e) (conn : ℕ) → Mem conn s.closed → Mem conn (drop_user k s).closed
  unfolding drop_user
  drop_user_closes k s conn h = elim (Option-cases (get s.users k)) [
    | inl gone ↦ rw (gone, drop_user) (mem-append_right _ h)
    | inr (_, stays) ↦ rw (stays, drop_user) h
  ]

  drop_user_closes_self :
      (s : Server e) (conn : ℕ)
      → get s.users uuid ≡ none
      → Mem conn (conns_of uuid s)
      → Mem conn (drop_user uuid s).closed
  unfolding drop_user
  drop_user_closes_self s conn h m = rw (h, drop_user) (mem-append_left s.closed m)

  IsKept-trans : {s t r : Server e} → IsKept uuid s t → IsKept uuid t r → IsKept uuid s r
  IsKept-trans p q = record {
    user = q.user ∙ p.user;
    conns = q.conns ∙ p.conns;
    quota = q.quota ∙ p.quota;
    u_limiter = q.u_limiter ∙ p.u_limiter;
    d_limiter = q.d_limiter ∙ p.d_limiter;
  }

  IsKept-refl : (s : Server e) → IsKept uuid s s
  IsKept-refl s = record {
    user = refl;
    conns = refl;
    quota = refl;
    u_limiter = refl;
    d_limiter = refl;
  }

  -- The loop leaves a user alone who stays.
  pub drop_users-IsKept :
      (old : Dict Bytes User) (s : Server e) (u : User)
      → get s.users uuid ≡ some u
      → IsKept uuid s (drop_users old s)
  unfolding drop_users
  drop_users-IsKept [] s u h = IsKept-refl s
  drop_users-IsKept ((k, v) ∷ old) s u h = elim (Bytes-discrete k uuid) [
    | yes hit ↦ rw (drop_user_stays k s u (rw hit h)) (drop_users-IsKept old s u h)
    | no miss ↦
        let kept = drop_user-IsKept k s miss in
        IsKept-trans kept (drop_users-IsKept old (drop_user k s) u (kept.user ∙ h))
  ]

  -- And one who is in neither set.
  pub drop_users_absent :
      (old : Dict Bytes User) (s : Server e)
      → get old uuid ≡ none
      → IsKept uuid s (drop_users old s)
  unfolding drop_users get
  drop_users_absent [] s h = IsKept-refl s
  drop_users_absent ((k, v) ∷ old) s h = elim (Bytes-discrete k uuid) [
    | yes hit ↦ absurd (ground arith)
    | no miss ↦
        IsKept-trans (drop_user-IsKept k s miss)
          (drop_users_absent old (drop_user k s) (ground arith))
  ]

  IsForgotten-kept : {s t : Server e} → IsKept uuid s t → IsForgotten uuid s → IsForgotten uuid t
  IsForgotten-kept k f = record {
    conns = k.conns ∙ f.conns;
    quota = k.quota ∙ f.quota;
    u_limiter = k.u_limiter ∙ f.u_limiter;
    d_limiter = k.d_limiter ∙ f.d_limiter;
  }

  drop_users-IsForgotten :
      (old : Dict Bytes User) (s : Server e)
      → get s.users uuid ≡ none
      → IsForgotten uuid s
      → IsForgotten uuid (drop_users old s)
  unfolding drop_users
  drop_users-IsForgotten [] s h f = f
  drop_users-IsForgotten ((k, v) ∷ old) s h f = elim (Bytes-discrete k uuid) [
    | yes hit ↦ rw hit (
        drop_users-IsForgotten old (drop_user uuid s) (rw users-drop_user h)
          (drop_user-IsForgotten s h))
    | no miss ↦
        drop_users-IsForgotten old (drop_user k s) (rw users-drop_user h)
          (IsForgotten-kept (drop_user-IsKept k s miss) f)
  ]

  pub drop_users_closes :
      (old : Dict Bytes User) (s : Server e) (conn : ℕ)
      → Mem conn s.closed
      → Mem conn (drop_users old s).closed
  unfolding drop_users
  drop_users_closes [] s conn h = h
  drop_users_closes ((k, v) ∷ old) s conn h =
      drop_users_closes old (drop_user k s) conn (drop_user_closes k s conn h)

  -- The loop forgets a user of the old set who is not in the new one, and closes every connection.
  pub drop_users_gone :
      (old : Dict Bytes User) (s : Server e) (u : User)
      → get old uuid ≡ some u
      → get s.users uuid ≡ none
      → IsForgotten uuid (drop_users old s)
        × ((conn : ℕ) → Mem conn (conns_of uuid s) → Mem conn (drop_users old s).closed)
  unfolding drop_users get
  drop_users_gone [] s u h g = cc
  drop_users_gone ((k, v) ∷ old) s u h g = elim (Bytes-discrete k uuid) [
    | yes hit ↦ rw hit (
      drop_users-IsForgotten old (drop_user uuid s) (rw users-drop_user g)
          (drop_user-IsForgotten s g),
      λ conn m. drop_users_closes old (drop_user uuid s) conn (drop_user_closes_self s conn g m),
    )
    | no miss ↦
        let kept = drop_user-IsKept k s miss in
        let rest = drop_users_gone old (drop_user k s) u (ground arith) (rw users-drop_user g) in
        (
          rest.0,
          λ conn m.
              rest.1 conn (subst (λ o. Mem conn (members (conns_or_none o))) (sym kept.conns) m),
        )
  ]
