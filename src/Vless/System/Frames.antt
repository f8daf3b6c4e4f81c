-- ===== src/Vless/System/Frames.antt =====
-- What the operations of a connection change of another user's entries, and of the other maps.
use vgate_server.Base.{ℕ, ◌≡◌, ◌≢◌, refl, inl, inr, [], ◌∷◌, arith, Option-cases, Bool-cases}
use vgate_server.Base.Int.{ℤ, pos, ltb_ℤ, add64}
use vgate_server.Base.Text.{Bytes, bytes_key, nat_key}
use vgate_server.Base.Dict.{get, remove, get-put_self, get-put_ne, get-remove_self, get-remove_ne}
use vgate_server.Vless.Server.{Externals, Server, ConnSet}
use vgate_server.Vless.Quota.{conns_or_none, accrue_found, accrue_quota_locked}
use vgate_server.Vless.Traffic.{add_traffic}
use vgate_server.Vless.Handler.{finish}
use vgate_server.Vless.User.{remove_conn, remove_found}

module _ {e : Externals} where
  limiters-accrue_quota_locked :
      (uuid email : Bytes) (n : ℤ) (s : Server e)
      → let t = accrue_quota_locked uuid email n s in
        (t.user_u_limiters ≡ s.user_u_limiters) × (t.user_d_limiters ≡ s.user_d_limiters)
  unfolding accrue_quota_locked accrue_found
  limiters-accrue_quota_locked uuid email n s = ground arith

  pub limiters-add_traffic :
      (uuid node : Bytes) (up down : ℤ) (s : Server e)
      → let t = add_traffic uuid node up down s in
        (t.user_u_limiters ≡ s.user_u_limiters) × (t.user_d_limiters ≡ s.user_d_limiters)
  unfolding add_traffic
  limiters-add_traffic uuid node up down s = elim (Bool-cases (ltb_ℤ (pos 0) (add64 up down))) [
    | inl more ↦ rw more (limiters-accrue_quota_locked uuid _ (add64 up down) _)
    | inr idle ↦ rw idle (refl, refl)
  ]

  -- Two servers that differ in connections alone.
  pub record SameUsers (s t : Server e) : Type 0 where
    pub users : t.users ≡ s.users
    pub quota : t.user_quota ≡ s.user_quota
    pub up : t.user_u_limiters ≡ s.user_u_limiters
    pub down : t.user_d_limiters ≡ s.user_d_limiters

  SameUsers-remove_found :
      (uuid : Bytes) (set : ConnSet) (s : Server e) → SameUsers s (remove_found uuid set s)
  unfolding remove_found
  SameUsers-remove_found uuid [] s = record { users = refl; quota = refl; up = refl; down = refl }
  SameUsers-remove_found uuid (c ∷ cs) s = record {
    users = refl;
    quota = refl;
    up = refl;
    down = refl;
  }

  pub SameUsers-finish : (uuid : Bytes) (conn : ℕ) (s : Server e) → SameUsers s (finish uuid conn s)
  unfolding finish remove_conn
  SameUsers-finish uuid conn s = elim (Option-cases (get s.user_conns uuid)) [
    | inl absent ↦
        rw (absent, remove_conn) (record { users = refl; quota = refl; up = refl; down = refl })
    | inr (set, found) ↦
        rw (found, remove_conn)
          (let same = SameUsers-remove_found uuid (remove set conn) s in
            record { users = same.users; quota = same.quota; up = same.up; down = same.down })
  ]

  conns-remove_found :
      (uuid : Bytes) (set : ConnSet) (s : Server e)
      → conns_or_none (get (remove_found uuid set s).user_conns uuid) ≡ set
  unfolding remove_found
  conns-remove_found uuid [] s = rw get-remove_self
  conns-remove_found uuid (c ∷ cs) s = rw get-put_self

  conns-remove_found_ne :
      (uuid other : Bytes) (set : ConnSet) (s : Server e)
      → uuid ≢ other
      → get (remove_found uuid set s).user_conns other ≡ get s.user_conns other
  unfolding remove_found
  conns-remove_found_ne uuid other [] s h = get-remove_ne s.user_conns h
  conns-remove_found_ne uuid other (c ∷ cs) s h = get-put_ne s.user_conns (c ∷ cs) h

  pub conns-finish :
      (uuid : Bytes) (conn : ℕ) (s : Server e)
      → conns_or_none (get (finish uuid conn s).user_conns uuid)
        ≡ remove (conns_or_none (get s.user_conns uuid)) conn
  unfolding finish remove_conn
  conns-finish uuid conn s = elim (Option-cases (get s.user_conns uuid)) [
    | inl absent ↦ rw (absent, remove_conn) (rw absent (unfold remove in refl))
    | inr (set, found) ↦ rw (found, remove_conn) (conns-remove_found uuid (remove set conn) s)
  ]

  pub conns-finish_ne :
      (uuid other : Bytes) (conn : ℕ) (s : Server e)
      → uuid ≢ other
      → get (finish uuid conn s).user_conns other ≡ get s.user_conns other
  unfolding finish remove_conn
  conns-finish_ne uuid other conn s h = elim (Option-cases (get s.user_conns uuid)) [
    | inl absent ↦ rw (absent, remove_conn) refl
    | inr (set, found) ↦
        rw (found, remove_conn) (conns-remove_found_ne uuid other (remove set conn) s h)
  ]
