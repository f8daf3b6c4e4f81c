-- ===== src/Vless/Quota/Accrual.antt =====
-- What counting bytes does to a user's quota state and connections (accrueQuotaLocked, addTraffic).
use mathlib.Core.Option
use vgate_server.Base.{
  ◌≡◌, ◌≢◌, inl, inr, ◌++◌, some, true, not, ◌&&◌, ◌||◌, if◌then◌else◌, arith, Option-cases,
}
use vgate_server.Base.Int.{ℤ, pos, ltb_ℤ, leb_ℤ, add64, sub64}
use vgate_server.Base.Text.{Bytes, bytes_key}
use vgate_server.Base.Dict.{get, get-put_self, get-put_ne}
use vgate_server.Vless.Server.{Externals, Server, QuotaState}
use vgate_server.Vless.Quota.{
  members, conns_or_none, user_over_quota, accrue_found, accrue_quota_locked,
}

-- What one count does to the state, whoever asks: the sum grows, and the cut is set when nothing of
-- the quota is left.
unfoldable pub meter : ℤ → QuotaState → QuotaState
meter n qs =
    let total = add64 qs.accrual n in
    if ltb_ℤ qs.quota (pos 0) || leb_ℤ n (pos 0) then qs else record qs {
      accrual = total;
      cut = qs.cut || leb_ℤ (sub64 (sub64 qs.quota qs.base) total) (pos 0);
    }

module _ {e : Externals} where
  pub quota-accrue_found :
      (uuid : Bytes) (qs : QuotaState) (n : ℤ) (s : Server e)
      → get s.user_quota uuid ≡ some qs
      → get (accrue_found uuid qs n s).user_quota uuid ≡ some (meter n qs)
  unfolding accrue_found meter
  quota-accrue_found uuid qs n s h = ground (
    arith,
    get-put_self s.user_quota uuid (meter n qs),
    get-put_self s.user_quota uuid (record qs { accrual = add64 qs.accrual n }),
    get-put_self s.user_quota uuid (record qs { accrual = add64 qs.accrual n; cut = true }),
  )

  pub closed-accrue_found :
      (uuid : Bytes) (qs : QuotaState) (n : ℤ) (s : Server e)
      → (accrue_found uuid qs n s).closed ≡ (
          if (meter n qs).cut && not qs.cut
          then members (conns_or_none (get s.user_conns uuid)) ++ s.closed
          else s.closed)
  unfolding accrue_found meter
  closed-accrue_found uuid qs n s = ground arith

module _ {e : Externals} where
  pub quota-accrue_quota_locked :
      (uuid email : Bytes) (n : ℤ) (s : Server e)
      → get (accrue_quota_locked uuid email n s).user_quota uuid
        ≡ Option.map (meter n) (get s.user_quota uuid)
  unfolding accrue_quota_locked
  quota-accrue_quota_locked uuid email n s = elim (Option-cases (get s.user_quota uuid)) [
    | inl absent ↦ rw (absent, accrue_quota_locked) absent
    | inr (qs, found) ↦ rw (found, accrue_quota_locked) (quota-accrue_found uuid qs n s found)
  ]

  -- A connection is closed by accrual exactly where the cut is set.
  pub closed-accrue_quota_locked :
      (uuid email : Bytes) (n : ℤ) (s : Server e)
      → let t = accrue_quota_locked uuid email n s in
        t.closed ≡ (
          if user_over_quota uuid t && not (user_over_quota uuid s)
          then members (conns_or_none (get s.user_conns uuid)) ++ s.closed
          else s.closed)
  unfolding accrue_quota_locked user_over_quota
  closed-accrue_quota_locked uuid email n s = elim (Option-cases (get s.user_quota uuid)) [
    | inl absent ↦ rw (absent, accrue_quota_locked) (rw absent)
    | inr (qs, found) ↦
        rw (found, accrue_quota_locked)
          (rw (quota-accrue_found uuid qs n s found) (closed-accrue_found uuid qs n s))
  ]

  -- Another user's state is left alone.
  pub quota-accrue_quota_locked_ne :
      (uuid email other : Bytes) (n : ℤ) (s : Server e)
      → uuid ≢ other
      → get (accrue_quota_locked uuid email n s).user_quota other ≡ get s.user_quota other
  unfolding accrue_quota_locked accrue_found
  quota-accrue_quota_locked_ne uuid email other n s h = grind (arith, get-put_ne)

  pub conns-accrue_quota_locked :
      (uuid email : Bytes) (n : ℤ) (s : Server e)
      → (accrue_quota_locked uuid email n s).user_conns ≡ s.user_conns
  unfolding accrue_quota_locked accrue_found
  conns-accrue_quota_locked uuid email n s = ground arith

  pub users-accrue_quota_locked :
      (uuid email : Bytes) (n : ℤ) (s : Server e)
      → (accrue_quota_locked uuid email n s).users ≡ s.users
  unfolding accrue_quota_locked accrue_found
  users-accrue_quota_locked uuid email n s = ground arith

  pub traffic-accrue_quota_locked :
      (uuid email : Bytes) (n : ℤ) (s : Server e)
      → (accrue_quota_locked uuid email n s).user_traffic ≡ s.user_traffic
  unfolding accrue_quota_locked accrue_found
  traffic-accrue_quota_locked uuid email n s = ground arith
