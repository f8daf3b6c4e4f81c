-- ===== src/Vless/Quota.antt =====
-- proxy/vless/quota.go: quota snapshots, the local cut, and the handshake gate.
pub mod Accrual
pub mod Cut
pub mod Snapshot
pub mod Limits
use vgate_server.Base.{
  ℕ, List, [], ◌∷◌, ◌++◌, map, Option, none, some, Bool, true, false, ◌||◌, ◌&&◌, if◌then◌else◌,
}
use vgate_server.Base.Int.{ℤ, pos, add64, sub64, ltb_ℤ, leb_ℤ}
use vgate_server.Base.Text.{Bytes, bytes_key}
use vgate_server.Base.Dict.{Dict, get, put}
use vgate_server.Model.{User, UserUsage}
use vgate_server.Vless.Server.{Externals, Server, QuotaState, ConnSet}

-- `for conn := range conns`
abbrev pub members : ConnSet → List ℕ
members = map λ c. c.0

abbrev pub conns_or_none : Option ConnSet → ConnSet
conns_or_none none = []
conns_or_none (some conns) = conns

-- The inverse of the user map. A later entry replaces an earlier one with the same email.
unfoldable pub email_uuids : Dict Bytes User → Dict Bytes Bytes → Dict Bytes Bytes
email_uuids [] m = m
email_uuids ((uuid, u) ∷ us) m = email_uuids us (put m u.email uuid)

-- The state for one entry of the payload.
unfoldable pub snapshot : UserUsage → QuotaState
snapshot u = record {
  quota = u.quota_bytes;
  base = u.used_bytes;
  accrual = pos 0;
  cut = leb_ℤ (pos 0) u.quota_bytes && leb_ℤ (sub64 u.quota_bytes u.used_bytes) (pos 0);
}

-- The round for one entry; an email that no user has is skipped.
unfoldable pub apply_entry :
    Dict Bytes Bytes → UserUsage → Dict Bytes QuotaState → Dict Bytes QuotaState
apply_entry uuids u m = elim (get uuids u.email) [ none ↦ m | some uuid ↦ put m uuid (snapshot u) ]

-- The loop over the payload.
unfoldable pub new_quota :
    Dict Bytes Bytes → List UserUsage → Dict Bytes QuotaState → Dict Bytes QuotaState
new_quota uuids [] m = m
new_quota uuids (u ∷ us) m = new_quota uuids us (apply_entry uuids u m)

abbrev pub is_cut : Option QuotaState → Bool
is_cut none = false
is_cut (some qs) = qs.cut

module _ {e : Externals} where
  -- ApplyUsage
  unfoldable pub apply_usage : List UserUsage → Server e → Server e
  unfolding email_uuids new_quota apply_entry snapshot
  apply_usage usage s = record s { user_quota = new_quota (email_uuids s.users []) usage [] }

  -- userOverQuotaLocked and userOverQuota
  unfoldable pub user_over_quota : Bytes → Server e → Bool
  user_over_quota uuid s = is_cut (get s.user_quota uuid)

  -- What accrueQuotaLocked does with the state that it found.
  unfoldable pub accrue_found : Bytes → QuotaState → ℤ → Server e → Server e
  accrue_found uuid qs n s =
      let total = add64 qs.accrual n in
      let remaining = sub64 (sub64 qs.quota qs.base) total in
      if ltb_ℤ qs.quota (pos 0) || leb_ℤ n (pos 0)
      then s
      else if ltb_ℤ (pos 0) remaining || qs.cut
      then record s { user_quota = put s.user_quota uuid (record qs { accrual = total }) }
      else record s {
        user_quota = put s.user_quota uuid (record qs { accrual = total; cut = true });
        closed = members (conns_or_none (get s.user_conns uuid)) ++ s.closed;
      }

  -- accrueQuotaLocked; the email is for its log line only
  unfoldable pub accrue_quota_locked : Bytes → Bytes → ℤ → Server e → Server e
  unfolding accrue_found
  accrue_quota_locked uuid email n s = elim (get s.user_quota uuid) [
    | none ↦ s
    | some qs ↦ accrue_found uuid qs n s
  ]
