-- ===== src/Vless/Quota/Limits.antt =====
-- The promise of quota.go: a user is cut exactly when the bytes counted since the snapshot use up
-- what the manager left, and then the user's connections are closed.
use mathlib.Core.Option
use native.Mathlib.Nat.{add-zero, zero-add, add_assoc}
use vgate_server.Base.{
  ℕ, ◌+◌, ◌^◌, ◌<◌, ◌≡◌, refl, ap, ◌∙◌, List, [], ◌∷◌, Option, none, some, true, leb, arith,
}
use vgate_server.Base.Int.{
  ℤ, pos, leb_ℤ, add64, sub64, add64_pos, sub64_exact, -ℤ_parts, ◌-ℤ◌, IsInt64,
}
use vgate_server.Base.Text.{Bytes, bytes_key}
use vgate_server.Base.Dict.{get, Distinct}
use vgate_server.Model.{User, UserUsage}
use vgate_server.Vless.Server.{Externals, Server, QuotaState}
use vgate_server.Vless.Quota.{is_cut, user_over_quota, apply_usage, snapshot}
use vgate_server.Vless.Quota.Accrual.{meter}
use vgate_server.Vless.Quota.Cut.{
  Chunk, total, quota-add_traffic, closed-add_traffic, conns-add_traffic,
}
use vgate_server.Vless.Quota.Snapshot.{Apart, latest, quota-apply_usage}
use vgate_server.Vless.Traffic.{add_traffic}

-- What is left of the quota, as the code computes it.
remaining :
    (cap used n : ℕ)
    → cap < 2 ^ 63
    → used + n < 2 ^ 63
    → leb_ℤ (sub64 (sub64 (pos cap) (pos used)) (pos n)) (pos 0) ≡ leb cap (used + n)
remaining cap used n h k =
    let first : IsInt64 (pos cap -ℤ pos used) = unfold ◌-ℤ◌ in ground arith in
    let second : IsInt64 (pos cap -ℤ pos used -ℤ pos n) = unfold ◌-ℤ◌ in ground arith in
    rw (sub64_exact (pos cap) (pos used) first, sub64_exact (pos cap -ℤ pos used) (pos n) second)
      (ground (arith, -ℤ_parts (pos cap) (pos used), -ℤ_parts (pos cap -ℤ pos used) (pos n)))

-- The state of a user with this quota, manager-side use and local count.
abbrev pub metered : ℕ → ℕ → ℕ → QuotaState
metered cap used n = record {
  quota = pos cap;
  base = pos used;
  accrual = pos n;
  cut = leb cap (used + n);
}

pub meter-metered :
    (cap used a n : ℕ)
    → cap < 2 ^ 63
    → used + a + n < 2 ^ 63
    → meter (pos n) (metered cap used a) ≡ metered cap used (a + n)
unfolding meter
meter-metered cap used a n h k =
    rw (add64_pos a n (omega arith)) (ground (arith, remaining cap used (a + n)))

pub snapshot-metered :
    (u : UserUsage) (cap used : ℕ)
    → u.quota_bytes ≡ pos cap
    → u.used_bytes ≡ pos used
    → cap < 2 ^ 63
    → used < 2 ^ 63
    → snapshot u ≡ metered cap used 0
unfolding snapshot
snapshot-metered u cap used p q h k =
    let exact : IsInt64 (pos cap -ℤ pos used) = unfold ◌-ℤ◌ in ground arith in
    rw (p, q, sub64_exact (pos cap) (pos used) exact)
      (ground (arith, -ℤ_parts (pos cap) (pos used)))

-- The chunks of one user, in order.
unfoldable pub count_all : {e : Externals} → Bytes → List Chunk → Server e → Server e
count_all uuid [] s = s
count_all uuid (c ∷ cs) s = count_all uuid cs (add_traffic uuid c.node (pos c.up) (pos c.down) s)

module _ {e : Externals} (uuid : Bytes) (cap used : ℕ) where
  quota-count_all :
      (cs : List Chunk) (a : ℕ) (s : Server e)
      → cap < 2 ^ 63
      → used + a + total cs < 2 ^ 63
      → get s.user_quota uuid ≡ some (metered cap used a)
      → get (count_all uuid cs s).user_quota uuid ≡ some (metered cap used (a + total cs))
  unfolding count_all
  quota-count_all [] a s h k p = rw add-zero p
  quota-count_all (c ∷ cs) a s h k p = rw (← add_assoc a (c.up + c.down) (total cs)) (
      quota-count_all cs (a + (c.up + c.down)) _ h (omega arith) (
        quota-add_traffic uuid c.node (pos c.up) (pos c.down) s
        ∙ rw (p, add64_pos c.up c.down (omega arith))
            (ap some (meter-metered cap used a (c.up + c.down) h (omega arith)))))

  -- A user with a quota of `cap` bytes, of which the manager counted `used` at the snapshot, is over
  -- quota after any chunks on any entry points exactly when the two sums reach `cap`. The email must
  -- be the user's alone, and the sums must fit an int64.
  user_over_quota-count_all :
      (cs : List Chunk) (usage : List UserUsage) (s : Server e) (u : User) (x : UserUsage)
      → Distinct s.users
      → Apart s.users
      → get s.users uuid ≡ some u
      → latest u.email usage none ≡ some x
      → x.quota_bytes ≡ pos cap
      → x.used_bytes ≡ pos used
      → cap < 2 ^ 63
      → used + total cs < 2 ^ 63
      → user_over_quota uuid (count_all uuid cs (apply_usage usage s)) ≡ leb cap (used + total cs)
  unfolding user_over_quota
  user_over_quota-count_all cs usage s u x d a known found p q h k =
      ap is_cut (
        quota-count_all cs 0 (apply_usage usage s) h (ground arith) (
          quota-apply_usage usage s uuid u d a known
          ∙ ap (Option.map snapshot) found
          ∙ ap some (snapshot-metered x cap used p q h (omega arith))))
      ∙ rw zero-add

is_cut-meter :
    (n : ℤ) (o : Option QuotaState) → is_cut o ≡ true → is_cut (Option.map (meter n) o) ≡ true
unfolding meter
is_cut-meter n none h = h
is_cut-meter n (some qs) h = ground arith

module _ {e : Externals} (uuid : Bytes) where
  over-add_traffic :
      (node : Bytes) (up down : ℤ) (s : Server e)
      → user_over_quota uuid s ≡ true
      → user_over_quota uuid (add_traffic uuid node up down s) ≡ true
  unfolding user_over_quota
  over-add_traffic node up down s h =
      rw (quota-add_traffic uuid node up down s)
        (is_cut-meter (add64 up down) (get s.user_quota uuid) h)

  closed_of_over :
      (node : Bytes) (up down : ℤ) (s : Server e)
      → user_over_quota uuid s ≡ true
      → (add_traffic uuid node up down s).closed ≡ s.closed
  closed_of_over node up down s h =
      ground (arith, closed-add_traffic uuid node up down s, over-add_traffic node up down s)

  -- A user over quota stays so whatever else is counted, and no count closes a connection of hers.
  pub closed-count_all :
      (cs : List Chunk) (s : Server e)
      → user_over_quota uuid s ≡ true
      → ((count_all uuid cs s).closed ≡ s.closed)
        × ((count_all uuid cs s).user_conns ≡ s.user_conns)
        × (user_over_quota uuid (count_all uuid cs s) ≡ true)
  unfolding count_all
  closed-count_all [] s h = (refl, refl, h)
  closed-count_all (c ∷ cs) s h =
      let s' = add_traffic uuid c.node (pos c.up) (pos c.down) s in
      let (closed, conns, over) =
        closed-count_all cs s' (over-add_traffic c.node (pos c.up) (pos c.down) s h) in
      (
        closed ∙ closed_of_over c.node (pos c.up) (pos c.down) s h,
        conns ∙ conns-add_traffic uuid c.node (pos c.up) (pos c.down) s,
        over,
      )

  -- If a snapshot already puts a user over quota, then no connection is closed: not by ApplyUsage,
  -- and not by counting any number of bytes of that user afterwards.
  pub late_cut_closes_nothing :
      (cs : List Chunk) (usage : List UserUsage) (s : Server e)
      → user_over_quota uuid (apply_usage usage s) ≡ true
      → let t = count_all uuid cs (apply_usage usage s) in
        (t.closed ≡ s.closed) × (t.user_conns ≡ s.user_conns)
  unfolding apply_usage
  late_cut_closes_nothing cs usage s h =
      let kept = closed-count_all cs (apply_usage usage s) h in (kept.0, kept.1)
