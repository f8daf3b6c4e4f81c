-- ===== src/Vless/Traffic/Ledger.antt =====
-- The books of traffic.go: what is counted for an email on an entry point is in a counter or in a
-- report, once.
use vgate_server.Base.{
  ℕ, ◌+◌, ◌≤◌, ◌≡◌, ◌≢◌, List, [], ◌∷◌, ◌++◌, Option, none, some, Bool, if◌then◌else◌, arith, All,
}
use vgate_server.Base.Int.{pos_part, neg_part}
use vgate_server.Base.Text.{Bytes, bytes_key, pair_key}
use vgate_server.Base.Dict.{Dict, get, put, update}
use vgate_server.Model.{User, UserTraffic}
use vgate_server.Vless.Server.{TrafficStat}
use vgate_server.Vless.Traffic.{email_of, reset_stat, report_stat, report}

pub data Direction : Type 0 where
  upload download : Direction

abbrev pub Stats : Type 0
Stats = Dict (Bytes × Bytes) TrafficStat

abbrev pub stat_bytes : Direction → TrafficStat → ℕ
stat_bytes upload stat = pos_part stat.up
stat_bytes download stat = pos_part stat.down

abbrev pub entry_bytes : Direction → UserTraffic → ℕ
entry_bytes upload r = pos_part r.up
entry_bytes download r = pos_part r.down

abbrev pub pick : Direction → ℕ → ℕ → ℕ
pick upload a b = a
pick download a b = b

-- A choice of emails and entry points, and the bytes in one direction that fall to it.
module _ (mine : Bytes → Bytes → Bool) (d : Direction) where
  abbrev pub weight : Bytes × Bytes → TrafficStat → ℕ
  weight key stat = if mine stat.email key.1 then stat_bytes d stat else 0

  -- in the counters
  abbrev pub pending : Stats → ℕ
  pending [] = 0
  pending ((key, stat) ∷ m) = weight key stat + pending m

  -- in a report
  abbrev pub reported : List UserTraffic → ℕ
  reported [] = 0
  reported (r ∷ rs) = (if mine r.email r.node_id then entry_bytes d r else 0) + reported rs

  abbrev pub weight? : Bytes × Bytes → Option TrafficStat → ℕ
  weight? key none = 0
  weight? key (some stat) = weight key stat

  pub reported-append : (rs ts : List UserTraffic) → reported (rs ++ ts) ≡ reported rs + reported ts
  reported-append [] ts = omega arith
  reported-append (r ∷ rs) ts = omega (arith, reported-append rs ts)

  pub pending-kept :
      (key : Bytes × Bytes) (o : Option TrafficStat) (m : Stats)
      → pending (elim o [ none ↦ m | some w ↦ (key, w) ∷ m ]) ≡ weight? key o + pending m
  pending-kept key none m = omega arith
  pending-kept key (some w) m = omega arith

  pub pending-put :
      (m : Stats) (key : Bytes × Bytes) (stat : TrafficStat)
      → pending (put m key stat) + weight? key (get m key) ≡ pending m + weight key stat
  unfolding put get
  pending-put [] key stat = omega arith
  pending-put ((k, v) ∷ m) key stat = ground (arith, pending-put m key stat)

-- What every counter satisfies: it carries its user's email, and its numbers are counts up to `t`.
pub record IsSound (users : Dict Bytes User) (t : ℕ) (p : (Bytes × Bytes) × TrafficStat)
    : Type 0 where
  pub named : p.1.email ≢ []
  pub owner : p.1.email ≡ email_of (get users p.0.0)
  pub up_count : neg_part p.1.up ≡ 0
  pub down_count : neg_part p.1.down ≡ 0
  pub up_bound : pos_part p.1.up ≤ t
  pub down_bound : pos_part p.1.down ≤ t

module _ (mine : Bytes → Bytes → Bool) (d : Direction) (users : Dict Bytes User) (t : ℕ) where
  -- One round of GetAndResetTraffic moves the bytes of a counter into the report.
  round :
      (key : Bytes × Bytes) (stat : TrafficStat)
      → IsSound users t (key, stat)
      → reported mine d (report_stat users key stat)
          + weight? mine d key (reset_stat users key stat)
        ≡ weight mine d key stat
  unfolding report_stat reset_stat
  round key stat h = ground arith

  pub collected :
      (m : Stats)
      → All (IsSound users t) m
      → reported mine d (report users m) + pending mine d (update (reset_stat users) m)
        ≡ pending mine d m
  unfolding report update
  collected [] h = omega arith
  collected ((key, stat) ∷ m) h = rw (reported-append mine d (report_stat users key stat)) (
      omega (
        arith,
        collected m h.1,
        round key stat h.0,
        pending-kept mine d key (reset_stat users key stat) (update (reset_stat users) m),
      ))
