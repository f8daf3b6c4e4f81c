-- ===== src/Cmd/Books.antt =====
-- The bytes that the connections of a node count, until the manager acknowledges them.
use vgate_server.Base.{
  ℕ, ◌+◌, ◌≤◌, ◌≡◌, refl, inl, inr, List, [], ◌∷◌, ◌++◌, Bool, if◌then◌else◌, arith, All,
  Bool-cases,
}
use vgate_server.Base.Text.{Bytes, bytes_eq, bytes_key, pair_key}
use vgate_server.Base.Dict.{Dict, get}
use vgate_server.Model.{User, UserTraffic}
use vgate_server.Vless.Server.{Externals, Server, TrafficStat}
use vgate_server.Vless.Traffic.{report_email, email_of, has_traffic, report_stat, report}
use vgate_server.Vless.Traffic.Ledger.{Direction, Stats, pending, reported}
use vgate_server.Cmd.{Node, pending_key}
use vgate_server.Cmd.Pending.{IsCount, IsPending, waiting, credited}
use vgate_server.Vless.System.Books.{IsTally}

-- The choice of the email and entry point of this key.
abbrev pub of_key : Bytes → Bytes → Bytes → Bool
of_key k email node = bytes_eq (email ++ 0 ∷ node) k

pub credited-reported :
    (d : Direction) (k : Bytes) (rs : List UserTraffic) → credited d k rs ≡ reported (of_key k) d rs
unfolding pending_key
credited-reported d k [] = refl
credited-reported d k (r ∷ rs) = ground (arith, credited-reported d k rs)

pub append-IsCount :
    (xs ys : List UserTraffic) → All IsCount xs → All IsCount ys → All IsCount (xs ++ ys)
append-IsCount [] ys p q = q
append-IsCount (x ∷ xs) ys p q = (p.0, append-IsCount xs ys p.1 q)

report_stat-IsCount :
    (users : Dict Bytes User) (t : ℕ) (key : Bytes × Bytes) (stat : TrafficStat)
    → IsTally t (key, stat)
    → All IsCount (report_stat users key stat)
unfolding report_stat
report_stat-IsCount users t key stat h =
    entry (report_email stat.email (email_of (get users key.0)))
  where
    entry :
        (email : Bytes)
        → All IsCount (elim email [
          | [] ↦ []
          | c ∷ cs ↦
              if has_traffic stat
              then record { email = c ∷ cs; node_id = key.1; up = stat.up; down = stat.down } ∷ []
              else []
        ])
    entry [] = tt
    entry (c ∷ cs) = elim (Bool-cases (has_traffic stat)) [
      | inl some_bytes ↦
          rw some_bytes (record { up_count = h.up_count; down_count = h.down_count }, tt)
      | inr none_left ↦ rw none_left tt
    ]

pub report-IsCount :
    (users : Dict Bytes User) (t : ℕ) (m : Stats) → All (IsTally t) m → All IsCount (report users m)
unfolding report
report-IsCount users t [] h = tt
report-IsCount users t ((key, stat) ∷ m) h =
    append-IsCount (report_stat users key stat) (report users m)
      (report_stat-IsCount users t key stat h.0) (report-IsCount users t m h.1)

-- What the manager acknowledged under a key over several rounds.
abbrev pub acknowledged : Direction → Bytes → List (List UserTraffic) → ℕ
acknowledged d k [] = 0
acknowledged d k (sent ∷ later) = credited d k sent + acknowledged d k later

module _ {e : Externals} where
  -- What waits under a key and what the counters hold for it.
  abbrev pub held : Direction → Bytes → Node (Server e) → ℕ
  held d k n = waiting d k n.pending + pending (of_key k) d n.server.user_traffic

  pub record IsBooked (t : ℕ) (n : Node (Server e)) : Type 0 where
    pub waits : IsPending n.pending
    pub tally : All (IsTally t) n.server.user_traffic
    pub bound : (d : Direction) (k : Bytes) → held d k n ≤ t
