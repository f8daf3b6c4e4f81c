-- ===== src/Vless/System/Books.antt =====
-- The books of proxy/vless over any operations: also when users come, go and change in between.
use vgate_server.Base.{
  ℕ, ◌+◌, ◌^◌, ◌<◌, ◌≤◌, ◌≡◌, ◌≢◌, refl, ap, ◌∙◌, inl, inr, [], ◌∷◌, some, Bool, if◌then◌else◌,
  arith, All, Option-cases,
}
use vgate_server.Base.Int.{pos, pos_part, neg_part, add64, add64_count}
use vgate_server.Base.Text.{Bytes, bytes_key, pair_key}
use vgate_server.Base.Dict.{Dict, get, update, All-get, All-update}
use vgate_server.Model.{User}
use vgate_server.Vless.Server.{Externals, Server, TrafficStat}
use vgate_server.Vless.Traffic.{email_of, stat_or_new, reset_stat, report_stat, report}
use vgate_server.Vless.Traffic.Ledger.{
  Direction, Stats, pick, pending, reported, weight, weight?, pending-kept, reported-append,
}

-- A counter has an email, and its numbers are counts up to `t`.
pub record IsTally (t : ℕ) (p : (Bytes × Bytes) × TrafficStat) : Type 0 where
  pub named : p.1.email ≢ []
  pub up_count : neg_part p.1.up ≡ 0
  pub down_count : neg_part p.1.down ≡ 0
  pub up_bound : pos_part p.1.up ≤ t
  pub down_bound : pos_part p.1.down ≤ t

-- The counter that a count goes to.
abbrev pub counter : {e : Externals} → Bytes → Bytes → Server e → TrafficStat
counter uuid node s = stat_or_new (email_of (get s.users uuid)) (get s.user_traffic (uuid, node))

module _ (t : ℕ) where
  pub IsTally-more : (m : Stats) (n : ℕ) → All (IsTally t) m → All (IsTally (t + n)) m
  IsTally-more [] n h = tt
  IsTally-more (p ∷ m) n h = (ground arith, IsTally-more m n h.1)

  pub IsTally-grown :
      (key : Bytes × Bytes) (stat : TrafficStat) (a b : ℕ)
      → t + (a + b) < 2 ^ 63
      → IsTally t (key, stat)
      → IsTally
          (t + (a + b))
          (key, record stat { up = add64 stat.up (pos a); down = add64 stat.down (pos b) })
  IsTally-grown key stat a b fits h =
      ground (arith, add64_count stat.up a h.up_count, add64_count stat.down b h.down_count)

  pub IsTally-found :
      (m : Stats) (key : Bytes × Bytes) (email : Bytes)
      → (stat_or_new email (get m key)).email ≢ []
      → All (IsTally t) m
      → IsTally t (key, stat_or_new email (get m key))
  IsTally-found m key email known h = elim (Option-cases (get m key)) [
    | inl absent ↦ rw absent (record {
      named = λ p. known (ap (λ o. (stat_or_new email o).email) absent ∙ p);
      up_count = refl;
      down_count = refl;
      up_bound = omega arith;
      down_bound = omega arith;
    })
    | inr (stat, found) ↦ rw found (All-get (IsTally t) m key stat h found)
  ]

  pub IsTally-reset :
      (users : Dict Bytes User) (m : Stats)
      → All (IsTally t) m
      → All (IsTally t) (update (reset_stat users) m)
  IsTally-reset users m = All-update (IsTally t) (reset_stat users) m keep
    where
      keep :
          (key : Bytes × Bytes) (stat w : TrafficStat)
          → IsTally t (key, stat)
          → reset_stat users key stat ≡ some w
          → IsTally t (key, w)
      keep key stat w h e = unfold reset_stat in ground arith

module _ (mine : Bytes → Bytes → Bool) (d : Direction) where
  pub weight_more :
      (key : Bytes × Bytes) (stat : TrafficStat) (a b t : ℕ)
      → t + (a + b) < 2 ^ 63
      → IsTally t (key, stat)
      → weight mine d key
          (record stat { up = add64 stat.up (pos a); down = add64 stat.down (pos b) })
        ≡ weight mine d key stat + (if mine stat.email key.1 then pick d a b else 0)
  weight_more key stat a b t fits h =
      ground (arith, add64_count stat.up a h.up_count, add64_count stat.down b h.down_count)

  round :
      (users : Dict Bytes User) (t : ℕ) (key : Bytes × Bytes) (stat : TrafficStat)
      → IsTally t (key, stat)
      → reported mine d (report_stat users key stat)
          + weight? mine d key (reset_stat users key stat)
        ≡ weight mine d key stat
  unfolding report_stat reset_stat
  round users t key stat h = ground arith

  pub books_collected :
      (users : Dict Bytes User) (t : ℕ) (m : Stats)
      → All (IsTally t) m
      → reported mine d (report users m) + pending mine d (update (reset_stat users) m)
        ≡ pending mine d m
  unfolding report update
  books_collected users t [] h = omega arith
  books_collected users t ((key, stat) ∷ m) h =
      rw (reported-append mine d (report_stat users key stat)) (
        omega (
          arith,
          books_collected users t m h.1,
          round users t key stat h.0,
          pending-kept mine d key (reset_stat users key stat) (update (reset_stat users) m),
        ))
