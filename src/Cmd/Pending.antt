-- ===== src/Cmd/Pending.antt =====
-- Traffic that waits for the manager.
use vgate_server.Base.{
  ℕ, ◌+◌, ◌<◌, ◌^◌, ◌≡◌, refl, sym, ap, ◌∙◌, List, [], ◌∷◌, Option, none, some, ite, if_pos, if_neg,
  arith, All, subst,
}
use vgate_server.Base.Int.{ℤ, pos, negsuc, pos_part, neg_part, add64, add64_count}
use vgate_server.Base.Text.{Bytes, bytes_key, Bytes-discrete}
use vgate_server.Base.Dict.{Dict, get, put, get-put, Distinct, put-Distinct, All-put, All-get}
use vgate_server.Model.{UserTraffic}
use vgate_server.Vless.Traffic.Ledger.{Direction, upload, download, entry_bytes}
use vgate_server.Cmd.{pending_key, add_stat, merge, values}

-- Counters are never negative.
pub record IsCount (t : UserTraffic) : Type 0 where
  pub up_count : neg_part t.up ≡ 0
  pub down_count : neg_part t.down ≡ 0

pub record IsPending (m : Dict Bytes UserTraffic) : Type 0 where
  pub distinct : Distinct m
  pub keyed : All (λ p. pending_key p.1 ≡ p.0) m
  pub counts : All (λ p. IsCount p.1) m

module _ (d : Direction) where
  abbrev pub entry_bytes? : Option UserTraffic → ℕ
  entry_bytes? none = 0
  entry_bytes? (some t) = entry_bytes d t

  module _ (k : Bytes) where
    -- The bytes under this key among those that wait, and in a list.
    abbrev pub waiting : Dict Bytes UserTraffic → ℕ
    waiting m = entry_bytes? (get m k)

    abbrev pub mine : UserTraffic → ℕ
    mine t = ite (Bytes-discrete (pending_key t) k) (entry_bytes d t) 0

    abbrev pub credited : List UserTraffic → ℕ
    credited [] = 0
    credited (t ∷ ts) = mine t + credited ts

add64_counts :
    (a b : ℤ)
    → neg_part a ≡ 0
    → neg_part b ≡ 0
    → pos_part a + pos_part b < 2 ^ 63
    → add64 a b ≡ pos (pos_part a + pos_part b)
add64_counts a (pos n) za zb h = add64_count a n za h
add64_counts a (negsuc n) za zb h = absurd (omega arith)

-- What waits under a key, if it does, is a count.
CountAt : Option UserTraffic → Type 0
CountAt o = (old : UserTraffic) → o ≡ some old → IsCount old

grown :
    (d : Direction) (t : UserTraffic) (o : Option UserTraffic)
    → IsCount t
    → CountAt o
    → entry_bytes? d o + entry_bytes d t < 2 ^ 63
    → entry_bytes d (add_stat t o) ≡ entry_bytes? d o + entry_bytes d t
unfolding add_stat CountAt
grown d t none new before small = omega arith
grown upload t (some old) new before small =
    ap pos_part (add64_counts old.up t.up (before old refl).up_count new.up_count small)
grown download t (some old) new before small =
    ap pos_part (add64_counts old.down t.down (before old refl).down_count new.down_count small)

add_stat-IsCount :
    (t : UserTraffic) (o : Option UserTraffic)
    → IsCount t
    → CountAt o
    → ((d : Direction) → entry_bytes? d o + entry_bytes d t < 2 ^ 63)
    → IsCount (add_stat t o)
unfolding add_stat CountAt
add_stat-IsCount t none new before small = new
add_stat-IsCount t (some old) new before small = record {
  up_count =
      ap neg_part (add64_counts old.up t.up (before old refl).up_count new.up_count (small upload));
  down_count =
      ap neg_part
        (add64_counts old.down t.down (before old refl).down_count new.down_count (small download));
}

-- A sum stays under its key.
add_stat_key :
    (t : UserTraffic) (o : Option UserTraffic)
    → ((old : UserTraffic) → o ≡ some old → pending_key old ≡ pending_key t)
    → pending_key (add_stat t o) ≡ pending_key t
unfolding add_stat pending_key
add_stat_key t none same = refl
add_stat_key t (some old) same = same old refl

module _ (t : UserTraffic) (m : Dict Bytes UserTraffic) (new : IsCount t) (ok : IsPending m) where
  abbrev key : Bytes
  key = pending_key t

  abbrev pub added : Dict Bytes UserTraffic
  added = put m key (add_stat t (get m key))

  count_at : CountAt (get m key)
  unfolding CountAt
  count_at old found = All-get (λ p. IsCount p.1) m key old ok.counts found

  mine_self : (d : Direction) → mine d key t ≡ entry_bytes d t
  mine_self d = if_pos (Bytes-discrete key key) refl (entry_bytes d t) 0

  waiting-added :
      (d : Direction) (k : Bytes)
      → waiting d key m + entry_bytes d t < 2 ^ 63
      → waiting d k added ≡ waiting d k m + mine d k t
  waiting-added d k small = elim (Bytes-discrete key k) [
    | yes hit ↦
        subst (λ j. waiting d j added ≡ waiting d j m + mine d j t) hit
          (rw (get-put m key key (add_stat t (get m key)), mine_self d)
            (rw (if_pos (Bytes-discrete key key) refl) (grown d t (get m key) new count_at small)))
    | no miss ↦
        rw (get-put m key k (add_stat t (get m key)), if_neg (Bytes-discrete key k) miss)
          (omega (arith, if_neg (Bytes-discrete key k) miss (entry_bytes d t) 0))
  ]

  added-IsPending : ((d : Direction) → waiting d key m + entry_bytes d t < 2 ^ 63) → IsPending added
  added-IsPending small = record {
    distinct = put-Distinct m key _ ok.distinct;
    keyed =
        All-put (λ p. pending_key p.1 ≡ p.0) m key _ ok.keyed
          (add_stat_key t (get m key)
            (λ old found. All-get (λ p. pending_key p.1 ≡ p.0) m key old ok.keyed found));
    counts =
        All-put (λ p. IsCount p.1) m key _ ok.counts
          (add_stat-IsCount t (get m key) new count_at small);
  }

-- No sum of what waits and what is added reaches 2^63.
abbrev pub Small : List UserTraffic → Dict Bytes UserTraffic → Type 0
Small ts m = (d : Direction) (k : Bytes) → waiting d k m + credited d k ts < 2 ^ 63

module _ (t : UserTraffic) (ts : List UserTraffic) (m : Dict Bytes UserTraffic)
    (small : Small (t ∷ ts) m) where
  here_lem : (d : Direction) → waiting d (pending_key t) m + entry_bytes d t < 2 ^ 63
  here_lem d = omega (
    arith,
    small d (pending_key t),
    if_pos (Bytes-discrete (pending_key t) (pending_key t)) refl (entry_bytes d t) 0,
  )

  later_lem :
      (new : IsCount t)
      → IsPending m
      → Small ts (put m (pending_key t) (add_stat t (get m (pending_key t))))
  later_lem new ok d k = omega (arith, small d k, waiting-added t m new ok d k (here_lem d))

-- The loop adds every delta to what waits under its key, and keeps the others.
pub merge_lem :
    (ts : List UserTraffic) (m : Dict Bytes UserTraffic)
    → All IsCount ts
    → IsPending m
    → Small ts m
    → IsPending (merge ts m)
      × ((d : Direction) (k : Bytes) → waiting d k (merge ts m) ≡ waiting d k m + credited d k ts)
unfolding merge
merge_lem [] m new ok small = (ok, λ d k. omega arith)
merge_lem (t ∷ ts) m new ok small =
    let here = here_lem t ts m small in
    let later =
      merge_lem ts (added t m new.0 ok) new.1 (added-IsPending t m new.0 ok here)
        (later_lem t ts m small new.0 ok) in
    (later.0, λ d k. omega (arith, later.1 d k, waiting-added t m new.0 ok d k (here d)))

-- The list that is sent has what waits.
pub credited-values :
    (d : Direction) (k : Bytes) (m : Dict Bytes UserTraffic)
    → IsPending m
    → credited d k (values m) ≡ waiting d k m
unfolding get
credited-values d k [] ok = refl
credited-values d k ((j, t) ∷ m) ok =
    let later =
      credited-values d k m
        (record { distinct = ok.distinct.1; keyed = ok.keyed.1; counts = ok.counts.1 }) in
    let here : mine d k t ≡ ite (Bytes-discrete j k) (entry_bytes d t) 0 =
      ap (λ x. ite (Bytes-discrete x k) (entry_bytes d t) 0) ok.keyed.0 in
    elim (Bytes-discrete j k) [
      | yes hit ↦
          let gone : waiting d k m ≡ 0 =
            ap (λ x. entry_bytes? d (get m x)) (sym hit) ∙ ap (entry_bytes? d) ok.distinct.0 in
          rw (if_pos (Bytes-discrete j k) hit)
            (omega (arith, here, later, gone, if_pos (Bytes-discrete j k) hit (entry_bytes d t) 0))
      | no miss ↦
          rw (if_neg (Bytes-discrete j k) miss)
            (omega (arith, here, later, if_neg (Bytes-discrete j k) miss (entry_bytes d t) 0))
    ]
