-- ===== src/Base/Dict.antt =====
-- Go's maps, as association lists with at most one entry for a key.
use mathlib.Core.Path.{◌≡◌, refl, subst}
use mathlib.Core.Logic.{ite, if_pos, if_neg, ◌≢◌, inl, inr}
use mathlib.Core.Option.{Option, none, some, some-injective}
use mathlib.Core.List.{List, [], ◌∷◌}
use native.Mathlib.Omega.{arith}
use vgate_server.Base.Tests.{◌>>=◌, Option-cases}
use vgate_server.Base.Lists.{All}

-- The keys of a map can be compared.
pub record Key {ℓ} (K : Type ℓ) : Type ℓ where
  pub same : Discrete K

abbrev pub Dict {ℓ} : Type ℓ → Type ℓ → Type ℓ
Dict K V = List (K × V)

module _ {ℓ} {K V : Type ℓ} ⦃key : Key K⦄ where
  -- m[k], with `none` for a missing key
  unfoldable pub get : Dict K V → K → Option V
  get [] k = none
  get ((j, v) ∷ m) k = ite (key.same j k) (some v) (get m k)

  -- delete(m, k)
  unfoldable pub remove : Dict K V → K → Dict K V
  remove [] k = []
  remove ((j, v) ∷ m) k = let rest = remove m k in ite (key.same j k) rest ((j, v) ∷ rest)

  -- m[k] = v
  unfoldable pub put : Dict K V → K → V → Dict K V
  unfolding remove
  put [] k v = (k, v) ∷ []
  put ((j, w) ∷ m) k v = ite (key.same j k) ((k, v) ∷ m) ((j, w) ∷ put m k v)

  pub get-remove : (m : Dict K V) (k j : K) → get (remove m k) j ≡ ite (key.same k j) none (get m j)
  unfolding get remove
  get-remove [] k j = ground arith
  get-remove ((i, v) ∷ m) k j = ground (arith, get-remove m k j)

  pub get-put :
      (m : Dict K V) (k j : K) (v : V) → get (put m k v) j ≡ ite (key.same k j) (some v) (get m j)
  unfolding get put
  get-put [] k j v = ground arith
  get-put ((i, w) ∷ m) k j v = ground (arith, get-put m k j v)

  pub get-put_self : (m : Dict K V) (k : K) (v : V) → get (put m k v) k ≡ some v
  get-put_self m k v = rw get-put (ground arith)

  pub get-put_ne : (m : Dict K V) {k j : K} (v : V) → k ≢ j → get (put m k v) j ≡ get m j
  get-put_ne m v h = rw get-put (ground arith)

  pub get-remove_self : (m : Dict K V) (k : K) → get (remove m k) k ≡ none
  get-remove_self m k = rw get-remove (ground arith)

  pub get-remove_ne : (m : Dict K V) {k j : K} → k ≢ j → get (remove m k) j ≡ get m j
  get-remove_ne m h = rw get-remove (ground arith)

  -- Every key has one entry.
  abbrev pub Distinct : Dict K V → Type ℓ
  Distinct [] = Unit
  Distinct ((k, v) ∷ m) = (get m k ≡ none) × Distinct m

  pub remove-Distinct : (m : Dict K V) (k : K) → Distinct m → Distinct (remove m k)
  unfolding remove
  remove-Distinct [] k h = tt
  remove-Distinct ((j, v) ∷ m) k h = ground (arith, get-remove m k j, remove-Distinct m k h.1)

  pub put-Distinct : (m : Dict K V) (k : K) (v : V) → Distinct m → Distinct (put m k v)
  unfolding put get
  put-Distinct [] k v h = (refl, tt)
  put-Distinct ((j, w) ∷ m) k v h = ground (arith, get-put m k j v, put-Distinct m k v h.1)

  -- `for k, v := range m { … }`, where each round keeps, replaces or deletes its own entry.
  unfoldable pub update : (K → V → Option V) → Dict K V → Dict K V
  update f [] = []
  update f ((k, v) ∷ m) =
      let rest = update f m in elim (f k v) [ none ↦ rest | some w ↦ (k, w) ∷ rest ]

  pub get-update :
      (f : K → V → Option V) (m : Dict K V) (k : K)
      → Distinct m
      → get (update f m) k ≡ (get m k >>= f k)
  unfolding update get
  get-update f [] k h = refl
  get-update f ((j, v) ∷ m) k h = ground (arith, get-update f m k h.1)

  pub update-Distinct : (f : K → V → Option V) (m : Dict K V) → Distinct m → Distinct (update f m)
  unfolding update
  update-Distinct f [] h = tt
  update-Distinct f ((k, v) ∷ m) h = ground (arith, update-Distinct f m h.1, get-update f m k h.1)

Σ-pair {ℓ} : {A B : Type ℓ} {a c : A} {b d : B} → a ≡ c → b ≡ d → ◌≡◌ {A = A × B} (a, b) (c, d)
Σ-pair p q = λ i. (p i, q i)

module _ {ℓ} {K V : Type ℓ} ⦃key : Key K⦄ (P : K × V → Type ℓ) where
  pub All-put : (m : Dict K V) (k : K) (v : V) → All P m → P (k, v) → All P (put m k v)
  unfolding put
  All-put [] k v h p = (p, tt)
  All-put ((j, w) ∷ m) k v h p = elim (key.same j k) [
    | yes hit ↦ rw (if_pos _ hit) (p, h.1)
    | no miss ↦ rw (if_neg _ miss) (h.0, All-put m k v h.1 p)
  ]

  pub All-get : (m : Dict K V) (k : K) (v : V) → All P m → get m k ≡ some v → P (k, v)
  unfolding get
  All-get [] k v h e = cc
  All-get ((j, w) ∷ m) k v h e = elim (key.same j k) [
    | yes hit ↦ subst P (Σ-pair hit (some-injective _ _ (rw (if_pos _ hit) at e))) h.0
    | no miss ↦ All-get m k v h.1 (rw (if_neg _ miss) at e)
  ]

  pub All-update :
      (f : K → V → Option V) (m : Dict K V)
      → ((k : K) (v w : V) → P (k, v) → f k v ≡ some w → P (k, w))
      → All P m
      → All P (update f m)
  unfolding update
  All-update f [] keep h = tt
  All-update f ((k, v) ∷ m) keep h = elim (Option-cases (f k v)) [
    | inl gone ↦ rw (gone, update) (All-update f m keep h.1)
    | inr (w, kept) ↦ rw (kept, update) (keep k v w h.0 kept, All-update f m keep h.1)
  ]

pub ruleset dict_laws = (get-remove, get-put)
