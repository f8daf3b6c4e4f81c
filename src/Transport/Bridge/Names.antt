-- ===== src/Transport/Bridge/Names.antt =====
-- Names of settings in camel case.
use vgate_server.Base.{
  ◌≡◌, refl, ap, inl, inr, [], ◌∷◌, ◌++◌, Bool, true, false, ◌==◌, if◌then◌else◌, Bool-cases,
}
use vgate_server.Base.Text.{Bytes}
use vgate_server.Transport.Bridge.{
  split_underscores, upper, capitalise, join_capitals, snake_to_camel,
}

-- Camel case in one pass: an underscore is dropped, and the next letter is a capital.
unfoldable pub camel : Bool → Bytes → Bytes
unfolding upper
camel up [] = []
camel up (c ∷ s) =
    let rest = camel (c == b'_') s in if c == b'_' then rest else (if up then upper c else c) ∷ rest

abbrev parts_camel : Bytes → Bool → Bytes
parts_camel s true = capitalise (split_underscores s).0 ++ join_capitals (split_underscores s).1
parts_camel s false = (split_underscores s).0 ++ join_capitals (split_underscores s).1

parts_lem : (s : Bytes) (up : Bool) → parts_camel s up ≡ camel up s
unfolding camel split_underscores join_capitals capitalise
parts_lem [] true = refl
parts_lem [] false = refl
parts_lem (c ∷ s) true = elim (Bool-cases (c == b'_')) [
  | inl dash ↦ rw dash (parts_lem s true)
  | inr letter ↦ rw letter (ap (λ t. upper c ∷ t) (parts_lem s false))
]
parts_lem (c ∷ s) false = elim (Bool-cases (c == b'_')) [
  | inl dash ↦ rw dash (parts_lem s true)
  | inr letter ↦ rw letter (ap (λ t. c ∷ t) (parts_lem s false))
]

-- Splitting, capitalising and joining is the one pass that drops underscores and makes the letter
-- behind each of them a capital.
snake_to_camel-camel : (s : Bytes) → snake_to_camel s ≡ camel false s
unfolding snake_to_camel
snake_to_camel-camel s = parts_lem s false
