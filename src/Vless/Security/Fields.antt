-- ===== src/Vless/Security/Fields.antt =====
-- Looking up a field in the map of the fields that are there.
use vgate_server.Base.{
  ◌≡◌, refl, sym, ap, ◌∙◌, List, [], ◌∷◌, Option, none, some, Bool, true, false, map, ite, if_pos,
  if_neg,
}
use vgate_server.Base.Text.{Bytes, bytes_key, Bytes-discrete}
use vgate_server.Base.Dict.{get}
use vgate_server.Transport.Settings.{Value, text?, flag?, text_or_empty, flag_or_false, strings}
use vgate_server.Vless.Security.{text_value, flag_value, present}

abbrev pub or_else : Option Value → Option Value → Option Value
or_else none y = y
or_else (some x) y = some x

pub or_else-none : (v : Option Value) → or_else v none ≡ v
or_else-none none = refl
or_else-none (some x) = refl

-- The first value that is there for the key.
abbrev pub find : Bytes → List (Bytes × Option Value) → Option Value
find k [] = none
find k ((j, v) ∷ fields) = ite (Bytes-discrete j k) (or_else v (find k fields)) (find k fields)

pub get-present :
    (k : Bytes) (fields : List (Bytes × Option Value)) → get (present fields) k ≡ find k fields
unfolding get
get-present k [] = refl
get-present k ((j, none) ∷ fields) = elim (Bytes-discrete j k) [
  | yes hit ↦ rw (if_pos (Bytes-discrete j k) hit) (get-present k fields)
  | no miss ↦ rw (if_neg (Bytes-discrete j k) miss) (get-present k fields)
]
get-present k ((j, some v) ∷ fields) = elim (Bytes-discrete j k) [
  | yes hit ↦
      if_pos (Bytes-discrete j k) hit (some v) (get (present fields) k)
      ∙ sym (if_pos (Bytes-discrete j k) hit (some v) (find k fields))
  | no miss ↦
      if_neg (Bytes-discrete j k) miss (some v) (get (present fields) k)
      ∙ get-present k fields
      ∙ sym (if_neg (Bytes-discrete j k) miss (some v) (find k fields))
]

pub text_or_empty-text_value : (s : Bytes) → text_or_empty (text? (text_value s)) ≡ s
text_or_empty-text_value [] = refl
text_or_empty-text_value (c ∷ s) = refl

pub flag_or_false-flag_value : (b : Bool) → flag_or_false (flag? (flag_value b)) ≡ b
flag_or_false-flag_value true = refl
flag_or_false-flag_value false = refl

pub strings-map : (xs : List Bytes) → strings (map some xs) ≡ xs
strings-map [] = refl
strings-map (x ∷ xs) = ap (λ t. x ∷ t) (strings-map xs)
