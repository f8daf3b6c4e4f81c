-- ===== src/Transport/Settings.antt =====
-- What encoding/json decodes into `map[string]any`, as far as the security layers look at it, and
-- results that may be errors.
use vgate_server.Base.{ℕ, ◌≡◌, ◌≤◌, ◌<◌, ◌^◌, List, [], ◌∷◌, Option, none, some, Bool}
use vgate_server.Base.Int.{ℤ, pos, pos_part, neg_part, IsInt64}
use vgate_server.Base.Text.{Bytes, bytes_key}
use vgate_server.Base.Dict.{Dict, get}

-- The conversions of Go between int, float64 and byte, on float64 numbers that are integers: from an
-- int to the float64 that Unmarshal reads for what Marshal wrote, from a float64 to a byte, and from
-- a float64 to an int64. What the last two give out of range is left to the implementation.
pub record Floats : Type 0 where
  pub of_int : ℤ → ℤ
  pub to_byte : ℤ → ℕ
  pub to_int64 : ℤ → ℤ

-- An int that a float64 holds exactly.
abbrev pub IsExact : ℤ → Type 0
IsExact z = (pos_part z ≤ 2 ^ 53) × (neg_part z ≤ 2 ^ 53)

-- What the Go specification says of these conversions.
pub record IsFloats (f : Floats) : Type 0 where
  pub exact : (z : ℤ) → IsExact z → f.of_int z ≡ z
  pub byte : (n : ℕ) → n < 256 → f.to_byte (pos n) ≡ n
  pub int64 : (z : ℤ) → IsInt64 z → f.to_int64 z ≡ z

-- An item of an array is a string, or `none` for any other value. A number is a float64; of these
-- only integers are looked at.
pub data Value : Type 0 where
  flag : Bool → Value
  number : ℤ → Value
  text : Bytes → Value
  array : List (Option Bytes) → Value
  object : Value

abbrev pub Settings : Type 0
Settings = Dict Bytes Value

-- Why a security layer is not set up.
pub data Fault : Type 0 where
  no_settings unknown_min_version unknown_max_version : Fault
  target_required xver_not_integer server_name_required : Fault
  private_key_base64 private_key_size private_key_required : Fault
  short_id_hex short_id_too_long : Fault
  no_certificate certificate_not_loaded unsupported_security : Fault
  bad_address bad_settings listen_failed unknown_network : Fault

-- What a function with an error result returns.
pub data Checked {ℓ} (A : Type ℓ) : Type ℓ where
  bad : Fault → Checked A
  ok : A → Checked A

-- `if err != nil { return …, err }` behind each call.
infixl 5 ◌>>=◌
abbrev pub ◌>>=◌ {ℓ κ} :
    {Value' : Type ℓ} {Next : Type κ} → Checked Value' → (Value' → Checked Next) → Checked Next
bad fault >>= next = bad fault
ok value >>= next = next value

abbrev pub text? : Option Value → Option Bytes
text? (some (text s)) = some s
text? _ = none

abbrev pub flag? : Option Value → Option Bool
flag? (some (flag b)) = some b
flag? _ = none

abbrev pub array? : Option Value → Option (List (Option Bytes))
array? (some (array xs)) = some xs
array? _ = none

-- `raw[key].(string)`, and what the variable holds after a failed assertion
abbrev pub text_at : Bytes → Settings → Option Bytes
text_at key m = text? (get m key)

abbrev pub text_or_empty : Option Bytes → Bytes
text_or_empty none = []
text_or_empty (some s) = s

abbrev pub flag_or_false : Option Bool → Bool
flag_or_false none = Bool.false
flag_or_false (some b) = b

abbrev pub strings : List (Option Bytes) → List Bytes
strings [] = []
strings (none ∷ xs) = strings xs
strings (some s ∷ xs) = s ∷ strings xs
