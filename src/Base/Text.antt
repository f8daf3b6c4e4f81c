-- ===== src/Base/Text.antt =====
-- Go's strings and byte slices, as lists of bytes.
use Prim.Native.Nat.{ℕ}
use Prim.Native.Char.{code}
use Prim.Native.String.{String}
use mathlib.Core.List.{List, [], ◌∷◌}
use mathlib.Core.Bool.{Bool, true, false}
use mathlib.Core.Logic.{ite}
unfoldable use native.Mathlib.Decide.{ℕ_discrete}
use vgate_server.Base.Dict.{Key}

abbrev pub Bytes : Type 0
Bytes = List ℕ

-- The bytes of an ASCII literal.
abbrev pub codes : String → Bytes
codes String.[] = []
codes (String.◌∷◌ c s) = code c ∷ codes s

unfoldable pub Bytes-discrete : Discrete Bytes
unfolding ℕ_discrete
Bytes-discrete = hlevel ℕ_discrete

unfoldable pub Pair-discrete : Discrete (Bytes × Bytes)
unfolding Bytes-discrete
Pair-discrete = hlevel Bytes-discrete

instance abbrev pub bytes_key : Key Bytes
bytes_key = record { same = Bytes-discrete }

instance abbrev pub pair_key : Key (Bytes × Bytes)
pair_key = record { same = Pair-discrete }

instance abbrev pub nat_key : Key ℕ
nat_key = record { same = ℕ_discrete }

-- `a == b` on strings.
abbrev pub bytes_eq : Bytes → Bytes → Bool
bytes_eq a b = ite (Bytes-discrete a b) true false
