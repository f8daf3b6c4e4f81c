-- ===== src/Vless/Config/Keys.antt =====
-- The texts that UpdateConfig decodes: the private keys of the decryption string, and Reality short
-- IDs. White space and letters outside ASCII are not trimmed or lowered.
use vgate_server.Base.{
  ℕ, ◌+◌, ◌-◌, ◌*◌, ◌/◌, ◌%◌, List, [], ◌∷◌, ◌++◌, Option, none, some, Bool, ◌&&◌, ◌||◌, ◌==◌, leb,
  ltb, if◌then◌else◌, ◌>>=◌, length, replicate,
}
use vgate_server.Base.Text.{Bytes}
use vgate_server.Vless.Protocol.{hex_decode}

unfoldable pub base64_digit : ℕ → Option ℕ
base64_digit c =
    if leb b'A' c && leb c b'Z'
    then some (c - b'A')
    else if leb b'a' c && leb c b'z'
    then some (c - b'a' + 26)
    else if leb b'0' c && leb c b'9'
    then some (c - b'0' + 52)
    else if c == b'-'
    then some 62
    else if c == b'_'
    then some 63
    else none

-- Line ends may stand anywhere in base64 text.
unfoldable pub without_line_ends : Bytes → Bytes
without_line_ends [] = []
without_line_ends (c ∷ s) =
    let rest = without_line_ends s in if c == 10 || c == 13 then rest else c ∷ rest

-- Four digits make three bytes; at the end, two make one and three make two.
unfoldable pub base64_groups : Bytes → Option Bytes
base64_groups [] = some []
base64_groups (a ∷ []) = none
base64_groups (a ∷ b ∷ []) = do x ← base64_digit a; y ← base64_digit b; some ((x * 4 + y / 16) ∷ [])
base64_groups (a ∷ b ∷ c ∷ []) = do
  x ← base64_digit a
  y ← base64_digit b
  z ← base64_digit c
  some ((x * 4 + y / 16) ∷ (y % 16 * 16 + z / 4) ∷ [])
base64_groups (a ∷ b ∷ c ∷ d ∷ s) = do
  x ← base64_digit a
  y ← base64_digit b
  z ← base64_digit c
  w ← base64_digit d
  rest ← base64_groups s
  some ((x * 4 + y / 16) ∷ (y % 16 * 16 + z / 4) ∷ (z % 4 * 64 + w) ∷ rest)

-- base64.RawURLEncoding.DecodeString
unfoldable pub base64_decode : Bytes → Option Bytes
unfolding without_line_ends base64_groups
base64_decode s = base64_groups (without_line_ends s)

-- strings.Split(s, "."), as the first part and the others
unfoldable pub split_dots : Bytes → Bytes × List Bytes
split_dots [] = ([], [])
split_dots (c ∷ s) =
    let parts = split_dots s in
    if c == b'.' then ([], parts.0 ∷ parts.1) else (c ∷ parts.0, parts.1)

unfoldable pub decode_parts : List Bytes → Option (List Bytes)
decode_parts [] = some []
decode_parts ([] ∷ ps) = decode_parts ps
decode_parts ((c ∷ p) ∷ ps) = do
  key ← base64_decode (c ∷ p)
  keys ← decode_parts ps
  some (key ∷ keys)

-- No keys are an error.
abbrev pub some_keys : List Bytes → Option (List Bytes)
some_keys [] = none
some_keys (k ∷ ks) = some (k ∷ ks)

-- parseNfsKeys
unfoldable pub parse_nfs_keys : Bytes → Option (List Bytes)
unfolding decode_parts split_dots
parse_nfs_keys s = do keys ← decode_parts ((split_dots s).0 ∷ (split_dots s).1); some_keys keys

abbrev pub is_space : ℕ → Bool
is_space c = c == 32 || (leb 9 c && leb c 13)

unfoldable pub trim_left : Bytes → Bytes
trim_left [] = []
trim_left (c ∷ s) = let rest = trim_left s in if is_space c then rest else c ∷ s

-- A space goes if nothing but spaces stands behind it.
unfoldable pub trim_right : Bytes → Bytes
trim_right [] = []
trim_right (c ∷ s) =
    let rest = trim_right s in
    if is_space c then elim rest [ [] ↦ [] | d ∷ t ↦ c ∷ d ∷ t ] else c ∷ rest

unfoldable pub to_lower : Bytes → Bytes
to_lower [] = []
to_lower (c ∷ s) = (if leb b'A' c && leb c b'Z' then c + 32 else c) ∷ to_lower s

-- A short ID of one to eight bytes, padded with zeros.
unfoldable pub pad_sid : Bytes → Option Bytes
pad_sid [] = none
pad_sid (b ∷ bs) =
    if ltb 8 (length (b ∷ bs)) then none else some (b ∷ bs ++ replicate (8 - length (b ∷ bs)) 0)

-- The key of a traffic short ID; `none` if it is skipped.
unfoldable pub sid_key : Bytes → Option Bytes
unfolding trim_left trim_right to_lower pad_sid
sid_key text = do bytes ← hex_decode (to_lower (trim_right (trim_left text))); pad_sid bytes
