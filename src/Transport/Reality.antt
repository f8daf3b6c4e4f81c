-- ===== src/Transport/Reality.antt =====
-- transport/security/reality.go: Reality settings, as the opaque map brings them.
pub mod ClientVer
pub mod ShortIds
use vgate_server.Base.{
  ℕ, suc, ◌+◌, ◌-◌, ◌*◌, ◌%◌, ◌^◌, List, [], ◌∷◌, ◌++◌, Option, none, some, Bool, ltb, ◌==◌,
  if◌then◌else◌, length, replicate,
}
use vgate_server.Base.Int.{ℤ, pos, negsuc, pos_part, neg_part, wrap64}
use vgate_server.Base.Text.{Bytes, codes, bytes_eq, bytes_key}
use vgate_server.Base.Dict.{Dict, get, put}
use vgate_server.Vless.Protocol.{hex_decode}
use vgate_server.Vless.Config.Keys.{base64_decode}
use vgate_server.Transport.Settings.{
  Floats, Value, number, Settings, Fault, no_settings, target_required, xver_not_integer,
  server_name_required, private_key_base64, private_key_size, private_key_required, short_id_hex,
  short_id_too_long, Checked, ok, bad, ◌>>=◌, text_at, flag?, flag_or_false, array?,
}

-- A `map[K]bool` all of whose values are true.
abbrev pub KeySet : Type 0
KeySet = Dict Bytes (Unit {0})

-- security.RealityConfig; `max_time_diff` is in nanoseconds
pub record RealitySettings : Type 0 where
  pub show : Bool
  pub target : Bytes
  pub xver : ℕ
  pub server_names : KeySet
  pub private_key : Bytes
  pub short_ids : KeySet
  pub min_client_ver : Bytes
  pub max_client_ver : Bytes
  pub max_time_diff : ℤ

-- time.Duration(n) * time.Millisecond
unfoldable pub milliseconds : ℤ → ℤ
milliseconds (pos n) = wrap64 (pos (n * 10 ^ 6))
milliseconds (negsuc n) = wrap64 (negsuc (suc n * 10 ^ 6 - 1))

-- int(c - '0') for a byte c
abbrev pub digit_value : ℕ → ℕ
digit_value c = (c + 256 - b'0') % 256

-- The rest of a version whose present part is `n` so far. A part is cut to a byte at its end, so
-- that the wrap-around of `n` as an int makes no difference.
unfoldable pub client_ver_from : ℕ → Bytes → Bytes
client_ver_from n [] = (n % 256) ∷ []
client_ver_from n (c ∷ []) =
    if c == b'.' then (n % 256) ∷ [] else ((n * 10 + digit_value c) % 256) ∷ []
client_ver_from n (c ∷ d ∷ s) =
    let rest = client_ver_from (if c == b'.' then 0 else n * 10 + digit_value c) (d ∷ s) in
    if c == b'.' then (n % 256) ∷ rest else rest

-- parseClientVer
unfoldable pub parse_client_ver : Bytes → Bytes
parse_client_ver [] = []
parse_client_ver (c ∷ s) = client_ver_from 0 (c ∷ s)

-- The array of a short ID; a text of no bytes is the empty ID.
unfoldable pub short_id : Bytes → Checked Bytes
short_id [] = ok (replicate 8 0)
short_id (c ∷ s) = elim (hex_decode (c ∷ s)) [
  | none ↦ bad short_id_hex
  | some b ↦
      if ltb 8 (length b) then bad short_id_too_long else ok (b ++ replicate (8 - length b) 0)
]

-- The loop over `short_ids`; an item that is no string is skipped.
unfoldable pub decode_short_ids : List (Option Bytes) → KeySet → Checked KeySet
decode_short_ids [] m = ok m
decode_short_ids (none ∷ xs) m = decode_short_ids xs m
decode_short_ids (some s ∷ xs) m = do sid ← short_id s; decode_short_ids xs (put m sid tt)

abbrev pub required_text : Fault → Option Bytes → Checked Bytes
required_text x none = bad x
required_text x (some s) = ok s

unfoldable pub decode_xver : Floats → Option Value → Checked ℕ
decode_xver f none = ok 0
decode_xver f (some (number x)) = ok (f.to_byte x)
decode_xver f (some _) = bad xver_not_integer

unfoldable pub decode_private_key : Option Bytes → Checked Bytes
decode_private_key none = bad private_key_required
decode_private_key (some s) = elim (base64_decode s) [
  | none ↦ bad private_key_base64
  | some key ↦ if length key == 32 then ok key else bad private_key_size
]

abbrev pub items : Option (List (Option Bytes)) → List (Option Bytes)
items none = []
items (some xs) = xs

abbrev pub default_short_ids : KeySet → KeySet
default_short_ids [] = (replicate 8 0, tt) ∷ []
default_short_ids (k ∷ m) = k ∷ m

-- The version if the text is there; no text and the empty one leave it nil.
abbrev pub client_ver : Option Bytes → Bytes
client_ver none = []
client_ver (some s) = parse_client_ver s

unfoldable pub decode_time_diff : Floats → Option Value → ℤ
decode_time_diff f (some (number x)) = milliseconds (f.to_int64 x)
decode_time_diff f _ = pos 0

-- DecodeRealityConfig
unfoldable pub decode_reality_config : Floats → Option Settings → Checked RealitySettings
decode_reality_config f none = bad no_settings
decode_reality_config f (some raw) = do
  target ← required_text target_required (text_at (codes "target") raw)
  xver ← decode_xver f (get raw (codes "xver"))
  server_name ← required_text server_name_required (text_at (codes "server_name") raw)
  key ← decode_private_key (text_at (codes "private_key") raw)
  sids ← decode_short_ids (items (array? (get raw (codes "short_ids")))) []
  ok (record {
    show = flag_or_false (flag? (get raw (codes "show")));
    target = target;
    xver = xver;
    server_names = (server_name, tt) ∷ [];
    private_key = key;
    short_ids = default_short_ids sids;
    min_client_ver = client_ver (text_at (codes "min_client_ver") raw);
    max_client_ver = client_ver (text_at (codes "max_client_ver") raw);
    max_time_diff = decode_time_diff f (get raw (codes "max_time_diff"));
  })
