-- ===== src/Vless/Protocol/Hex.antt =====
-- Hexadecimal text, as encoding/hex reads and writes it.
use vgate_server.Base.{
  ℕ, ◌+◌, ◌-◌, ◌*◌, ◌/◌, ◌%◌, ◌<◌, ◌≤◌, ◌≡◌, ◌⊎◌, refl, [], ◌∷◌, Option, none, some, ◌&&◌, leb, ltb,
  if◌then◌else◌, ◌>>=◌, arith, length, All,
}
use vgate_server.Base.Text.{Bytes}

unfoldable pub hex_digit : ℕ → Option ℕ
hex_digit c =
    if leb b'0' c && leb c b'9'
    then some (c - b'0')
    else if leb b'a' c && leb c b'f'
    then some (c - b'a' + 10)
    else if leb b'A' c && leb c b'F'
    then some (c - b'A' + 10)
    else none

-- hex.DecodeString: text of odd length is an error
unfoldable pub hex_decode : Bytes → Option Bytes
hex_decode [] = some []
hex_decode (c ∷ []) = none
hex_decode (c ∷ d ∷ s) = do
  hi ← hex_digit c
  lo ← hex_digit d
  rest ← hex_decode s
  some ((hi * 16 + lo) ∷ rest)

unfoldable pub hex_char : ℕ → ℕ
hex_char n = if ltb n 10 then b'0' + n else b'a' + (n - 10)

-- hex.EncodeToString
unfoldable pub hex_encode : Bytes → Bytes
unfolding hex_char
hex_encode [] = []
hex_encode (b ∷ s) = hex_char (b / 16) ∷ hex_char (b % 16) ∷ hex_encode s

pub hex_digit-hex_char : (n : ℕ) → n < 16 → hex_digit (hex_char n) ≡ some n
unfolding hex_digit hex_char
hex_digit-hex_char n h = ground arith

pub hex_decode-hex_encode :
    (bs : Bytes) → All (λ b. b < 256) bs → hex_decode (hex_encode bs) ≡ some bs
unfolding hex_decode hex_encode
hex_decode-hex_encode [] h = refl
hex_decode-hex_encode (b ∷ bs) h =
    ground (
      arith,
      hex_digit-hex_char (b / 16),
      hex_digit-hex_char (b % 16),
      hex_decode-hex_encode bs h.1,
    )

-- Two digits make a byte.
pub length-hex_decode : (s bs : Bytes) → hex_decode s ≡ some bs → length s ≡ length bs + length bs
unfolding hex_decode
length-hex_decode [] bs h = ground arith
length-hex_decode (c ∷ []) bs h = ground arith
length-hex_decode (c ∷ d ∷ s) [] h = ground arith
length-hex_decode (c ∷ d ∷ s) (b ∷ bs) h = ground (arith, length-hex_decode s bs)

-- The digits that are written are letters and figures that no reader drops or changes.
pub hex_char_lem :
    (n : ℕ)
    → n < 16
    → (b'0' ≤ hex_char n) × (hex_char n ≤ b'f') × ((hex_char n ≤ b'9') ⊎ (b'a' ≤ hex_char n))
unfolding hex_char
hex_char_lem n h = ground arith

pub length-hex_encode : (bs : Bytes) → length (hex_encode bs) ≡ length bs + length bs
unfolding hex_encode
length-hex_encode [] = refl
length-hex_encode (b ∷ bs) = omega (arith, length-hex_encode bs)
