-- ===== src/Vless/Config/ShortId.antt =====
-- A short ID in hexadecimal is the key of its bytes, padded to eight.
use vgate_server.Base.{
  ℕ, ◌-◌, ◌/◌, ◌%◌, ◌<◌, ◌≤◌, ◌≡◌, ◌⊎◌, refl, [], ◌∷◌, ◌++◌, some, false, arith, length, All,
  replicate,
}
use vgate_server.Base.Text.{Bytes}
use vgate_server.Vless.Protocol.{hex_encode, hex_decode-hex_encode, hex_char_lem}
use vgate_server.Vless.Config.Keys.{is_space, trim_left, trim_right, to_lower, pad_sid, sid_key}

-- A character that trimming and lowering leave alone.
IsPlain : ℕ → Type 0
IsPlain c = (is_space c ≡ false) × ((c < b'A') ⊎ (b'Z' < c))

hex_char-IsPlain : (c : ℕ) → (b'0' ≤ c) × (c ≤ b'f') × ((c ≤ b'9') ⊎ (b'a' ≤ c)) → IsPlain c
unfolding IsPlain
hex_char-IsPlain c h = (ground arith, ground arith)

hex_encode-IsPlain : (bs : Bytes) → All (λ b. b < 256) bs → All IsPlain (hex_encode bs)
unfolding hex_encode
hex_encode-IsPlain [] h = tt
hex_encode-IsPlain (b ∷ bs) h = (
  hex_char-IsPlain _ (hex_char_lem (b / 16) (omega arith)),
  (hex_char-IsPlain _ (hex_char_lem (b % 16) (omega arith)), hex_encode-IsPlain bs h.1),
)

trim_left_lem : (s : Bytes) → All IsPlain s → trim_left s ≡ s
unfolding trim_left IsPlain
trim_left_lem [] h = refl
trim_left_lem (c ∷ s) h = rw h.0.0

trim_right_lem : (s : Bytes) → All IsPlain s → trim_right s ≡ s
unfolding trim_right IsPlain
trim_right_lem [] h = refl
trim_right_lem (c ∷ s) h = rw (h.0.0, trim_right_lem s h.1)

to_lower_lem : (s : Bytes) → All IsPlain s → to_lower s ≡ s
unfolding to_lower IsPlain
to_lower_lem [] h = refl
to_lower_lem (c ∷ s) h = ground (arith, to_lower_lem s h.1)

-- The lower-case hexadecimal text of one to eight bytes is a traffic short ID, and its key is these
-- bytes with zeros behind them, eight in all.
pub sid_key-hex_encode :
    (bs : Bytes)
    → All (λ b. b < 256) bs
    → 0 < length bs
    → length bs ≤ 8
    → sid_key (hex_encode bs) ≡ some (bs ++ replicate (8 - length bs) 0)
unfolding sid_key
sid_key-hex_encode bs h some_bytes few =
    let plain = hex_encode-IsPlain bs h in
    rw
      (
        trim_left_lem (hex_encode bs) plain,
        trim_right_lem (hex_encode bs) plain,
        to_lower_lem (hex_encode bs) plain,
        hex_decode-hex_encode bs h,
      )
      (pad_lem bs some_bytes few)
  where
    pad_lem :
        (xs : Bytes)
        → 0 < length xs
        → length xs ≤ 8
        → pad_sid xs ≡ some (xs ++ replicate (8 - length xs) 0)
    pad_lem [] g k = absurd (omega arith)
    pad_lem (x ∷ xs) g k = ground arith
