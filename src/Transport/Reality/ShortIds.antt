-- ===== src/Transport/Reality/ShortIds.antt =====
-- Short IDs of Reality, and the same texts as the traffic short IDs of UpdateConfig.
use vgate_server.Base.{
  ℕ, ◌+◌, ◌-◌, ◌*◌, ◌≡◌, ◌≢◌, refl, ◌∙◌, inl, inr, [], ◌∷◌, ◌++◌, Option, none, some, Option-cases,
  false, ◌&&◌, leb, ltb, if◌then◌else◌, ◌>>=◌, arith, length, replicate, All,
}
use vgate_server.Base.Text.{Bytes, bytes_key}
use vgate_server.Vless.Protocol.{hex_decode, hex_digit, length-hex_decode}
use vgate_server.Vless.Config.Keys.{trim_left, trim_right, to_lower, is_space, pad_sid, sid_key}
use vgate_server.Transport.Settings.{short_id_too_long, ok, bad}
use vgate_server.Transport.Reality.{short_id}

-- Case does not matter to a hexadecimal digit.
hex_digit-lower : (c : ℕ) → hex_digit (if leb b'A' c && leb c b'Z' then c + 32 else c) ≡ hex_digit c
unfolding hex_digit
hex_digit-lower c = ground arith

hex_decode-to_lower : (s : Bytes) → hex_decode (to_lower s) ≡ hex_decode s
unfolding hex_decode to_lower
hex_decode-to_lower [] = refl
hex_decode-to_lower (c ∷ []) = refl
hex_decode-to_lower (c ∷ d ∷ s) = rw (hex_digit-lower c, hex_digit-lower d, hex_decode-to_lower s)

digit_plain : (c v : ℕ) → hex_digit c ≡ some v → is_space c ≡ false
unfolding hex_digit
digit_plain c v h = ground arith

-- Two digits and the rest are all there if they make bytes.
byte_lem :
    (a b : Option ℕ) (r : Option Bytes) (bs : Bytes)
    → (do hi ← a; lo ← b; rest ← r; some ((hi * 16 + lo) ∷ rest)) ≡ some bs
    → (hi : ℕ) × (lo : ℕ) × (rest : Bytes) × (a ≡ some hi) × (b ≡ some lo) × (r ≡ some rest)
byte_lem none b r bs h = cc
byte_lem (some hi) none r bs h = cc
byte_lem (some hi) (some lo) none bs h = cc
byte_lem (some hi) (some lo) (some rest) bs h = (hi, lo, rest, refl, refl, refl)

-- Text that is decoded has no white space.
hex_decode-plain : (s bs : Bytes) → hex_decode s ≡ some bs → All (λ c. is_space c ≡ false) s
unfolding hex_decode
hex_decode-plain [] bs h = tt
hex_decode-plain (c ∷ []) bs h = cc
hex_decode-plain (c ∷ d ∷ s) bs h =
    let (hi, lo, rest, first, second, others) =
      byte_lem (hex_digit c) (hex_digit d) (hex_decode s) bs h in
    (digit_plain c hi first, (digit_plain d lo second, hex_decode-plain s rest others))

trim_left_lem : (s : Bytes) → All (λ c. is_space c ≡ false) s → trim_left s ≡ s
unfolding trim_left
trim_left_lem [] h = refl
trim_left_lem (c ∷ s) h = rw h.0

trim_right_lem : (s : Bytes) → All (λ c. is_space c ≡ false) s → trim_right s ≡ s
unfolding trim_right
trim_right_lem [] h = refl
trim_right_lem (c ∷ s) h = rw (h.0, trim_right_lem s h.1)

sid_key_of_decoded : (s bs : Bytes) → hex_decode s ≡ some bs → sid_key s ≡ pad_sid bs
unfolding sid_key
sid_key_of_decoded s bs h =
    let plain = hex_decode-plain s bs h in
    rw (trim_left_lem s plain, trim_right_lem s plain, hex_decode-to_lower s, h)

pad_lem :
    (b : ℕ) (bs sid : Bytes)
    → (if ltb 8 (length (b ∷ bs))
        then bad short_id_too_long
        else ok (b ∷ bs ++ replicate (8 - length (b ∷ bs)) 0))
      ≡ ok sid
    → pad_sid (b ∷ bs) ≡ some sid
unfolding pad_sid
pad_lem b bs sid h = ground arith

-- A short ID that Reality is configured with, unless it is empty, has the same bytes where
-- UpdateConfig maps it to a node, so that the traffic of its clients is found there.
pub sid_key-short_id : (s sid : Bytes) → s ≢ [] → short_id s ≡ ok sid → sid_key s ≡ some sid
unfolding short_id
sid_key-short_id [] sid some_text h = absurd (some_text refl)
sid_key-short_id (c ∷ s) sid some_text h = elim (Option-cases (hex_decode (c ∷ s))) [
  | inl wrong ↦ absurd (ground arith)
  | inr ([], right) ↦ absurd (omega (arith, length-hex_decode (c ∷ s) [] right))
  | inr (b ∷ bs, right) ↦
      sid_key_of_decoded (c ∷ s) (b ∷ bs) right ∙ pad_lem b bs sid (rw (right, short_id) at h)
]
