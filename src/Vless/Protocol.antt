-- ===== src/Vless/Protocol.antt =====
-- proxy/vless/protocol.go: the constants of the wire format, and the UUID of a user.
-- `hex.DecodeString` of the standard library takes digits of both cases.
mod Hex
unfoldable pub use Hex.{hex_digit, hex_decode, hex_encode}
pub use Hex.{hex_decode-hex_encode, length-hex_decode, length-hex_encode, hex_char_lem}
use vgate_server.Base.{
  ℕ, ◌<◌, ◌≡◌, ◌*◌, ◌/◌, ◌%◌, refl, arith, All, List, [], ◌∷◌, Option, none, some, Bool, true,
  false, ◌+◌, ◌==◌, if◌then◌else◌, length,
}
use vgate_server.Base.Text.{Bytes}

abbrev pub version : ℕ
version = 0

abbrev pub cmd_tcp : ℕ
cmd_tcp = 1

abbrev pub cmd_udp : ℕ
cmd_udp = 2

abbrev pub cmd_mux : ℕ
cmd_mux = 3

abbrev pub addr_type_ipv4 : ℕ
addr_type_ipv4 = 1

abbrev pub addr_type_domain : ℕ
addr_type_domain = 2

abbrev pub addr_type_ipv6 : ℕ
addr_type_ipv6 = 3

-- strings.ReplaceAll(s, "-", "")
unfoldable pub without_dashes : Bytes → Bytes
without_dashes [] = []
without_dashes (c ∷ s) = let rest = without_dashes s in if c == b'-' then rest else c ∷ rest

-- ParseUUID; `none` stands for each of its errors
unfoldable pub parse_uuid : Bytes → Option Bytes
unfolding without_dashes hex_decode
parse_uuid s =
    let digits = without_dashes s in if length digits == 32 then hex_decode digits else none

without_dashes-hex_encode :
    (bs : Bytes) → All (λ b. b < 256) bs → without_dashes (hex_encode bs) ≡ hex_encode bs
unfolding without_dashes hex_encode
without_dashes-hex_encode [] h = refl
without_dashes-hex_encode (b ∷ bs) h =
    ground (arith, hex_char_lem (b / 16), hex_char_lem (b % 16), without_dashes-hex_encode bs h.1)

-- The 32 hexadecimal digits of a UUID's 16 bytes are parsed to these bytes.
parse_uuid-hex_encode :
    (bs : Bytes) → All (λ b. b < 256) bs → length bs ≡ 16 → parse_uuid (hex_encode bs) ≡ some bs
unfolding parse_uuid
parse_uuid-hex_encode bs h size =
    rw (without_dashes-hex_encode bs h, length-hex_encode bs, size) (hex_decode-hex_encode bs h)

checked :
    (b : Bool) (o : Option Bytes) (bs : Bytes)
    → (if b then o else none) ≡ some bs
    → (b ≡ true) × (o ≡ some bs)
checked true o bs h = (refl, h)
checked false o bs h = absurd (ground arith)

-- Whatever text is parsed, a UUID has 16 bytes.
pub length-parse_uuid : (s bs : Bytes) → parse_uuid s ≡ some bs → length bs ≡ 16
unfolding parse_uuid
length-parse_uuid s bs h =
    let digits = without_dashes s in
    let (long, decoded) = checked (length digits == 32) (hex_decode digits) bs h in
    halve (length digits) (length bs) long (length-hex_decode digits bs decoded)
  where
    halve : (n m : ℕ) → (n == 32) ≡ true → n ≡ m + m → m ≡ 16
    halve n m h k = ground arith
