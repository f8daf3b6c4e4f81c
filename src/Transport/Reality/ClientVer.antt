-- ===== src/Transport/Reality/ClientVer.antt =====
-- A version as it is written, part by part in decimal, is read back as its parts.
use vgate_server.Base.{
  ℕ, ◌+◌, ◌*◌, ◌/◌, ◌%◌, ◌<◌, ◌≡◌, refl, sym, ap, ◌∙◌, inl, inr, Bool-cases, append-nil, List, [],
  ◌∷◌, ◌++◌, ltb, if◌then◌else◌, arith, All,
}
use vgate_server.Base.Text.{Bytes}
use vgate_server.Transport.Reality.{client_ver_from, parse_client_ver}

-- A byte in decimal.
abbrev pub decimal : ℕ → Bytes
decimal n =
    if ltb n 10
    then (b'0' + n) ∷ []
    else if ltb n 100
    then (b'0' + n / 10) ∷ (b'0' + n % 10) ∷ []
    else (b'0' + n / 100) ∷ (b'0' + n / 10 % 10) ∷ (b'0' + n % 10) ∷ []

-- A version of at least one part.
abbrev pub written : ℕ → List ℕ → Bytes
written n [] = decimal n
written n (m ∷ ms) = decimal n ++ b'.' ∷ written m ms

one_digit :
    (n d c : ℕ) (s : Bytes)
    → d < 10
    → client_ver_from n ((b'0' + d) ∷ c ∷ s) ≡ client_ver_from (n * 10 + d) (c ∷ s)
unfolding client_ver_from
one_digit n d c s h = ground arith

last_digit : (n d : ℕ) → d < 10 → client_ver_from n ((b'0' + d) ∷ []) ≡ ((n * 10 + d) % 256) ∷ []
unfolding client_ver_from
last_digit n d h = ground arith

dot :
    (n c : ℕ) (s : Bytes) → client_ver_from n (b'.' ∷ c ∷ s) ≡ (n % 256) ∷ client_ver_from 0 (c ∷ s)
unfolding client_ver_from
dot n c s = refl

-- A decimal part at the end of the text.
last_part : (n : ℕ) → n < 256 → client_ver_from 0 (decimal n) ≡ n ∷ []
last_part n h = ground (
  arith,
  last_digit 0 n,
  one_digit 0 (n / 10) (b'0' + n % 10) [],
  last_digit (0 * 10 + n / 10) (n % 10),
  one_digit 0 (n / 100) (b'0' + n / 10 % 10) ((b'0' + n % 10) ∷ []),
  one_digit (0 * 10 + n / 100) (n / 10 % 10) (b'0' + n % 10) [],
  last_digit ((0 * 10 + n / 100) * 10 + n / 10 % 10) (n % 10),
)

-- A decimal part with another one behind it.
inner_part :
    (n c : ℕ) (s : Bytes)
    → n < 256
    → client_ver_from 0 (decimal n ++ b'.' ∷ c ∷ s) ≡ n ∷ client_ver_from 0 (c ∷ s)
inner_part n c s h = ground (
  arith,
  one_digit 0 n b'.' (c ∷ s),
  one_digit 0 (n / 10) (b'0' + n % 10) (b'.' ∷ c ∷ s),
  one_digit (0 * 10 + n / 10) (n % 10) b'.' (c ∷ s),
  one_digit 0 (n / 100) (b'0' + n / 10 % 10) ((b'0' + n % 10) ∷ b'.' ∷ c ∷ s),
  one_digit (0 * 10 + n / 100) (n / 10 % 10) (b'0' + n % 10) (b'.' ∷ c ∷ s),
  one_digit ((0 * 10 + n / 100) * 10 + n / 10 % 10) (n % 10) b'.' (c ∷ s),
  dot (0 * 10 + n) c s,
  dot ((0 * 10 + n / 10) * 10 + n % 10) c s,
  dot (((0 * 10 + n / 100) * 10 + n / 10 % 10) * 10 + n % 10) c s,
)

decimal-cons : (n : ℕ) (t : Bytes) → (c : ℕ) × (s : Bytes) × (decimal n ++ t ≡ c ∷ s)
decimal-cons n t = elim (Bool-cases (ltb n 10)) [
  | inl one ↦ (b'0' + n, t, rw one)
  | inr more ↦ elim (Bool-cases (ltb n 100)) [
    | inl two ↦ (b'0' + n / 10, (b'0' + n % 10) ∷ t, rw (more, two))
    | inr three ↦ (b'0' + n / 100, (b'0' + n / 10 % 10) ∷ (b'0' + n % 10) ∷ t, rw (more, three))
  ]
]

written-cons : (n : ℕ) (ms : List ℕ) → (c : ℕ) × (s : Bytes) × (written n ms ≡ c ∷ s)
written-cons n [] = let (c, s, e) = decimal-cons n [] in (c, s, sym (append-nil (decimal n)) ∙ e)
written-cons n (m ∷ ms) = decimal-cons n (b'.' ∷ written m ms)

client_ver_from-written :
    (n : ℕ) (ms : List ℕ) → All (λ b. b < 256) (n ∷ ms) → client_ver_from 0 (written n ms) ≡ n ∷ ms
client_ver_from-written n [] h = last_part n h.0
client_ver_from-written n (m ∷ ms) h =
    let (c, s, e) = written-cons m ms in
    ap (λ t. client_ver_from 0 (decimal n ++ b'.' ∷ t)) e
    ∙ inner_part n c s h.0
    ∙ ap (λ t. n ∷ t) (ap (client_ver_from 0) (sym e) ∙ client_ver_from-written m ms h.1)

-- A client version, its parts below 256 in decimal with dots between them, is parsed to its parts.
pub parse_client_ver-written :
    (n : ℕ) (ms : List ℕ) → All (λ b. b < 256) (n ∷ ms) → parse_client_ver (written n ms) ≡ n ∷ ms
unfolding parse_client_ver
parse_client_ver-written n ms h =
    let (c, s, e) = written-cons n ms in
    ap parse_client_ver e ∙ ap (client_ver_from 0) (sym e) ∙ client_ver_from-written n ms h
