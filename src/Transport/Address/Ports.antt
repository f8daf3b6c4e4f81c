-- ===== src/Transport/Address/Ports.antt =====
-- The address of Start, a colon and the port, where it goes to xray-core.
use vgate_server.Base.{
  ℕ, zero, suc, ◌+◌, ◌-◌, ◌*◌, ◌/◌, ◌%◌, ◌^◌, ◌<◌, ◌≤◌, ◌≡◌, refl, ap, ◌∙◌, inl, inr, [], ◌∷◌, none,
  some, false, ◌==◌, ltb, if◌then◌else◌, arith, length, Bool-cases, All,
}
use vgate_server.Base.Int.{pos}
use vgate_server.Base.Text.{Bytes, codes, bytes_eq}
use vgate_server.Transport.Address.{
  XrayAddress, ip, domain, XrayNet, parse_xray_address, index_of, last_index_of, split_at_colon,
  split_host_port, number_from, digits, atoi, port_of, parse_addr_port,
}

-- The address that xray-core listens on is never a domain, for which it would panic.
pub parse_xray_address_is_ip :
    (net : XrayNet) (host : Bytes) → (bytes : Bytes) × (parse_xray_address net host ≡ ip bytes)
unfolding parse_xray_address
parse_xray_address_is_ip net host = go (net.parse_address host) refl
  where
    go :
        (a : XrayAddress)
        → net.parse_address host ≡ a
        → (bytes : Bytes) × (parse_xray_address net host ≡ ip bytes)
    go (ip bytes) e = (bytes, rw (e, parse_xray_address))
    go (domain name) e = (
      if bytes_eq host (codes "localhost") then net.local_host_ip else net.any_ip,
      rw (e, parse_xray_address),
    )

-- strconv.Itoa, least digit last.
unfoldable pub itoa_from : ℕ → ℕ → Bytes → Bytes
itoa_from zero n s = s
itoa_from (suc f) n s =
    let rest = itoa_from f (n / 10) ((b'0' + n % 10) ∷ s) in
    if ltb n 10 then (b'0' + n) ∷ s else rest

unfoldable pub itoa : ℕ → Bytes
unfolding itoa_from
itoa n = itoa_from (suc n) n []

next_digit : (n : ℕ) (s : Bytes) → number_from (n / 10) ((b'0' + n % 10) ∷ s) ≡ number_from n s
unfolding number_from
next_digit n s =
    let same : n / 10 * 10 + (b'0' + n % 10 - b'0') ≡ n = omega arith in
    ground (arith, ap (λ t. number_from t s) same)

number_from-itoa_from :
    (f n : ℕ) (s : Bytes) → n < f → number_from 0 (itoa_from f n s) ≡ number_from n s
unfolding number_from itoa_from
number_from-itoa_from zero n s h = absurd (omega arith)
number_from-itoa_from (suc f) n s h = elim (Bool-cases (ltb n 10)) [
  | inl one ↦ rw one (ground arith)
  | inr more ↦
      rw more
        (number_from-itoa_from f (n / 10) ((b'0' + n % 10) ∷ s) (ground arith) ∙ next_digit n s)
]

abbrev IsDigit : ℕ → Type 0
IsDigit c = (b'0' ≤ c) × (c ≤ b'9')

itoa_from-IsDigit : (f n : ℕ) (s : Bytes) → All IsDigit s → All IsDigit (itoa_from f n s)
unfolding itoa_from
itoa_from-IsDigit zero n s h = h
itoa_from-IsDigit (suc f) n s h = elim (Bool-cases (ltb n 10)) [
  | inl one ↦ rw one ((omega arith, ground arith), h)
  | inr more ↦
      rw more (itoa_from-IsDigit f (n / 10) ((b'0' + n % 10) ∷ s) ((omega arith, omega arith), h))
]

index_of_absent : (c : ℕ) (s : Bytes) → b'9' < c → All IsDigit s → index_of c s ≡ none
unfolding index_of
index_of_absent c [] g h = refl
index_of_absent c (d ∷ s) g h = ground (arith, index_of_absent c s g h.1)

last_index_of_absent : (c : ℕ) (s : Bytes) → b'9' < c → All IsDigit s → last_index_of c s ≡ none
unfolding last_index_of
last_index_of_absent c [] g h = refl
last_index_of_absent c (d ∷ s) g h = ground (arith, last_index_of_absent c s g h.1)

split_lem : (s : Bytes) → All IsDigit s → split_host_port (b':' ∷ s) ≡ some ([], s)
unfolding split_host_port
split_lem s h =
    let colon : last_index_of b':' (b':' ∷ s) ≡ some 0 =
      unfold last_index_of in rw (last_index_of_absent b':' s (omega arith) h) in
    let open_ : index_of b'[' (b':' ∷ s) ≡ none =
      unfold index_of in rw (index_of_absent b'[' s (omega arith) h) in
    let close : index_of b']' (b':' ∷ s) ≡ none =
      unfold index_of in rw (index_of_absent b']' s (omega arith) h) in
    rw colon (unfold split_at_colon in rw (open_, close) (unfold index_of in refl))

atoi_lem :
    (c n : ℕ) (s : Bytes)
    → IsDigit c
    → n < 2 ^ 63
    → digits (c ∷ s) ≡ some n
    → atoi (c ∷ s) ≡ some (pos n)
unfolding atoi
atoi_lem c n s d small h =
    let minus : (c == b'-') ≡ false = ground arith in
    let plus : (c == b'+') ≡ false = ground arith in
    let fits : ltb (2 ^ 63 - 1) n ≡ false = ground arith in rw (minus, plus, h, fits)

itoa_from_grows : (f n : ℕ) (s : Bytes) → n < f → length s < length (itoa_from f n s)
unfolding itoa_from
itoa_from_grows zero n s h = absurd (omega arith)
itoa_from_grows (suc f) n s h = elim (Bool-cases (ltb n 10)) [
  | inl one ↦ rw one (omega arith)
  | inr more ↦
      let later = itoa_from_grows f (n / 10) ((b'0' + n % 10) ∷ s) (ground arith) in
      rw more (omega (arith, later))
]

number_lem :
    (s : Bytes) (n : ℕ)
    → All IsDigit s
    → 0 < length s
    → n < 2 ^ 63
    → number_from 0 s ≡ some n
    → atoi s ≡ some (pos n)
number_lem [] n d g small h = absurd (omega arith)
number_lem (c ∷ s) n d g small h = atoi_lem c n s d.0 small (unfold digits in h)

atoi-itoa : (n : ℕ) → n < 2 ^ 63 → atoi (itoa n) ≡ some (pos n)
unfolding itoa
atoi-itoa n small =
    number_lem (itoa_from (suc n) n []) n (itoa_from-IsDigit (suc n) n [] tt)
      (itoa_from_grows (suc n) n [] (omega arith)) small
      (number_from-itoa_from (suc n) n [] (omega arith) ∙ unfold number_from in refl)

-- Start's address for a port, where it goes to xray-core, is read as no host and the lowest 16 bits
-- of the port: a port out of range is another port there.
pub parse_addr_port-itoa :
    (net : XrayNet) (n : ℕ)
    → n < 2 ^ 63
    → parse_addr_port net (b':' ∷ itoa n) ≡ some (parse_xray_address net [], n % 2 ^ 16)
unfolding parse_addr_port port_of
parse_addr_port-itoa net n small =
    rw (split_lem (itoa n) (unfold itoa in itoa_from-IsDigit (suc n) n [] tt), atoi-itoa n small)
