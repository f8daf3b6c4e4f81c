-- ===== src/Vless/Handler/Truncation.antt =====
-- A header that handler.go has read only in part: the second read stops at the address type, and the
-- address is taken from bytes of the buffer that were never read.
use vgate_server.Base.{
  ℕ, suc, ◌+◌, ◌-◌, ◌*◌, ◌<◌, ◌≤◌, ◌≡◌, ◌≢◌, refl, ap, [], ◌∷◌, ◌++◌, arith, length, length-append,
  append_assoc, append-nil, replicate, length-replicate, take, drop,
}
use vgate_server.Base.Text.{Bytes, bytes_key}
use vgate_server.Vless.Handler.Wire.{
  ok, Address, ipv4, domain, ipv6, byte_at, fixed, parse_address, parse_target, buffer, buffer_size,
}
use vgate_server.Vless.Handler.Requests.{Fits, address_type, address_body}
use vgate_server.Vless.Handler.Requests.Buffers.{byte_at_lem, byte_at_add, slice_within}

-- The address of a header of which only `part` of the body was read: `pre` is all before it.
module _ (pre part : Bytes) where
  abbrev read_so_far : Bytes
  read_so_far = pre ++ part

  abbrev zeros : Bytes
  zeros = replicate (buffer_size - length read_so_far) 0

  length-buffer : length read_so_far ≤ buffer_size → length (buffer read_so_far) ≡ buffer_size
  unfolding buffer
  length-buffer h = omega (
    arith,
    length-append read_so_far zeros,
    length-replicate {A = ℕ} (buffer_size - length read_so_far) 0,
  )

  fixed_past :
      (make : Bytes → Address) (size curr : ℕ)
      → length read_so_far ≤ buffer_size
      → curr + size ≤ buffer_size
      → (bytes : Bytes) × (fixed make size (buffer read_so_far) curr ≡ ok (make bytes, curr + size))
  unfolding fixed
  fixed_past make size curr h k = (
    take (curr + size - curr) (drop curr (buffer read_so_far)),
    rw (
        slice_within (buffer read_so_far) curr (curr + size) (omega arith)
          (omega (arith, length-buffer h))),
  )

nonempty : (xs : Bytes) → xs ≢ [] → 0 < length xs
nonempty [] h = absurd (h refl)
nonempty (x ∷ xs) h = omega arith

-- Part of a body is shorter than the body.
pub shorter : (part more body : Bytes) → part ++ more ≡ body → more ≢ [] → length part < length body
shorter part more body split rest =
    omega (arith, ap length split, length-append part more, nonempty more rest)

-- The first byte that was not read is zero.
zero_lem :
    (pre : Bytes) → length pre < buffer_size → byte_at (buffer (pre ++ [])) (length pre) ≡ ok 0
unfolding buffer
zero_lem pre h = rw append-nil (
    byte_at_lem (pre ++ replicate (buffer_size - length pre) 0) pre 0
      (replicate (buffer_size - length pre - 1) 0) (length pre)
      (ap (λ n. pre ++ replicate n 0) (one_more (buffer_size - length pre) (omega arith))) refl)
  where
    one_more : (n : ℕ) → 0 < n → n ≡ suc (n - 1)
    one_more n k = omega arith

-- Where the address of a partly read header ends is past what was read.
pub address_past :
    (pre part more : Bytes) (a : Address)
    → Fits a
    → part ++ more ≡ address_body a
    → more ≢ []
    → length pre + 256 < buffer_size
    → (b : Address) × (next : ℕ) × (parse_address
          (buffer (pre ++ part))
          (address_type a)
          (length pre)
        ≡ ok (b, next))
      × (length (pre ++ part) < next)
unfolding parse_address
address_past pre part more (ipv4 bytes) f split rest fits =
    let short = shorter part more bytes split rest in
    let size = length-append pre part in
    let (b, e) = fixed_past pre part ipv4 4 (length pre) (omega arith) (omega arith) in
    (ipv4 b, length pre + 4, e, omega arith)
address_past pre [] more (domain name) f split rest fits =
    let (b, e) =
      fixed_past pre [] domain 0 (length pre + 1) (omega (arith, length-append pre []))
        (omega arith) in
    (
      domain b,
      length pre + 1 + 0,
      rw (zero_lem pre (omega arith)) e,
      omega (arith, length-append pre []),
    )
address_past pre (size ∷ part) more (domain name) f split rest fits =
    let same : size ≡ length name = ground arith in
    let tail : part ++ more ≡ name = ground arith in
    let short = shorter part more name tail rest in
    let total = length-append pre (size ∷ part) in
    let there : byte_at (buffer (pre ++ size ∷ part)) (length pre) ≡ ok size =
      unfold buffer in
      byte_at_lem _ pre size _ (length pre) (append_assoc pre (size ∷ part) _) refl in
    let (b, e) =
      fixed_past pre (size ∷ part) domain size (length pre + 1) (omega arith) (omega arith) in
    (domain b, length pre + 1 + size, rw there e, omega arith)
address_past pre part more (ipv6 bytes) f split rest fits =
    let short = shorter part more bytes split rest in
    let size = length-append pre part in
    let (b, e) = fixed_past pre part ipv6 16 (length pre) (omega arith) (omega arith) in
    (ipv6 b, length pre + 16, e, omega arith)

module _ (pre : Bytes) (hi lo type : ℕ) (buf post : Bytes) (curr : ℕ) where
  -- The target behind a place where port and address type are there.
  pub target_from_address :
      (b : Address) (next : ℕ)
      → curr ≡ length pre
      → buf ≡ pre ++ (hi ∷ lo ∷ type ∷ post)
      → parse_address buf type (curr + 3) ≡ ok (b, next)
      → parse_target buf curr ≡ ok (record { address = b; port = hi * 256 + lo }, next)
  unfolding parse_target
  target_from_address b next c e address =
      let first : byte_at buf curr ≡ ok hi = byte_at_lem buf pre _ _ curr e c in
      let second : byte_at buf (curr + 1) ≡ ok lo = byte_at_add buf pre _ curr 1 e c in
      let third : byte_at buf (curr + 2) ≡ ok type = byte_at_add buf pre _ curr 2 e c in
      rw (first, second, third, address)
