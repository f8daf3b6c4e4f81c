-- ===== src/Vless/Handler/Requests.antt =====
-- Requests as a client writes them, and how handler.go reads them.
pub mod Buffers
use Buffers.{byte_at_lem, byte_at_add, slice_lem, slice_short, read_whole}
use vgate_server.Base.{
  ℕ, ◌+◌, ◌-◌, ◌*◌, ◌/◌, ◌%◌, ◌<◌, ◌≤◌, ◌≡◌, ◌≢◌, refl, sym, ap, ◌∙◌, List, [], ◌∷◌, ◌++◌, Option,
  none, some, Bool, true, false, arith, length, length-append, append_assoc, replicate,
}
use vgate_server.Base.Text.{Bytes}
use vgate_server.Vless.Handler.Wire.{
  Step, ok, Address, ipv4, domain, ipv6, Destination, byte_at, slice, fixed, parse_address,
  parse_target, ◌>>=◌,
}

abbrev pub address_type : Address → ℕ
address_type (ipv4 bytes) = 1
address_type (domain name) = 2
address_type (ipv6 bytes) = 3

abbrev pub address_body : Address → Bytes
address_body (ipv4 bytes) = bytes
address_body (domain name) = length name ∷ name
address_body (ipv6 bytes) = bytes

abbrev pub Fits : Address → Type 0
Fits (ipv4 bytes) = length bytes ≡ 4
Fits (domain name) = length name < 256
Fits (ipv6 bytes) = length bytes ≡ 16

-- A target as the client writes it.
abbrev pub encode_target : Destination → Bytes
encode_target d = (d.port / 256) ∷ (d.port % 256) ∷ address_type d.address ∷ address_body d.address

module _ (pre post buf : Bytes) (curr : ℕ) (c : curr ≡ length pre) where
  fixed_lem :
      (make : Bytes → Address) (bytes : Bytes) (size : ℕ)
      → size ≡ length bytes
      → buf ≡ pre ++ (bytes ++ post)
      → fixed make size buf curr ≡ ok (make bytes, curr + size)
  unfolding fixed
  fixed_lem make bytes size z b =
      rw (slice_lem buf pre bytes post curr (curr + size) b c (omega arith))

parse_address_lem :
    (pre post buf : Bytes) (curr : ℕ) (a : Address)
    → curr ≡ length pre
    → Fits a
    → buf ≡ pre ++ (address_body a ++ post)
    → parse_address buf (address_type a) curr ≡ ok (a, curr + length (address_body a))
unfolding parse_address
parse_address_lem pre post buf curr (ipv4 bytes) c f b =
    fixed_lem pre post buf curr c ipv4 bytes 4 (sym f) b ∙ rw f
parse_address_lem pre post buf curr (domain name) c f b =
    rw (byte_at_lem buf pre (length name) (name ++ post) curr b c) (
      rw
        (fixed_lem (pre ++ length name ∷ []) post buf (curr + 1)
          (omega (arith, length-append pre (length name ∷ []))) domain name (length name) refl
          (b ∙ sym (append_assoc pre (length name ∷ []) (name ++ post))))
        (ap (λ n. ok (domain name, n)) (omega arith)))
parse_address_lem pre post buf curr (ipv6 bytes) c f b =
    fixed_lem pre post buf curr c ipv6 bytes 16 (sym f) b ∙ rw f

-- A target that is all there is read as it was written.
pub parse_target_lem :
    (pre post buf : Bytes) (curr : ℕ) (d : Destination)
    → curr ≡ length pre
    → Fits d.address
    → buf ≡ pre ++ (encode_target d ++ post)
    → parse_target buf curr ≡ ok (d, curr + length (encode_target d))
unfolding parse_target
parse_target_lem pre post buf curr d c f b =
    let front : Bytes = (d.port / 256) ∷ (d.port % 256) ∷ address_type d.address ∷ [] in
    let hi : byte_at buf curr ≡ ok (d.port / 256) = byte_at_lem buf pre _ _ curr b c in
    let lo : byte_at buf (curr + 1) ≡ ok (d.port % 256) = byte_at_add buf pre _ curr 1 b c in
    let type : byte_at buf (curr + 2) ≡ ok (address_type d.address) =
      byte_at_add buf pre _ curr 2 b c in
    let address =
      parse_address_lem (pre ++ front) post buf (curr + 3) d.address
        (omega (arith, length-append pre front)) f
        (b ∙ sym (append_assoc pre front (address_body d.address ++ post))) in
    rw (hi, lo, type, address) (ground arith)
