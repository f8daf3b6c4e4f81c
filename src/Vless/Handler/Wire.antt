-- ===== src/Vless/Handler/Wire.antt =====
-- Reads into the 512-byte buffer of handler.go, and the target that the header names.
use vgate_server.Base.{
  ℕ, ◌+◌, ◌-◌, ◌*◌, List, [], ◌∷◌, ◌++◌, Option, none, some, Bool, true, ltb, ◌==◌, length,
  if◌then◌else◌, take, drop, replicate, get_elem?,
}
use vgate_server.Base.Text.{Bytes}
use vgate_server.Vless.Protocol.{addr_type_ipv4, addr_type_domain, addr_type_ipv6}

-- Why a connection is dropped.
pub data Reason : Type 0 where
  handshake_failed bad_read bad_version unknown_user over_quota bad_addons short_header : Reason
  vision_not_allowed vision_with_decryption mux_disabled bad_command bad_address : Reason
  vision_udp write_failed : Reason

-- A computation that may return early or panic on an index out of range.
pub data Step {ℓ} (A : Type ℓ) : Type ℓ where
  ok : A → Step A
  reject : Reason → Step A
  panic : Step A

infixl 5 ◌>>=◌ ◌>>◌
abbrev pub ◌>>=◌ {ℓ κ} : {A : Type ℓ} {B : Type κ} → Step A → (A → Step B) → Step B
ok a >>= f = f a
reject r >>= f = reject r
panic >>= f = panic

abbrev pub ◌>>◌ {ℓ} : {B : Type ℓ} → Step (Unit {0}) → Step B → Step B
m >> k = m >>= λ _. k

-- What io.ReadAtLeast read: all bytes, the size of each Read, whether they suffice, and what the
-- connection still delivers.
pub record Reading : Type 0 where
  pub got : Bytes
  pub sizes : List ℕ
  pub enough : Bool
  pub rest : List Bytes

abbrev pub unread : Bytes → List Bytes → List Bytes
unread [] cs = cs
unread (b ∷ bs) cs = (b ∷ bs) ∷ cs

-- io.ReadAtLeast(conn, buf, min) with `room` bytes of buffer: one Read after the other, each of at
-- most the room left, until `min` bytes are there or the connection ends.
unfoldable pub read_at_least : ℕ → ℕ → List Bytes → Reading
read_at_least min room [] = record { got = []; sizes = []; enough = min == 0; rest = [] }
read_at_least min room (c ∷ cs) =
    let part = take room c in
    let more = read_at_least (min - length part) (room - length part) cs in
    if min == 0 then record { got = []; sizes = []; enough = true; rest = c ∷ cs } else record {
      got = part ++ more.got;
      sizes = length part ∷ more.sizes;
      enough = more.enough;
      rest = unread (drop room c) more.rest;
    }

abbrev pub buffer_size : ℕ
buffer_size = 512

-- `make([]byte, 512)` after the bytes have been read into it.
unfoldable pub buffer : Bytes → Bytes
buffer got = got ++ replicate (buffer_size - length got) 0

abbrev pub or_panic {ℓ} : {A : Type ℓ} → Option A → Step A
or_panic none = panic
or_panic (some a) = ok a

-- buf[i]
unfoldable pub byte_at : Bytes → ℕ → Step ℕ
byte_at buf i = or_panic (get_elem? buf i)

-- buf[lo:hi]
unfoldable pub slice : Bytes → ℕ → ℕ → Step Bytes
slice buf lo hi =
    if ltb (length buf) hi
    then panic
    else if ltb hi lo
    then panic
    else ok (take (hi - lo) (drop lo buf))

-- The address of a target. Its text form (net.IP's String, net.JoinHostPort) is the standard
-- library's, and is not modelled.
pub data Address : Type 0 where
  ipv4 domain ipv6 : Bytes → Address

pub record Destination : Type 0 where
  pub address : Address
  pub port : ℕ

-- An address of a fixed length, and the place behind it.
unfoldable pub fixed : (Bytes → Address) → ℕ → Bytes → ℕ → Step (Address × ℕ)
fixed make size buf curr = do bytes ← slice buf curr (curr + size); ok (make bytes, curr + size)

unfoldable pub parse_address : Bytes → ℕ → ℕ → Step (Address × ℕ)
parse_address buf type curr =
    if type == addr_type_ipv4
    then fixed ipv4 4 buf curr
    else if type == addr_type_domain
    then (do size ← byte_at buf curr; fixed domain size buf (curr + 1))
    else if type == addr_type_ipv6
    then fixed ipv6 16 buf curr
    else reject bad_address

-- Port (big endian), address type and address.
unfoldable pub parse_target : Bytes → ℕ → Step (Destination × ℕ)
parse_target buf curr = do
  hi ← byte_at buf curr
  lo ← byte_at buf (curr + 1)
  type ← byte_at buf (curr + 2)
  (address, curr') ← parse_address buf type (curr + 3)
  ok (record { address = address; port = hi * 256 + lo }, curr')
