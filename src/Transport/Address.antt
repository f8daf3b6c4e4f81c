-- ===== src/Transport/Address.antt =====
-- transport/xraybridge/bridge.go: the address that xray-core listens on. net.SplitHostPort and
-- strconv.Atoi are the standard library's.
pub mod Ports
use vgate_server.Base.{
  ℕ, zero, suc, not, ◌+◌, ◌-◌, ◌*◌, ◌%◌, ◌^◌, List, [], ◌∷◌, ◌++◌, Option, none, some, Bool, true,
  false, ◌&&◌, ◌||◌, ◌==◌, leb, ltb, if◌then◌else◌, ◌>>=◌, length, take, drop,
}
use vgate_server.Base.Int.{ℤ, pos, negsuc}
use vgate_server.Base.Text.{Bytes, codes, bytes_eq}

-- xnet.Address
pub data XrayAddress : Type 0 where
  ip : Bytes → XrayAddress
  domain : Bytes → XrayAddress

-- What the code takes from xray-core's net package.
pub record XrayNet : Type 0 where
  pub parse_address : Bytes → XrayAddress
  pub any_ip : Bytes
  pub local_host_ip : Bytes

-- ParseXrayAddress
unfoldable pub parse_xray_address : XrayNet → Bytes → XrayAddress
parse_xray_address net host = elim (net.parse_address host) [
  | ip bytes ↦ ip bytes
  | domain name ↦ ip (if bytes_eq host (codes "localhost") then net.local_host_ip else net.any_ip)
]

-- The place of the first such byte, and of the last.
unfoldable pub index_of : ℕ → Bytes → Option ℕ
index_of c [] = none
index_of c (d ∷ s) =
    let later = index_of c s in if d == c then some 0 else (do i ← later; some (i + 1))

unfoldable pub last_index_of : ℕ → Bytes → Option ℕ
last_index_of c [] = none
last_index_of c (d ∷ s) = elim (last_index_of c s) [
  | some i ↦ some (i + 1)
  | none ↦ if d == c then some 0 else none
]

abbrev pub is_some : {A : Type 0} → Option A → Bool
is_some none = false
is_some (some a) = true

abbrev pub starts_with : ℕ → Bytes → Bool
starts_with c [] = false
starts_with c (d ∷ s) = d == c

-- net.SplitHostPort, `i` being the place of the last colon: with the host in brackets that end at
-- `close`, and in general.
unfoldable pub split_brackets : Bytes → ℕ → ℕ → Option (Bytes × Bytes)
unfolding index_of
split_brackets s i close =
    if (close + 1) == i
      && not (is_some (index_of b'[' (drop 1 s)))
      && not (is_some (index_of b']' (drop (close + 1) s)))
    then some (drop 1 (take close s), drop (i + 1) s)
    else none

unfoldable pub split_at_colon : Bytes → ℕ → Option (Bytes × Bytes)
unfolding index_of split_brackets
split_at_colon s i =
    if starts_with b'[' s
    then (do close ← index_of b']' s; split_brackets s i close)
    else if is_some (index_of b':' (take i s))
        || is_some (index_of b'[' s)
        || is_some (index_of b']' s)
    then none
    else some (take i s, drop (i + 1) s)

unfoldable pub split_host_port : Bytes → Option (Bytes × Bytes)
unfolding split_at_colon last_index_of
split_host_port s = do i ← last_index_of b':' s; split_at_colon s i

-- The digits of a number, most significant first; `none` for any other byte.
unfoldable pub number_from : ℕ → Bytes → Option ℕ
number_from n [] = some n
number_from n (c ∷ s) =
    if leb b'0' c && leb c b'9' then number_from (n * 10 + (c - b'0')) s else none

unfoldable pub digits : Bytes → Option ℕ
unfolding number_from
digits [] = none
digits (c ∷ s) = number_from 0 (c ∷ s)

abbrev pub at_most : ℕ → ℕ → Option ℕ
at_most bound n = if ltb bound n then none else some n

abbrev pub negated : ℕ → ℤ
negated zero = pos 0
negated (suc n) = negsuc n

-- strconv.Atoi
unfoldable pub atoi : Bytes → Option ℤ
unfolding digits
atoi [] = none
atoi (c ∷ s) =
    if c == b'-'
    then (do n ← digits s; m ← at_most (2 ^ 63) n; some (negated m))
    else (do n ← digits (if c == b'+' then s else c ∷ s); m ← at_most (2 ^ 63 - 1) n; some (pos m))

-- xnet.Port(n), a uint16
unfoldable pub port_of : ℤ → ℕ
port_of (pos n) = n % 2 ^ 16
port_of (negsuc n) = 2 ^ 16 - 1 - n % 2 ^ 16

-- ParseAddrPort
unfoldable pub parse_addr_port : XrayNet → Bytes → Option (XrayAddress × ℕ)
unfolding split_host_port atoi
parse_addr_port net addr = do
  (host, port_str) ← split_host_port addr
  port ← atoi port_str
  some (parse_xray_address net host, port_of port)
