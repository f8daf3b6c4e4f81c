-- ===== src/Vless/Mux/Session.antt =====
-- What the UDP socket of a Mux session sends and receives, and which socket it is.
use vgate_server.Base.{
  ◌∙◌, ℕ, ◌≡◌, ◌≢◌, ◌≤◌, ◌<◌, ◌^◌, ◌%◌, refl, ap, sym, arith, zero, suc, List, [], ◌∷◌, Option,
  none, some, true, false, inl, inr, ◌⊎◌, if_pos, if_neg, length, take, map, All, Option-cases,
  ◌>>=◌,
}
use mathlib.Core.Option.{some-injective}
use vgate_server.Base.Text.{Bytes, Bytes-discrete}
use vgate_server.Vless.Mux.{
  UdpAddr, to4, Family, udp4, udp6, udp, MuxDestination, Dialer, listen_family, Target, full_cone,
  open_udp, dispatch, buf_size, Datagram, read_packet, full_cone_write, Event, frame, arrives,
  session,
}

-- An arriving datagram fits the buffer, and its port is one.
abbrev pub Fits : Event → Type 0
Fits (frame b) = Unit
Fits (arrives d) = (length d.payload ≤ buf_size) × (d.peer.port < 2 ^ 16)

abbrev pub frames : List Event → List Bytes
frames [] = []
frames (frame b ∷ evs) = b ∷ frames evs
frames (arrives d ∷ evs) = frames evs

abbrev pub arrivals : List Event → List Datagram
arrivals [] = []
arrivals (frame b ∷ evs) = arrivals evs
arrivals (arrives d ∷ evs) = d ∷ arrivals evs

take_all : (n : ℕ) (bs : Bytes) → length bs ≤ n → take n bs ≡ bs
take_all zero [] h = refl
take_all zero (b ∷ bs) h = absurd (ground arith)
take_all (suc n) [] h = refl
take_all (suc n) (b ∷ bs) h = ap (λ t. b ∷ t) (take_all n bs (omega arith))

port_lem : (p : ℕ) → p < 2 ^ 16 → p % 2 ^ 16 ≡ p
port_lem p h = omega arith

read_packet-Fits : (d : Datagram) → Fits (arrives d) → read_packet d ≡ d
unfolding read_packet
read_packet-Fits d (short, port) =
    rw (take_all buf_size d.payload short, port_lem d.peer.port port) refl

-- If the arriving datagrams fit the buffer, a session sends each frame of the client to the
-- session's destination, and reads each datagram with its source and its bytes, from whatever
-- address it comes, both in their order.
pub session_keeps :
    (dest : UdpAddr) (evs : List Event)
    → All Fits evs
    → session dest evs ≡ (map (full_cone_write dest) (frames evs), arrivals evs)
unfolding session
session_keeps dest [] h = refl
session_keeps dest (frame b ∷ evs) (fits, rest) = rw (session_keeps dest evs rest) refl
session_keeps dest (arrives d ∷ evs) (fits, rest) =
    rw (session_keeps dest evs rest, read_packet-Fits d fits) refl

-- A socket of this family can send to this address: an IPv6 socket to an IP without a form of four
-- bytes, an IPv4 socket to one that has such a form, or to no IP.
abbrev pub Reaches : Family → UdpAddr → Type 0
Reaches udp4 ua = (ua.ip ≡ []) ⊎ ((four : Bytes) × (to4 ua.ip ≡ some four))
Reaches udp6 ua = (ua.ip ≢ []) × (to4 ua.ip ≡ none)

listen_family-Reaches : (ua : UdpAddr) → Reaches (listen_family ua) ua
unfolding listen_family
listen_family-Reaches ua = elim (Bytes-discrete ua.ip []) [
  | yes nil ↦ rw (if_pos (Bytes-discrete ua.ip []) nil true false) (inl nil)
  | no given ↦ elim (Option-cases (to4 ua.ip)) [
    | inl long ↦ rw (if_neg (Bytes-discrete ua.ip []) given true false, long) (given, long)
    | inr (four, short) ↦
        rw (if_neg (Bytes-discrete ua.ip []) given true false, short) (inr (four, short))
  ]
]

-- The target is a socket for the address that the text resolves to, of a family that can send there.
abbrev pub Opened : Dialer → Bytes → Target → Type 0
Opened d net_addr t =
    (sock : ℕ) × (fam : Family) × (ua : UdpAddr) × (t ≡ full_cone sock fam ua)
    × (d.resolve net_addr ≡ some ua)
    × (d.listen_udp fam ≡ some sock)
    × Reaches fam ua

abbrev full_cone? : UdpAddr → ℕ → Option Target
full_cone? ua socket = some (full_cone socket (listen_family ua) ua)

not_none : {A : Type 0} {a : A} → none ≢ some a
not_none h = cc

opened_lem :
    (d : Dialer) (net_addr : Bytes) (ua : UdpAddr) (t : Target)
    → d.resolve net_addr ≡ some ua
    → open_udp d ua ≡ some t
    → Opened d net_addr t
unfolding open_udp
opened_lem d net_addr ua t known h = elim (Option-cases (d.listen_udp (listen_family ua))) [
  | inl refused ↦ absurd (not_none (sym (ap (λ o. o >>= full_cone? ua) refused) ∙ h))
  | inr (sock, bound) ↦ (
    sock,
    listen_family ua,
    ua,
    some-injective _ _ (sym h ∙ ap (λ o. o >>= full_cone? ua) bound),
    known,
    bound,
    listen_family-Reaches ua,
  )
]

udp_branch :
    (d : Dialer) (net_addr : Bytes) (t : Target)
    → dispatch d (record { network = udp; net_addr = net_addr }) ≡ some t
    → Opened d net_addr t
unfolding dispatch
udp_branch d net_addr t h = elim (Option-cases (d.resolve net_addr)) [
  | inl unknown ↦ absurd (not_none (sym (ap (λ o. o >>= open_udp d) unknown) ∙ h))
  | inr (ua, known) ↦ opened_lem d net_addr ua t known (sym (ap (λ o. o >>= open_udp d) known) ∙ h)
]

-- If a session with a UDP destination gets a target, then the target is a socket for the address that the
-- destination resolves to, of a family that can send there.
dispatch_udp :
    (d : Dialer) (dest : MuxDestination) (t : Target)
    → dest.network ≡ udp
    → dispatch d dest ≡ some t
    → Opened d dest.net_addr t
dispatch_udp d dest t at h = udp_branch d dest.net_addr t (rw (sym at) h)
