-- ===== src/Vless/Mux.antt =====
-- proxy/vless/mux.go: dialDispatcher, which opens the target of one Mux session, and the UDP socket
-- of a session. xray-core's worker and its pipes carry the bytes between them.
pub mod Session
pub mod Link
use vgate_server.Base.{
  ℕ, ◌==◌, ◌%◌, ◌^◌, List, [], ◌∷◌, ◌++◌, Option, none, some, Bool, true, false, ◌&&◌, not, ◌>>=◌,
  if◌then◌else◌, take, drop, length,
}
use vgate_server.Base.Text.{Bytes, bytes_eq}

-- net.UDPAddr; no bytes are a nil IP.
pub record UdpAddr : Type 0 where
  pub ip : Bytes
  pub port : ℕ

-- net.IP.To4: the four bytes of an IPv4 address, also of one in an IPv6 address
unfoldable pub to4 : Bytes → Option Bytes
to4 ip =
    if length ip == 4
    then some ip
    else if (length ip == 16)
        && bytes_eq (take 12 ip) (0 ∷ 0 ∷ 0 ∷ 0 ∷ 0 ∷ 0 ∷ 0 ∷ 0 ∷ 0 ∷ 0 ∷ 255 ∷ 255 ∷ [])
    then some (drop 12 ip)
    else none

abbrev pub is_none {ℓ} : {A : Type ℓ} → Option A → Bool
is_none none = true
is_none (some a) = false

-- "udp4" and "udp6"
pub data Family : Type 0 where
  udp4 : Family
  udp6 : Family

pub data Network : Type 0 where
  tcp : Network
  udp : Network

-- The network and the NetAddr of xray-core's Destination.
pub record MuxDestination : Type 0 where
  pub network : Network
  pub net_addr : Bytes

-- net.ResolveUDPAddr, net.ListenUDP on the wildcard address of a family, and net.DialTimeout. A
-- socket is a number.
pub record Dialer : Type 0 where
  pub resolve : Bytes → Option UdpAddr
  pub listen_udp : Family → Option ℕ
  pub dial_tcp : Bytes → Option ℕ

-- `listenNet`
unfoldable pub listen_family : UdpAddr → Family
listen_family ua = if not (bytes_eq ua.ip []) && is_none (to4 ua.ip) then udp6 else udp4

-- What a session talks to: an unconnected socket with the address for its writes, or a connection.
pub data Target : Type 0 where
  full_cone : ℕ → Family → UdpAddr → Target
  stream : ℕ → Target

unfoldable pub open_udp : Dialer → UdpAddr → Option Target
open_udp d ua = do
  socket ← d.listen_udp (listen_family ua)
  some (full_cone socket (listen_family ua) ua)

-- Dispatch
unfoldable pub dispatch : Dialer → MuxDestination → Option Target
unfolding open_udp
dispatch d dest = elim dest.network [
  | udp ↦ (do ua ← d.resolve dest.net_addr; open_udp d ua)
  | tcp ↦ (do conn ← d.dial_tcp dest.net_addr; some (stream conn))
]

-- xray-core's buf.Size
abbrev pub buf_size : ℕ
buf_size = 8192

-- One datagram, from this address or to it.
pub record Datagram : Type 0 where
  pub peer : UdpAddr
  pub payload : Bytes

-- udpPacketReader.ReadMultiBuffer: the buffer and the source that it is stamped with. The kernel
-- drops what does not fit into the buffer.
unfoldable pub read_packet : Datagram → Datagram
read_packet d = record {
  peer = record d.peer { port = d.peer.port % 2 ^ 16 };
  payload = take buf_size d.payload;
}

-- udpFullConeConn.Write
abbrev pub full_cone_write : UdpAddr → Bytes → Datagram
full_cone_write dest b = record { peer = dest; payload = b }

-- What happens on the socket of a session: a frame of the client, or a datagram that arrives.
pub data Event : Type 0 where
  frame : Bytes → Event
  arrives : Datagram → Event

-- The datagrams sent and the buffers read, each in its order.
unfoldable pub session : UdpAddr → List Event → List Datagram × List Datagram
unfolding read_packet
session dest [] = ([], [])
session dest (frame b ∷ evs) =
    let (sent, got) = session dest evs in (full_cone_write dest b ∷ sent, got)
session dest (arrives d ∷ evs) = let (sent, got) = session dest evs in (sent, read_packet d ∷ got)
