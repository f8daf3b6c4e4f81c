-- ===== src/Vless/Udp.antt =====
-- proxy/vless/udp.go: the two loops of handleUDP, each by itself, on datagrams behind a two-byte
-- length in the client's stream.
pub mod RoundTrip
pub mod Race
use vgate_server.Base.{
  ℕ, zero, suc, ◌+◌, ◌*◌, ◌/◌, ◌%◌, ◌^◌, List, [], ◌∷◌, ◌++◌, ltb, if◌then◌else◌, length, take,
  drop,
}
use vgate_server.Base.Text.{Bytes}

-- Why the loop from the client ended: the stream did, between frames or inside one, or a Write to
-- the destination failed. `out_of_fuel` is the model's own.
pub data Ending : Type 0 where
  end_of_stream short_frame write_failed out_of_fuel : Ending

-- The loop from the client. The first number is fuel, the second says how many Writes succeed; the
-- result lists the datagrams written.
unfoldable pub uplink_loop : ℕ → ℕ → Bytes → List Bytes × Ending
uplink_loop zero writes stream = ([], out_of_fuel)
uplink_loop (suc fuel) writes [] = ([], end_of_stream)
uplink_loop (suc fuel) writes (b ∷ []) = ([], short_frame)
uplink_loop (suc fuel) zero (hi ∷ lo ∷ rest) =
    ([], if ltb (length rest) (hi * 256 + lo) then short_frame else write_failed)
uplink_loop (suc fuel) (suc writes) (hi ∷ lo ∷ rest) =
    let n = hi * 256 + lo in
    let later = uplink_loop fuel writes (drop n rest) in
    if ltb (length rest) n then ([], short_frame) else (take n rest ∷ later.0, later.1)

-- `initialData` is read before the connection.
unfoldable pub uplink : ℕ → Bytes → Bytes → List Bytes × Ending
unfolding uplink_loop
uplink writes initial incoming =
    let stream = initial ++ incoming in uplink_loop (suc (length stream)) writes stream

abbrev pub udp_buf : ℕ
udp_buf = 2048

-- One round of the loop to the client: what a Read of a datagram leaves in the buffer, framed.
unfoldable pub downlink_frame : Bytes → Bytes
downlink_frame datagram =
    let payload = take udp_buf datagram in
    let n = length payload % 2 ^ 16 in (n / 256) ∷ (n % 256) ∷ payload

-- What the client gets for the datagrams that arrive, while every Write succeeds.
unfoldable pub downlink : List Bytes → Bytes
unfolding downlink_frame
downlink [] = []
downlink (d ∷ ds) = downlink_frame d ++ downlink ds
