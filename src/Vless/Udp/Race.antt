-- ===== src/Vless/Udp/Race.antt =====
-- proxy/vless/udp.go: handleUDP, whose two goroutines run side by side while the handler waits for
-- the first that ends, and then closes both connections.
pub mod Prefix
pub mod Closed
use vgate_server.Base.{
  ℕ, ◌+◌, ◌*◌, ◌/◌, ◌%◌, ◌^◌, ◌≤◌, ◌≡◌, List, [], ◌∷◌, ◌++◌, Bool, true, false, length, take, drop,
}
use vgate_server.Base.Text.{Bytes}
use vgate_server.Vless.Udp.{udp_buf}

-- The loop from the client: what it has not read yet, the datagrams written, and whether it ended.
pub record Up : Type 0 where
  pub left : Bytes
  pub sent : List Bytes
  pub done : Bool

-- The loop to the client: the datagrams that come and those read, what it has still to write of the
-- last one, a Write each, and the bytes that the client got.
pub record Down : Type 0 where
  pub coming : List Bytes
  pub received : List Bytes
  pub unsent : List Bytes
  pub delivered : Bytes
  pub done : Bool

pub record Race : Type 0 where
  pub up : Up
  pub down : Down
  pub returned : Bool

-- The destination was dialled.
abbrev pub dialled : Bytes → Bytes → List Bytes → Race
dialled initial_data from_client from_destination = record {
  up = record { left = initial_data ++ from_client; sent = []; done = false };
  down = record {
    coming = from_destination;
    received = [];
    unsent = [];
    delivered = [];
    done = false;
  };
  returned = false;
}

-- One frame is read and its datagram written.
abbrev pub forwarded : Bytes → Bytes → Up → Up
forwarded payload rest u = record u { left = rest; sent = u.sent ++ payload ∷ [] }

-- A round of the loop from the client; `closed` tells that the handler has returned.
pub data UpStep (closed : Bool) : Up → Up → Type 0 where
  forward :
      {u : Up} (hi lo : ℕ) (rest : Bytes)
      → closed ≡ false
      → u.done ≡ false
      → u.left ≡ hi ∷ lo ∷ rest
      → hi * 256 + lo ≤ length rest
      → UpStep closed u (forwarded (take (hi * 256 + lo) rest) (drop (hi * 256 + lo) rest) u)
  up_ends : {u : Up} → u.done ≡ false → UpStep closed u (record u { done = true })

-- The two bytes of PutUint16.
abbrev pub length_bytes : ℕ → Bytes
length_bytes n = (n % 2 ^ 16 / 256) ∷ (n % 2 ^ 16 % 256) ∷ []

abbrev pub received_one : Bytes → List Bytes → Down → Down
received_one d ds w = record w {
  coming = ds;
  received = w.received ++ d ∷ [];
  unsent = length_bytes (length (take udp_buf d)) ∷ take udp_buf d ∷ [];
}

-- A Read, a Write, or the end of the loop to the client; a Write that fails may have written a part.
pub data DownStep (closed : Bool) : Down → Down → Type 0 where
  receive :
      {w : Down} (d : Bytes) (ds : List Bytes)
      → closed ≡ false
      → w.done ≡ false
      → w.unsent ≡ []
      → w.coming ≡ d ∷ ds
      → DownStep closed w (received_one d ds w)
  write :
      {w : Down} (b : Bytes) (bs : List Bytes)
      → closed ≡ false
      → w.done ≡ false
      → w.unsent ≡ b ∷ bs
      → DownStep closed w (record w { unsent = bs; delivered = w.delivered ++ b })
  write_fails :
      {w : Down} (n : ℕ) (b : Bytes) (bs : List Bytes)
      → closed ≡ false
      → w.done ≡ false
      → w.unsent ≡ b ∷ bs
      → DownStep closed w
          (record w { unsent = drop n b ∷ bs; delivered = w.delivered ++ take n b; done = true })
  down_ends : {w : Down} → w.done ≡ false → DownStep closed w (record w { done = true })

-- The handler returns on what either goroutine reports.
pub data Step : Race → Race → Type 0 where
  upward : {r : Race} {u : Up} → UpStep r.returned r.up u → Step r (record r { up = u })
  downward : {r : Race} {w : Down} → DownStep r.returned r.down w → Step r (record r { down = w })
  up_reported : {r : Race} → r.up.done ≡ true → Step r (record r { returned = true })
  down_reported : {r : Race} → r.down.done ≡ true → Step r (record r { returned = true })

pub data Steps (r : Race) : Race → Type 0 where
  none_yet : Steps r r
  later : {s t : Race} → Steps r s → Step s t → Steps r t
