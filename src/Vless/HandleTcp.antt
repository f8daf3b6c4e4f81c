-- ===== src/Vless/HandleTcp.antt =====
-- proxy/vless/handler.go: handleTCP, whose two goroutines copy one direction each while the handler
-- waits for the first of them. What a copy has read and not yet written counts as not copied.
pub mod Copies
pub mod HalfClose
use vgate_server.Base.{ℕ, ◌≡◌, List, [], ◌++◌, Bool, true, false, take, drop}
use vgate_server.Base.Text.{Bytes}

-- One direction: the bytes that its source still holds, those that its target got, whether the
-- copy has returned, and whether closeWrite told the target that no more will come.
pub record Direction : Type 0 where
  pub left : Bytes
  pub delivered : Bytes
  pub done : Bool
  pub half_closed : Bool

pub record Relay : Type 0 where
  pub up : Direction
  pub down : Direction
  pub returned : Bool

-- A direction whose target has these bytes already, and whose source sends those.
abbrev pub direction : Bytes → Bytes → Direction
direction before coming = record {
  left = coming;
  delivered = before;
  done = false;
  half_closed = false;
}

-- The destination was dialled and has the payload that came with the header.
abbrev pub dialled : Bytes → Bytes → Bytes → Relay
dialled initial_data from_client from_destination = record {
  up = direction initial_data from_client;
  down = direction [] from_destination;
  returned = false;
}

-- io.CopyBuffer moves n bytes.
abbrev pub moved : ℕ → Direction → Direction
moved n d = record d { left = drop n d.left; delivered = d.delivered ++ take n d.left }

-- The copy returned, and the goroutine calls closeWrite and reports.
abbrev pub finished : Direction → Direction
finished d = record d { done = true; half_closed = true }

-- A step of one goroutine on its direction, where `closed` tells that the handler has returned, so
-- that both connections are closed.
pub data Copy (closed : Bool) : Direction → Direction → Type 0 where
  move : {d : Direction} (n : ℕ) → closed ≡ false → d.done ≡ false → Copy closed d (moved n d)
  end_of_stream :
      {d : Direction} → closed ≡ false → d.done ≡ false → d.left ≡ [] → Copy closed d (finished d)
  error : {d : Direction} → d.done ≡ false → Copy closed d (finished d)

-- The handler waits on a channel, and returns on what either goroutine reports.
pub data Step : Relay → Relay → Type 0 where
  upward : {r : Relay} {d : Direction} → Copy r.returned r.up d → Step r (record r { up = d })
  downward : {r : Relay} {d : Direction} → Copy r.returned r.down d → Step r (record r { down = d })
  up_reported : {r : Relay} → r.up.done ≡ true → Step r (record r { returned = true })
  down_reported : {r : Relay} → r.down.done ≡ true → Step r (record r { returned = true })

-- Any number of steps from one state.
pub data Steps (r : Relay) : Relay → Type 0 where
  none_yet : Steps r r
  later : {s t : Relay} → Steps r s → Step s t → Steps r t
