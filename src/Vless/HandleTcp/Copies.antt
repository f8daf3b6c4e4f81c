-- ===== src/Vless/HandleTcp/Copies.antt =====
-- What handleTCP delivers, and what it cuts off.
use vgate_server.Base.{
  ◌≡◌, refl, ap, ◌∙◌, ◌++◌, append_assoc, Bool, true, take, drop, take-drop_lem,
}
use vgate_server.Base.Text.{Bytes}
use vgate_server.Vless.HandleTcp.{
  Direction, Relay, dialled, Copy, move, end_of_stream, error, Step, upward, downward, up_reported,
  down_reported, Steps, none_yet, later,
}

-- All bytes of a direction, in their order.
abbrev pub stream : Direction → Bytes
stream d = d.delivered ++ d.left

Copy-stream : {closed : Bool} {c d : Direction} → Copy closed c d → stream d ≡ stream c
Copy-stream {c = c} (move n unclosed busy) =
    append_assoc c.delivered (take n c.left) (drop n c.left)
    ∙ ap (λ t. c.delivered ++ t) (take-drop_lem n c.left)
Copy-stream (end_of_stream unclosed busy empty) = refl
Copy-stream (error busy) = refl

Step-stream :
    {r s : Relay} → Step r s → (stream s.up ≡ stream r.up) × (stream s.down ≡ stream r.down)
Step-stream (upward c) = (Copy-stream c, refl)
Step-stream (downward c) = (refl, Copy-stream c)
Step-stream (up_reported d) = (refl, refl)
Step-stream (down_reported d) = (refl, refl)

-- In every run, what the destination got is the payload of the header and then a prefix of what the
-- client sent, and what the client got is a prefix of what the destination sent.
pub Steps-stream :
    (initial_data from_client from_destination : Bytes) (r : Relay)
    → Steps (dialled initial_data from_client from_destination) r
    → (r.up.delivered ++ r.up.left ≡ initial_data ++ from_client)
      × (r.down.delivered ++ r.down.left ≡ from_destination)
Steps-stream initial_data from_client from_destination r none_yet = (refl, refl)
Steps-stream initial_data from_client from_destination r (later steps step) =
    let (up, down) = Steps-stream initial_data from_client from_destination _ steps in
    let (same_up, same_down) = Step-stream step in (same_up ∙ up, same_down ∙ down)

Copy-closed :
    {closed : Bool} {c d : Direction} → closed ≡ true → Copy closed c d → d.delivered ≡ c.delivered
Copy-closed h (move n unclosed busy) = cc
Copy-closed h (end_of_stream unclosed busy empty) = refl
Copy-closed h (error busy) = refl

record IsOver (r s : Relay) : Type 0 where
  returned : s.returned ≡ true
  up : s.up.delivered ≡ r.up.delivered
  down : s.down.delivered ≡ r.down.delivered

Step-IsOver : {r s t : Relay} → IsOver r s → Step s t → IsOver r t
Step-IsOver over (upward c) = record {
  returned = over.returned;
  up = Copy-closed over.returned c ∙ over.up;
  down = over.down;
}
Step-IsOver over (downward c) = record {
  returned = over.returned;
  up = over.up;
  down = Copy-closed over.returned c ∙ over.down;
}
Step-IsOver over (up_reported d) = record { returned = refl; up = over.up; down = over.down }
Step-IsOver over (down_reported d) = record { returned = refl; up = over.up; down = over.down }

Steps-IsOver : {r s : Relay} → r.returned ≡ true → Steps r s → IsOver r s
Steps-IsOver h none_yet = record { returned = h; up = refl; down = refl }
Steps-IsOver h (later steps step) = Step-IsOver (Steps-IsOver h steps) step

-- When the copy from the client has returned, say because the client closed its side, the handler
-- can return, and after that step the client gets nothing more, whatever the destination sends.
pub first_report_cuts :
    (r t : Relay)
    → r.up.done ≡ true
    → Steps (record r { returned = true }) t
    → Step r (record r { returned = true }) × (t.down.delivered ≡ r.down.delivered)
first_report_cuts r t done steps = (up_reported done, (Steps-IsOver refl steps).down)
