-- ===== src/Vless/Udp/Race/Closed.antt =====
-- What handleUDP does once one of its loops has ended.
use vgate_server.Base.{◌≡◌, refl, ◌∙◌, Bool, true}
use vgate_server.Vless.Udp.Race.{
  Up, Down, Race, UpStep, forward, up_ends, DownStep, receive, write, write_fails, down_ends, Step,
  upward, downward, up_reported, down_reported, Steps, none_yet, later,
}

UpStep-closed : {closed : Bool} {u v : Up} → closed ≡ true → UpStep closed u v → v.sent ≡ u.sent
UpStep-closed h (forward hi lo rest unclosed busy head enough) = cc
UpStep-closed h (up_ends busy) = refl

DownStep-closed :
    {closed : Bool} {w x : Down} → closed ≡ true → DownStep closed w x → x.delivered ≡ w.delivered
DownStep-closed h (receive d ds unclosed busy idle next) = refl
DownStep-closed h (write b bs unclosed busy next) = cc
DownStep-closed h (write_fails n b bs unclosed busy next) = cc
DownStep-closed h (down_ends busy) = refl

-- The handler has returned, and nothing was transferred since.
record IsOver (r s : Race) : Type 0 where
  returned : s.returned ≡ true
  up : s.up.sent ≡ r.up.sent
  down : s.down.delivered ≡ r.down.delivered

Step-IsOver : {r s t : Race} → IsOver r s → Step s t → IsOver r t
Step-IsOver over (upward step) = record {
  returned = over.returned;
  up = UpStep-closed over.returned step ∙ over.up;
  down = over.down;
}
Step-IsOver over (downward step) = record {
  returned = over.returned;
  up = over.up;
  down = DownStep-closed over.returned step ∙ over.down;
}
Step-IsOver over (up_reported done) = record { returned = refl; up = over.up; down = over.down }
Step-IsOver over (down_reported done) = record { returned = refl; up = over.up; down = over.down }

Steps-IsOver : {r s : Race} → r.returned ≡ true → Steps r s → IsOver r s
Steps-IsOver h none_yet = record { returned = h; up = refl; down = refl }
Steps-IsOver h (later steps step) = Step-IsOver (Steps-IsOver h steps) step

-- When the loop from the client has ended, say because the client closed its sending side, the
-- handler can return, and from that step on the client gets no further datagram, nor the rest of one
-- that was begun.
first_end_cuts :
    (r t : Race)
    → r.up.done ≡ true
    → Steps (record r { returned = true }) t
    → Step r (record r { returned = true }) × (t.down.delivered ≡ r.down.delivered)
first_end_cuts r t done steps = (up_reported done, (Steps-IsOver refl steps).down)
