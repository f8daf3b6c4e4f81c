-- ===== src/Vless/Udp/Race/Prefix.antt =====
-- What both sides of handleUDP get in any run.
use vgate_server.Base.{
  take-drop_lem, ℕ, suc, ◌+◌, ◌*◌, ◌≤◌, ◌≡◌, refl, sym, ap, ◌∙◌, List, [], ◌∷◌, ◌++◌, append_assoc,
  append-nil, Bool, arith, length, length-append, take, drop,
}
use native.Mathlib.Nat.{zero-add}
use vgate_server.Base.Text.{Bytes}
use vgate_server.Vless.Udp.{uplink_loop, downlink, downlink_frame, udp_buf}
use vgate_server.Vless.Udp.Race.{
  Up, Down, Race, dialled, UpStep, forward, up_ends, DownStep, receive, write, write_fails,
  down_ends, Step, upward, downward, up_reported, down_reported, Steps, none_yet, later,
  length_bytes,
}

abbrev pub joined : List Bytes → Bytes
joined [] = []
joined (b ∷ bs) = b ++ joined bs

-- The datagrams sent are those that the loop takes off the stream first.
abbrev pub IsPrefixOf : Bytes → Up → Type 0
IsPrefixOf whole u =
    (fuel writes : ℕ)
    → u.sent ++ (uplink_loop fuel writes u.left).0
      ≡ (uplink_loop (length u.sent + fuel) (length u.sent + writes) whole).0

abbrev pub IsDownlink : List Bytes → Down → Type 0
IsDownlink all w =
    (w.received ++ w.coming ≡ all) × (w.delivered ++ joined w.unsent ≡ downlink w.received)

one_frame :
    (fuel writes hi lo : ℕ) (rest : Bytes)
    → hi * 256 + lo ≤ length rest
    → (uplink_loop (suc fuel) (suc writes) (hi ∷ lo ∷ rest)).0
      ≡ take (hi * 256 + lo) rest ∷ (uplink_loop fuel writes (drop (hi * 256 + lo) rest)).0
unfolding uplink_loop
one_frame fuel writes hi lo rest h = ground arith

count_lem : (xs : List Bytes) (x : Bytes) (n : ℕ) → length xs + suc n ≡ length (xs ++ x ∷ []) + n
count_lem xs x n = omega (arith, length-append xs (x ∷ []))

UpStep-IsPrefixOf :
    {closed : Bool} {u v : Up} (whole : Bytes)
    → UpStep closed u v
    → IsPrefixOf whole u
    → IsPrefixOf whole v
UpStep-IsPrefixOf {u = u} whole (forward hi lo rest unclosed busy head enough) p = λ fuel writes.
    let d = take (hi * 256 + lo) rest in
    append_assoc u.sent (d ∷ []) (uplink_loop fuel writes (drop (hi * 256 + lo) rest)).0
    ∙ ap (λ t. u.sent ++ t) (sym (one_frame fuel writes hi lo rest enough))
    ∙ ap (λ l. u.sent ++ (uplink_loop (suc fuel) (suc writes) l).0) (sym head)
    ∙ p (suc fuel) (suc writes)
    ∙ rw (count_lem u.sent d fuel, count_lem u.sent d writes) refl
UpStep-IsPrefixOf whole (up_ends busy) p = p

downlink-append :
    (xs : List Bytes) (d : Bytes) → downlink (xs ++ d ∷ []) ≡ downlink xs ++ downlink_frame d
unfolding downlink
downlink-append [] d = append-nil (downlink_frame d)
downlink-append (x ∷ xs) d =
    ap (λ t. downlink_frame x ++ t) (downlink-append xs d)
    ∙ sym (append_assoc (downlink_frame x) (downlink xs) (downlink_frame d))

frame_lem :
    (d : Bytes)
    → joined (length_bytes (length (take udp_buf d)) ∷ take udp_buf d ∷ []) ≡ downlink_frame d
unfolding downlink_frame
frame_lem d = ap (λ t. length_bytes (length (take udp_buf d)) ++ t) (append-nil (take udp_buf d))

DownStep-IsDownlink :
    {closed : Bool} {w x : Down} (all : List Bytes)
    → DownStep closed w x
    → IsDownlink all w
    → IsDownlink all x
DownStep-IsDownlink {w = w} all (receive d ds unclosed busy idle next) (order, bytes) = (
  append_assoc w.received (d ∷ []) ds ∙ ap (λ t. w.received ++ t) (sym next) ∙ order,
  ap (λ t. w.delivered ++ t) (frame_lem d)
      ∙ ap (λ t. t ++ downlink_frame d) (sym (append-nil w.delivered) ∙ (rw idle at bytes))
      ∙ sym (downlink-append w.received d),
)
DownStep-IsDownlink {w = w} all (write b bs unclosed busy next) (order, bytes) =
    (order, append_assoc w.delivered b (joined bs) ∙ (rw next at bytes))
DownStep-IsDownlink {w = w} all (write_fails n b bs unclosed busy next) (order, bytes) = (
  order,
  append_assoc w.delivered (take n b) (drop n b ++ joined bs)
      ∙ ap (λ t. w.delivered ++ t)
          (sym (append_assoc (take n b) (drop n b) (joined bs))
            ∙ ap (λ t. t ++ joined bs) (take-drop_lem n b))
      ∙ (rw next at bytes),
)
DownStep-IsDownlink all (down_ends busy) p = p

module _ (initial_data from_client : Bytes) (from_destination : List Bytes) where
  -- What holds of every run of a relay that was dialled.
  pub record IsRun (r : Race) : Type 0 where
    pub up : IsPrefixOf (initial_data ++ from_client) r.up
    pub down : IsDownlink from_destination r.down

  Step-IsRun : {r s : Race} → IsRun r → Step r s → IsRun s
  Step-IsRun h (upward step) = record {
    up = UpStep-IsPrefixOf (initial_data ++ from_client) step h.up;
    down = h.down;
  }
  Step-IsRun h (downward step) = record {
    up = h.up;
    down = DownStep-IsDownlink from_destination step h.down;
  }
  Step-IsRun h (up_reported done) = record { up = h.up; down = h.down }
  Step-IsRun h (down_reported done) = record { up = h.up; down = h.down }

  -- In every run of the two loops, whichever ends first: the destination got the datagrams that the
  -- loop from the client takes first off the payload of the header and the bytes behind it, and the
  -- client got the beginning of the framed datagrams that were read, in their order.
  pub Steps-IsRun :
      (r : Race) → Steps (dialled initial_data from_client from_destination) r → IsRun r
  unfolding downlink
  Steps-IsRun r none_yet = record {
    up = λ fuel writes. rw (zero-add fuel, zero-add writes) refl;
    down = (refl, refl);
  }
  Steps-IsRun r (later steps step) = Step-IsRun (Steps-IsRun _ steps) step
