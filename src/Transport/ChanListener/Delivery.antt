-- ===== src/Transport/ChanListener/Delivery.antt =====
-- What a ChanListener delivers, in which order, and what it closes.
use vgate_server.Base.{
  ◌≤◌, ◌≡◌, refl, sym, ap, ◌∙◌, [], ◌∷◌, ◌++◌, append_assoc, false, arith, if◌then◌else◌,
}
use vgate_server.Base.{length, length-append}
use vgate_server.Transport.ChanListener.{
  ChanListener, new_chan_listener, capacity, Step, add, add_closed, accept, accept_closed,
  close_first, close_again, Reach, start, later,
}

pub record Inv (l : ChanListener) : Type 0 where
  pub in_order : l.accepted ++ l.queue ≡ l.sent
  pub bounded : length l.queue ≤ capacity
  pub inner_closed : l.inner_closes ≡ (if l.closed then 1 else 0)
  pub open_keeps : l.closed ≡ false → l.dropped ≡ []

start-Inv : Inv new_chan_listener
start-Inv = record {
  in_order = refl;
  bounded = omega arith;
  inner_closed = refl;
  open_keeps = λ h. refl;
}

Step-Inv : {l m : ChanListener} → Step l m → Inv l → Inv m
Step-Inv {l} (add c room) inv = record {
  in_order = sym (append_assoc l.accepted l.queue (c ∷ [])) ∙ ap (λ t. t ++ (c ∷ [])) inv.in_order;
  bounded = omega (arith, length-append l.queue (c ∷ []));
  inner_closed = inv.inner_closed;
  open_keeps = inv.open_keeps;
}
Step-Inv {l} (add_closed c shut) inv = record {
  in_order = inv.in_order;
  bounded = inv.bounded;
  inner_closed = inv.inner_closed;
  open_keeps = λ h. cc;
}
Step-Inv {l} (accept c rest head) inv = record {
  in_order =
      append_assoc l.accepted (c ∷ []) rest ∙ ap (λ t. l.accepted ++ t) (sym head) ∙ inv.in_order;
  bounded = omega (arith, inv.bounded, ap length head);
  inner_closed = inv.inner_closed;
  open_keeps = inv.open_keeps;
}
Step-Inv (accept_closed shut) inv = inv
Step-Inv {l} (close_first unshut) inv = record {
  in_order = inv.in_order;
  bounded = inv.bounded;
  inner_closed = ground (arith, inv.inner_closed);
  open_keeps = λ h. cc;
}
Step-Inv (close_again shut) inv = inv

-- In every run, the accepted connections followed by the waiting ones are the connections that
-- came in, in their order; at most 32 wait; the inner listener is closed once if the listener is
-- closed and never before; and none is dropped while the listener is open.
pub Reach-Inv : {l : ChanListener} → Reach l → Inv l
Reach-Inv start = start-Inv
Reach-Inv (later r st) = Step-Inv st (Reach-Inv r)
