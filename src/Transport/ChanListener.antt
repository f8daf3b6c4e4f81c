-- ===== src/Transport/ChanListener.antt =====
-- ChanListener of transport/xraybridge/bridge.go, which turns the callbacks of xray-core into
-- accepted connections. AddConn, Accept and Close run on goroutines of their own; an arm of a
-- `select` is one step. A connection is a number.
pub mod Delivery
use vgate_server.Base.{ℕ, ◌+◌, ◌<◌, ◌≡◌, List, [], ◌∷◌, ◌++◌, Bool, true, false}
use vgate_server.Base.{length}

-- The capacity of `Ch`.
abbrev pub capacity : ℕ
capacity = 32

-- `queue` is what `Ch` holds, `closed` tells whether `Closed` is closed, which the body of
-- `Once` does, and `inner_closes` counts the calls of `Inner.Close`. The other fields record what
-- happened: the connections that went into `Ch`, that Accept returned, and that AddConn closed.
pub record ChanListener : Type 0 where
  pub queue : List ℕ
  pub closed : Bool
  pub inner_closes : ℕ
  pub sent : List ℕ
  pub accepted : List ℕ
  pub dropped : List ℕ

-- NewChanListener, whose `Inner` the transports set once xray-core listens
abbrev pub new_chan_listener : ChanListener
new_chan_listener = record {
  queue = [];
  closed = false;
  inner_closes = 0;
  sent = [];
  accepted = [];
  dropped = [];
}

-- Close
abbrev pub close_once : ChanListener → ChanListener
close_once l = record l { closed = true; inner_closes = l.inner_closes + 1 }

-- An arm of AddConn, an arm of Accept, or a call of Close. Where both arms of a `select` are
-- ready, Go takes either.
pub data Step : ChanListener → ChanListener → Type 0 where
  add :
      {l : ChanListener} (c : ℕ)
      → length l.queue < capacity
      → Step l (record l { queue = l.queue ++ (c ∷ []); sent = l.sent ++ (c ∷ []) })
  add_closed :
      {l : ChanListener} (c : ℕ)
      → l.closed ≡ true
      → Step l (record l { dropped = l.dropped ++ (c ∷ []) })
  accept :
      {l : ChanListener} (c : ℕ) (rest : List ℕ)
      → l.queue ≡ c ∷ rest
      → Step l (record l { queue = rest; accepted = l.accepted ++ (c ∷ []) })
  accept_closed : {l : ChanListener} → l.closed ≡ true → Step l l
  close_first : {l : ChanListener} → l.closed ≡ false → Step l (close_once l)
  close_again : {l : ChanListener} → l.closed ≡ true → Step l l

pub data Reach : ChanListener → Type 0 where
  start : Reach new_chan_listener
  later : {l m : ChanListener} → Reach l → Step l m → Reach m
