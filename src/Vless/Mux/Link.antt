-- ===== src/Vless/Mux/Link.antt =====
-- The link that Dispatch of proxy/vless/mux.go returns: two goroutines between the target and the
-- two pipes of xray-core that the worker holds. An item is what one call of a reader returns.
pub mod Ending
use vgate_server.Base.{ℕ, ◌≡◌, List, [], ◌++◌, Bool, true, false, take, drop}

-- Where a goroutine stands: in its buf.Copy, before its closer.Close(), or at its end.
pub data Stage : Type 0 where
  copying closing gone : Stage

-- One goroutine: what its copy has not carried yet, what the other side got, and where it stands.
pub record Flow (A : Type 0) : Type 0 where
  pub left : List A
  pub delivered : List A
  pub stage : Stage

-- `respond` runs from the target to respW, `request` from reqR to the target. Neither goroutine
-- closes a pipe; `target_closed` is that of the target's connection.
pub record Link (A : Type 0) : Type 0 where
  pub respond : Flow A
  pub request : Flow A
  pub target_closed : Bool

module _ {A : Type 0} where
  abbrev pub flow : List A → Flow A
  flow items = record { left = items; delivered = []; stage = copying }

  -- What Dispatch returns, for what the target and the worker will send.
  abbrev pub linked : List A → List A → Link A
  linked responses requests = record {
    respond = flow responses;
    request = flow requests;
    target_closed = false;
  }

  abbrev pub carried : ℕ → Flow A → Flow A
  carried n f = record f { left = drop n f.left; delivered = f.delivered ++ take n f.left }

  abbrev pub at_stage : Stage → Flow A → Flow A
  at_stage g f = record f { stage = g }

  -- buf.Copy moves items while the target is open, and returns at the end of its source or on an
  -- error.
  pub data Copying (closed : Bool) : Flow A → Flow A → Type 0 where
    carry :
        {f : Flow A} (n : ℕ) → closed ≡ false → f.stage ≡ copying → Copying closed f (carried n f)
    return : {f : Flow A} → f.stage ≡ copying → Copying closed f (at_stage closing f)

  -- closer.Close(), by the goroutine that ends with it
  unfoldable pub close_response : Link A → Link A
  close_response l = record l { respond = at_stage gone l.respond; target_closed = true }

  unfoldable pub close_request : Link A → Link A
  close_request l = record l { request = at_stage gone l.request; target_closed = true }

  -- Each goroutine closes the target's connection when its copy has returned.
  pub data Step : Link A → Link A → Type 0 where
    responding :
        {l : Link A} {f : Flow A}
        → Copying l.target_closed l.respond f
        → Step l (record l { respond = f })
    requesting :
        {l : Link A} {f : Flow A}
        → Copying l.target_closed l.request f
        → Step l (record l { request = f })
    response_over : {l : Link A} → l.respond.stage ≡ closing → Step l (close_response l)
    request_over : {l : Link A} → l.request.stage ≡ closing → Step l (close_request l)

  pub data Steps (l : Link A) : Link A → Type 0 where
    none_yet : Steps l l
    later : {m n : Link A} → Steps l m → Step m n → Steps l n
