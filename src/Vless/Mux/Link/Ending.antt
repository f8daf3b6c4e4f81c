-- ===== src/Vless/Mux/Link/Ending.antt =====
-- What the two sides of a Mux session get, and what the end of one direction does to the other.
use vgate_server.Base.{
  ◌≡◌, refl, ap, ◌∙◌, List, ◌++◌, append_assoc, Bool, true, false, ◌||◌, take, drop, take-drop_lem,
  arith,
}
use vgate_server.Vless.Mux.Link.{
  Stage, copying, closing, gone, Flow, Link, linked, Copying, carry, return, close_response,
  close_request, Step, responding, requesting, response_over, request_over, Steps, none_yet, later,
}

abbrev pub has_ended : Stage → Bool
has_ended copying = false
has_ended closing = false
has_ended gone = true

module _ {A : Type 0} where
  Copying-whole :
      {closed : Bool} {f g : Flow A}
      → Copying closed f g
      → g.delivered ++ g.left ≡ f.delivered ++ f.left
  Copying-whole {f = f} (carry n unclosed busy) =
      append_assoc f.delivered (take n f.left) (drop n f.left)
      ∙ ap (λ t. f.delivered ++ t) (take-drop_lem n f.left)
  Copying-whole (return busy) = refl

  Copying-has_ended :
      {closed : Bool} {f g : Flow A} → Copying closed f g → has_ended g.stage ≡ has_ended f.stage
  Copying-has_ended (carry n unclosed busy) = refl
  Copying-has_ended (return busy) = rw busy refl

  -- What holds of a link for these responses and requests.
  pub record IsBridge (responses requests : List A) (l : Link A) : Type 0 where
    pub respond : l.respond.delivered ++ l.respond.left ≡ responses
    pub request : l.request.delivered ++ l.request.left ≡ requests
    pub closed : l.target_closed ≡ has_ended l.respond.stage || has_ended l.request.stage

  Step-IsBridge :
      {responses requests : List A} {l m : Link A}
      → IsBridge responses requests l
      → Step l m
      → IsBridge responses requests m
  unfolding close_response close_request
  Step-IsBridge b (responding c) = record {
    respond = Copying-whole c ∙ b.respond;
    request = b.request;
    closed = rw (Copying-has_ended c) b.closed;
  }
  Step-IsBridge b (requesting c) = record {
    respond = b.respond;
    request = Copying-whole c ∙ b.request;
    closed = rw (Copying-has_ended c) b.closed;
  }
  Step-IsBridge b (response_over o) = record {
    respond = b.respond;
    request = b.request;
    closed = refl;
  }
  Step-IsBridge {l = l} b (request_over o) = record {
    respond = b.respond;
    request = b.request;
    closed = ground arith;
  }

  -- In every run of the two goroutines, each side got the beginning of what the other sent, in its
  -- order, and the target's connection is closed exactly if one of the goroutines has ended.
  pub Steps-IsBridge :
      (responses requests : List A) (l : Link A)
      → Steps (linked responses requests) l
      → IsBridge responses requests l
  Steps-IsBridge responses requests l none_yet = record {
    respond = refl;
    request = refl;
    closed = refl;
  }
  Steps-IsBridge responses requests l (later steps step) =
      Step-IsBridge (Steps-IsBridge responses requests _ steps) step

  -- What a closed target leaves as it is.
  pub record IsCut (l m : Link A) : Type 0 where
    pub respond : m.respond.delivered ≡ l.respond.delivered
    pub request : m.request.delivered ≡ l.request.delivered
    pub closed : m.target_closed ≡ true
