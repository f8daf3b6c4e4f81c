-- ===== src/Tests/Mux.antt =====
-- The link of a Mux session.
use vgate_server.Base.{ℕ, refl, [], ◌∷◌, true}
use vgate_server.Vless.Mux.Link.{
  closing, gone, Link, linked, carried, at_stage, carry, return, close_request, responding,
  requesting, request_over, Steps, none_yet, later,
}
use vgate_server.Vless.Mux.Link.Ending.{IsBridge, Steps-IsBridge}

-- The target has sent one of two items when the requests end.
abbrev at_first : Link ℕ
at_first = linked (1 ∷ 2 ∷ []) (3 ∷ [])

abbrev at_cut : Link ℕ
at_cut = record at_first {
  respond = carried 1 at_first.respond;
  request = at_stage gone (carried 1 at_first.request);
  target_closed = true;
}

abbrev at_last : Link ℕ
at_last = record at_cut { respond = at_stage closing at_cut.respond }

four-Steps : Steps at_first at_cut
unfolding close_request
four-Steps =
    later
      (later
        (later (later none_yet (responding (carry 1 refl refl))) (requesting (carry 1 refl refl)))
        (requesting (return refl)))
      (request_over refl)

Steps-IsBridge_example : IsBridge (1 ∷ 2 ∷ []) (3 ∷ []) at_cut
Steps-IsBridge_example = Steps-IsBridge (1 ∷ 2 ∷ []) (3 ∷ []) at_cut four-Steps
