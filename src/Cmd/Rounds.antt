-- ===== src/Cmd/Rounds.antt =====
-- What a round of sync keeps for the manager, whatever the manager answers.
use vgate_server.Base.{
  ◌+◌, ◌≡◌, ◌≢◌, refl, ◌∙◌, inl, inr, List, [], ◌∷◌, if◌then◌else◌, arith, All, Bool-cases,
}
use vgate_server.Base.Text.{Bytes, bytes_key}
use vgate_server.Base.Dict.{Dict, get}
use vgate_server.Model.{UserTraffic}
use vgate_server.Vless.Traffic.Ledger.{Direction}
use vgate_server.Api.{Client, report_traffic, fetch_usage}
use vgate_server.Cmd.{
  Inbound, Meanwhile, Answers, Node, merge, hand_over, report_pending, reload, sync,
}
use vgate_server.Cmd.Pending.{
  IsCount, IsPending, Small, waiting, credited, merge_lem, credited-values,
}

module _ {Settings S : Type 0} (inbound : Inbound Settings S) (w : Meanwhile S)
    (a : Answers Settings) where
  report_pending_lem :
      (c : Client) (s : S) (m : Dict Bytes UserTraffic)
      → IsPending m
      → let (n, sent) = report_pending inbound w a c s m in
        IsPending n.pending
        × ((d : Direction) (k : Bytes) → credited d k sent + waiting d k n.pending ≡ waiting d k m)
  unfolding report_pending get
  report_pending_lem c s [] ok = (ok, λ d k. refl)
  report_pending_lem c s (p ∷ ps) ok = elim (Bool-cases (report_traffic a.report)) [
    | inl sent ↦ rw sent (
      record { distinct = tt; keyed = tt; counts = tt },
      λ d k. omega (arith, credited-values d k (p ∷ ps) ok),
    )
    | inr kept ↦ rw kept (ok, λ d k. omega arith)
  ]

  server_lem :
      (c : Client) (s : S) (m : Dict Bytes UserTraffic)
      → m ≢ []
      → (report_pending inbound w a c s m).0.server ≡ (
          if report_traffic a.report
          then hand_over inbound.apply_usage (fetch_usage a.usage) (w.reporting s)
          else w.reporting s)
  unfolding report_pending
  server_lem c s [] some_wait = absurd (some_wait refl)
  server_lem c s (p ∷ ps) some_wait = elim (Bool-cases (report_traffic a.report)) [
    | inl sent ↦ rw sent refl
    | inr kept ↦ rw kept refl
  ]

  -- The deltas that the server hands out in a round.
  abbrev pub deltas : Node S → List UserTraffic
  deltas n = (inbound.get_and_reset_traffic (reload inbound w a n.client n.server).1).1

  -- Whatever the manager answers, a round loses and doubles no byte: under each key and in each
  -- direction, what the manager acknowledged and what waits then are together what waited before and
  -- the deltas of the round. The deltas are not negative, and no sum reaches 2^63; what waits stays
  -- well-formed for the next round.
  pub sync_conserves :
      (n : Node S)
      → All IsCount (deltas n)
      → IsPending n.pending
      → Small (deltas n) n.pending
      → let (next, sent) = sync inbound w a n in
        IsPending next.pending
        × ((d : Direction) (k : Bytes)
            → credited d k sent + waiting d k next.pending
              ≡ waiting d k n.pending + credited d k (deltas n))
  unfolding sync
  sync_conserves n new ok small =
      let (merged, total) = merge_lem (deltas n) n.pending new ok small in
      let (client, server) = reload inbound w a n.client n.server in
      let round =
        report_pending_lem client (inbound.get_and_reset_traffic server).0
          (merge (deltas n) n.pending) merged in
      (round.0, λ d k. round.1 d k ∙ total d k)

  -- A round whose report fails while traffic waits hands over no usage: the server is the one that
  -- handed out the deltas, after what happened to it meanwhile. A round whose report succeeds applies
  -- the usage that was fetched to it.
  usage_after_report :
      (n : Node S)
      → merge (deltas n) n.pending ≢ []
      → let server = (inbound.get_and_reset_traffic (reload inbound w a n.client n.server).1).0 in
        (sync inbound w a n).0.server ≡ (
          if report_traffic a.report
          then hand_over inbound.apply_usage (fetch_usage a.usage) (w.reporting server)
          else w.reporting server)
  unfolding sync
  usage_after_report n some_wait =
      let (client, server) = reload inbound w a n.client n.server in
      server_lem client (inbound.get_and_reset_traffic server).0 (merge (deltas n) n.pending)
        some_wait
