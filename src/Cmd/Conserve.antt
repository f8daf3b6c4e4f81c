-- ===== src/Cmd/Conserve.antt =====
-- What becomes of the bytes that connections count, over the rounds of cmd/root.go.
use vgate_server.Base.{ℕ, ◌+◌, ◌^◌, ◌<◌, ◌≡◌, List, [], ◌∷◌, arith, All, true}
use vgate_server.Base.Text.{Bytes, bytes_key}
use vgate_server.Vless.Server.{Externals, Server}
use vgate_server.Vless.Traffic.Ledger.{Direction, upload, pending}
use vgate_server.Vless.System.Conserve.{
  all_bytes, AllAttributed, shares, shares_bound, perform_all-IsTally, perform_all_conserves,
}
use vgate_server.Cmd.{Node, vless_inbound}
use vgate_server.Cmd.Pending.{IsCount, credited}
use vgate_server.Cmd.Rounds.{deltas, sync_conserves}
use vgate_server.Cmd.Life.{Round, AllOps, meanwhile, one_round, run_rounds, sync_ops, sync_performs}
use vgate_server.Cmd.Books.{of_key, held, IsBooked, acknowledged, credited-reported}
use vgate_server.Cmd.Reports.{IsCollectFree, reports-sync_ops, reports-IsCount}

module _ {e : Externals} where
  -- All bytes that the connections count.
  abbrev pub round_bytes : List (Round e) → Node (Server e) → ℕ
  round_bytes [] n = 0
  round_bytes (r ∷ rs) n = all_bytes (sync_ops r n) + round_bytes rs (one_round r n).0

  -- Every count goes to a counter with an email.
  abbrev pub AttributedRounds : List (Round e) → Node (Server e) → Type 0
  AttributedRounds [] n = Unit
  AttributedRounds (r ∷ rs) n =
      AllAttributed (sync_ops r n) n.server × AttributedRounds rs (one_round r n).0

  -- The bytes counted under a key, before and during the rounds.
  abbrev pub round_shares : Direction → Bytes → List (Round e) → Node (Server e) → ℕ
  round_shares d k [] n = 0
  round_shares d k (r ∷ rs) n =
      shares (of_key k) d (sync_ops r n) n.server + round_shares d k rs (one_round r n).0

  -- A round keeps the books, whatever is counted before and during it.
  one_round_books :
      (r : Round e) (t : ℕ) (n : Node (Server e))
      → IsBooked t n
      → AllOps IsCollectFree r
      → AllAttributed (sync_ops r n) n.server
      → t + all_bytes (sync_ops r n) < 2 ^ 63
      → let (next, sent) = one_round r n in
        IsBooked (t + all_bytes (sync_ops r n)) next
        × ((d : Direction) (k : Bytes)
            → credited d k sent + held d k next
              ≡ held d k n + shares (of_key k) d (sync_ops r n) n.server)
  one_round_books r t n b free known fits =
      let ops = sync_ops r n in
      let new = deltas (vless_inbound e) (meanwhile r) r.answers n in
      let handed = reports-sync_ops r n free in
      let counts : All IsCount new =
        rw (← handed) (reports-IsCount ops t n.server b.tally known fits) in
      let grown : (d : Direction) (k : Bytes)
          → credited d k new + pending (of_key k) d (one_round r n).0.server.user_traffic
            ≡ pending (of_key k) d n.server.user_traffic + shares (of_key k) d ops n.server =
        λ d k.
          rw (credited-reported d k new, ← handed, sync_performs r n)
            (perform_all_conserves (of_key k) d ops t n.server b.tally known fits) in
      let bounded = λ (d : Direction) (k : Bytes). shares_bound (of_key k) d ops n.server in
      let (kept, round) =
        sync_conserves (vless_inbound e) (meanwhile r) r.answers n counts b.waits
          (λ d k. omega (arith, b.bound d k, grown d k, bounded d k)) in
      (
        record {
          waits = kept;
          tally =
              rw (sync_performs r n)
                (perform_all-IsTally (λ x y. true) upload ops t n.server b.tally known fits);
          bound = λ d k. omega (arith, b.bound d k, round d k, grown d k, bounded d k);
        },
        λ d k. omega (arith, round d k, grown d k),
      )

  -- Over any number of rounds, with any answers of the manager, also when users come, go and change,
  -- and when connections count between the calls of a round: under each key of an email and an entry
  -- point, and in each direction, what the manager acknowledged, what waits for it and what the
  -- counters hold at the end are together what was held at the start and what the connections
  -- counted. The books at the start are in order, only sync collects, every count goes to a counter
  -- with an email, and all bytes fit an int64.
  pub run_rounds_conserves :
      (rs : List (Round e)) (t : ℕ) (n : Node (Server e)) (d : Direction) (k : Bytes)
      → IsBooked t n
      → All (AllOps IsCollectFree) rs
      → AttributedRounds rs n
      → t + round_bytes rs n < 2 ^ 63
      → acknowledged d k (run_rounds rs n).1 + held d k (run_rounds rs n).0
        ≡ held d k n + round_shares d k rs n
  unfolding run_rounds
  run_rounds_conserves [] t n d k b free known fits = omega arith
  run_rounds_conserves (r ∷ rs) t n d k b free known fits =
      let (kept, round) = one_round_books r t n b free.0 known.0 (omega arith) in
      let rest =
        run_rounds_conserves rs (t + all_bytes (sync_ops r n)) (one_round r n).0 d k kept free.1
          known.1 (omega arith) in
      omega (arith, rest, round d k)
