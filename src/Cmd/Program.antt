-- ===== src/Cmd/Program.antt =====
-- The program from its start: run of cmd/root.go and the ticks behind it.
use vgate_server.Base.{
  ℕ, ◌+◌, ◌-◌, if◌then◌else◌, ◌*◌, ◌≤◌, ◌≡◌, refl, List, [], ◌∷◌, some, false, arith, All,
}
use vgate_server.Base.Int.{ℤ, pos, negsuc, pos_part, neg_part, leb_ℤ, wrap64_exact}
use vgate_server.Base.Text.{Bytes}
use vgate_server.Vless.Server.{Externals, Server, new_server, set_node_id}
use vgate_server.Vless.System.{name_node, perform, perform_all}
use vgate_server.Vless.System.Valid.{IsValid, new_server-IsValid}
use vgate_server.Vless.System.Preserve.{perform-IsValid, perform_all-IsValid}
use vgate_server.Vless.System.Account.{account, react_all}
use vgate_server.Vless.System.Refines.{perform_all_refines}
use vgate_server.Cmd.{Answers, Node, alone, sync, vless_inbound}
use vgate_server.Cmd.Startup.{
  Host, LocalConfig, load_local_config, seconds, Started, exit_1, ticker_panic, ticking, Logging,
  setup_logging, fresh_node, run,
}
use vgate_server.Cmd.Supply.{Supplies, life_ops-IsSupplied}
use vgate_server.Cmd.Life.{Round, run_rounds, life_ops, run_rounds_performs}

-- The longest interval in seconds whose nanoseconds fit an int64.
abbrev pub longest : ℕ
longest = 9223372036

-- An interval whose nanoseconds fit an int64.
abbrev pub IsInterval : ℤ → Type 0
IsInterval n = (pos_part n ≤ longest) × (neg_part n ≤ longest)

seconds-leb : (n : ℤ) → IsInterval n → leb_ℤ (seconds n) (pos 0) ≡ leb_ℤ n (pos 0)
unfolding seconds
seconds-leb (pos n) (high, low) =
    rw (wrap64_exact (pos (n * 1000000000)) (record { below = omega arith; above = omega arith }))
      (ground arith)
seconds-leb (negsuc n) (high, low) =
    rw
      (wrap64_exact (negsuc ((n + 1) * 1000000000 - 1))
        (record { below = omega arith; above = omega arith }))
      (ground arith)

-- The rounds of a run: nothing happens beside the sync at the start, since Start is called after it.
abbrev pub all_rounds : {e : Externals} → Answers e.Settings → List (Round e) → List (Round e)
all_rounds first rs =
    record { loading = []; listing = []; collecting = []; reporting = []; answers = first } ∷ rs

module _ {e : Externals} (h : Host) (log : Logging h.Level) where
  -- The node after the first sync and any number of ticks, if the ticks begin.
  abbrev pub run_program : Bytes → Answers e.Settings → List (Round e) → Started e h.Level
  run_program path first rs = elim (run e h path log first) [
    | exit_1 ↦ exit_1
    | ticker_panic log' n ↦ ticker_panic log' n
    | ticking log' n ↦ ticking log' (run_rounds rs n).0
  ]

  -- If the configuration loads, then after the loggers and the first sync the ticks begin where the
  -- interval is positive, and NewTicker panics where it is not; it fits an int64 in nanoseconds.
  run_outcome :
      (cfg : LocalConfig) (path : Bytes) (first : Answers e.Settings)
      → load_local_config h path ≡ some cfg
      → IsInterval cfg.sync_interval
      → let n = (sync (vless_inbound e) alone first (fresh_node e cfg)).0 in
        run e h path log first ≡ (
          if leb_ℤ cfg.sync_interval (pos 0)
          then ticker_panic (setup_logging h cfg log) n
          else ticking (setup_logging h cfg log) n)
  unfolding run
  run_outcome cfg path first loads fits =
      rw (loads, run) (rw (seconds-leb cfg.sync_interval fits) refl)

  fresh_node-IsValid : (cfg : LocalConfig) → IsValid (fresh_node e cfg).server
  unfolding fresh_node perform
  fresh_node-IsValid cfg =
      perform-IsValid (name_node cfg.node_id) (new_server e) (new_server-IsValid e)

  -- The server after any rounds of a node that starts afresh.
  rounds_lem :
      (cfg : LocalConfig) (uuid : Bytes) (rounds : List (Round e))
      → All Supplies rounds
      → let start : Node (Server e) = fresh_node e cfg in
        let last = (run_rounds rounds start).0 in
        IsValid last.server
        × (account uuid last.server
            ≡ react_all uuid (life_ops rounds start) (account uuid (new_server e)))
  unfolding fresh_node set_node_id
  rounds_lem cfg uuid rounds supplied =
      let start : Node (Server e) = fresh_node e cfg in
      let ops = life_ops rounds start in
      let valid = fresh_node-IsValid cfg in
      rw (run_rounds_performs rounds start) (
        perform_all-IsValid ops start.server valid,
        perform_all_refines uuid ops start.server valid tt
            (life_ops-IsSupplied e rounds start supplied),
      )

  -- If the configuration loads and the interval is from 1 to 9223372036 seconds, then the program
  -- reaches its ticks. Whatever the manager answers, and whatever operations the connections and Start
  -- perform between the rounds and between the calls of each round, the server is valid after every
  -- round, and for each user it holds what the user's own rules make of all operations since the
  -- start. Every list of users that is handed over gives each user an email of their own.
  pub run_program_lem :
      (cfg : LocalConfig) (path uuid : Bytes) (first : Answers e.Settings) (rs : List (Round e))
      → load_local_config h path ≡ some cfg
      → IsInterval cfg.sync_interval
      → leb_ℤ cfg.sync_interval (pos 0) ≡ false
      → All Supplies (all_rounds {e = e} first rs)
      → let start : Node (Server e) = fresh_node e cfg in
        let ops = life_ops (all_rounds {e = e} first rs) start in
        let last = (run_rounds (all_rounds {e = e} first rs) start).0 in
        (run_program path first rs ≡ ticking (setup_logging h cfg log) last)
        × IsValid last.server
        × (account uuid last.server ≡ react_all uuid ops (account uuid (new_server e)))
  unfolding run_rounds perform_all
  run_program_lem cfg path uuid first rs loads fits positive supplied =
      let reached = run_outcome cfg path first loads fits in
      let held = rounds_lem cfg uuid (all_rounds first rs) supplied in
      (rw (reached, positive, run_program) refl, held.0, held.1)
