-- ===== src/Tests/Sync.antt =====
-- Rounds with the manager.
use vgate_server.Base.{◌+◌, ◌≡◌, ◌≢◌, refl, List, [], ◌∷◌, ◌++◌, none, some, arith}
use vgate_server.Base.Text.{Bytes, codes, Bytes-discrete, Pair-discrete}
use vgate_server.Base.Int.{add64, wrap64, ◌+ℤ◌}
use vgate_server.Vless.Quota.{accrue_quota_locked}
use vgate_server.Base.Dict.{get, put, update}
use vgate_server.Api.{
  unreachable, replied, fetch_error, not_modified, new_client, Client, fetch_config, fetch_tagged,
  fetch_users, fetch_usage, report_traffic, if_none_match,
}
use vgate_server.Api.Etag.{undecoded_config_lost}
use vgate_server.Cmd.{Answers, Node, sync, reload, report_pending, hand_over, merge, pending_key}
use vgate_server.Vless.Traffic.{get_and_reset_traffic, add_traffic}
use vgate_server.Vless.Server.{Server}
use vgate_server.Vless.Traffic.Ledger.{upload}
use vgate_server.Cmd.Life.{Round, run_rounds}
use vgate_server.Cmd.Books.{acknowledged, held, IsBooked}
use vgate_server.Cmd.Conserve.{AttributedRounds, round_bytes, round_shares, run_rounds_conserves}
use vgate_server.Vless.System.{count, perform, perform_all}
use vgate_server.Tests.Fixture.{ext, alice_uuid, served}

abbrev client : Client
client = new_client (codes "http://m") (codes "n1") (codes "secret")

undecoded_config_lost_example :
    let first = fetch_config {Settings = Unit {0}} client (replied 200 (codes "v1") none) in
    (first.1 ≡ fetch_error)
    × (if_none_match first.0.config_etag ≡ some (codes "v1"))
    × (fetch_config {Settings = Unit {0}} first.0 (replied 304 [] none) ≡ (first.0, not_modified))
undecoded_config_lost_example = undecoded_config_lost client b'v' (codes "1") []

-- The manager is down.
abbrev down : Answers (Unit {0})
down = record {
  config = unreachable;
  users = unreachable;
  report = unreachable;
  usage = unreachable;
}

-- It takes all traffic, and changes nothing.
abbrev up_again : Answers (Unit {0})
up_again = record {
  config = unreachable;
  users = unreachable;
  report = replied 200 [] (some tt);
  usage = unreachable;
}

-- Alice is counted before and during a round in which the manager is down, and in the next one.
abbrev two_rounds : List (Round ext)
two_rounds =
    record {
      loading = count alice_uuid [] 3 4 ∷ [];
      listing = [];
      collecting = [];
      reporting = count alice_uuid [] 1 2 ∷ [];
      answers = down;
    }
    ∷ record {
      loading = [];
      listing = count alice_uuid [] 5 0 ∷ [];
      collecting = [];
      reporting = count alice_uuid [] 7 8 ∷ [];
      answers = up_again;
    }
    ∷ []

abbrev alice_key : Bytes
alice_key = codes "a@x" ++ 0 ∷ []

abbrev idle : Node (Server ext)
idle = record { client = client; server = served; pending = [] }

idle-IsBooked : IsBooked 0 idle
unfolding get
idle-IsBooked = record {
  waits = record { distinct = tt; keyed = tt; counts = tt };
  tally = tt;
  bound = λ d k. omega arith;
}

some_email : codes "a@x" ≢ []
some_email h = cc

all_attributed : AttributedRounds two_rounds idle
unfolding fetch_config fetch_tagged fetch_users fetch_usage report_traffic perform perform_all get
    put sync reload report_pending hand_over merge pending_key get_and_reset_traffic add_traffic
    Bytes-discrete Pair-discrete update accrue_quota_locked add64 wrap64 ◌+ℤ◌
all_attributed = ((some_email, (tt, (some_email, tt))), ((some_email, (tt, (some_email, tt))), tt))

bytes_lem : round_bytes two_rounds idle ≡ 30
unfolding fetch_config fetch_tagged fetch_users fetch_usage report_traffic perform perform_all get
    put sync reload report_pending hand_over merge pending_key get_and_reset_traffic add_traffic
    Bytes-discrete Pair-discrete update accrue_quota_locked add64 wrap64 ◌+ℤ◌
bytes_lem = refl

run_rounds_conserves_example :
    let (last, sent) = run_rounds two_rounds idle in
    acknowledged upload alice_key sent + held upload alice_key last
    ≡ held upload alice_key idle + round_shares upload alice_key two_rounds idle
unfolding get Bytes-discrete
run_rounds_conserves_example =
    run_rounds_conserves two_rounds 0 idle upload alice_key idle-IsBooked
      (((tt, tt), (tt, (tt, (tt, tt)))), ((tt, ((tt, tt), (tt, (tt, tt)))), tt)) all_attributed
      (omega (arith, bytes_lem))
