-- ===== src/Tests/Program.antt =====
-- The program from its start, the ETags of its client, and the UDP udp_relay.
use vgate_server.Base.{
  ◌≡◌, refl, List, [], ◌∷◌, Option, none, some, false, arith, if_pos, if_neg, ite,
}
use vgate_server.Base.Int.{pos}
use vgate_server.Base.Text.{Bytes, codes, Bytes-discrete}
use vgate_server.Api.{Answer, unreachable, replied}
use vgate_server.Api.Current.{Poll, failed, reached, IsConditional, Matches, poll_all, poll_all_lem}
use vgate_server.Vless.Server.{Server, new_server}
use vgate_server.Vless.System.{open_conn, count}
use vgate_server.Vless.System.Valid.{IsValid}
use vgate_server.Vless.System.Account.{account, react_all}
use vgate_server.Vless.Udp.Race.{
  Race, dialled, Steps, none_yet, later, upward, forward, downward, receive, received_one,
}
use vgate_server.Vless.Udp.Race.Prefix.{IsRun, Steps-IsRun}
use vgate_server.Cmd.{Answers, Node}
use vgate_server.Cmd.Startup.{
  Host, LocalConfig, file_not_found, Logging, setup_logging, ticking, fresh_node, load_local_config,
}
use vgate_server.Cmd.Life.{Round, run_rounds, life_ops}
use vgate_server.Cmd.Program.{all_rounds, run_program, run_program_lem}
use vgate_server.Tests.Fixture.{ext, alice, bob, alice_uuid}

abbrev local : LocalConfig
local = record {
  admin_api = codes "http://m/";
  node_id = codes "n1";
  node_token = codes "secret";
  sync_interval = pos 60;
  log_level = codes "info";
}

-- There is no file, and the environment has all values.
abbrev host : Host
host = record {
  read_in_config = λ v. file_not_found;
  unmarshal = λ v r. some local;
  Level = Bytes;
  parse_level = λ s. some s;
}

abbrev first : Answers (Unit {0})
first = record {
  config = unreachable;
  users = replied 200 (codes "v1") (some (alice ∷ bob ∷ []));
  report = replied 200 [] (some tt);
  usage = replied 200 [] (some []);
}

abbrev rounds : List (Round ext)
rounds =
    record {
      loading = open_conn alice_uuid 7 ∷ [];
      listing = count alice_uuid [] 6 4 ∷ [];
      collecting = [];
      reporting = count alice_uuid [] 1 2 ∷ [];
      answers = first;
    }
    ∷ []

abbrev start : Node (Server ext)
start = fresh_node ext local

abbrev quiet : Logging Bytes
quiet = record { level = codes "info"; severity = none }

abbrev run_all : List (Round ext)
run_all = all_rounds first rounds

run_program_example :
    let last = (run_rounds run_all start).0 in
    (run_program {e = ext} host quiet [] first rounds
      ≡ ticking (setup_logging host local quiet) last)
    × IsValid last.server
    × (account alice_uuid last.server
        ≡ react_all alice_uuid (life_ops run_all start) (account alice_uuid (new_server ext)))
unfolding load_local_config
run_program_example =
    run_program_lem {e = ext} host quiet local [] alice_uuid first rounds refl
      (omega arith, omega arith) refl
      (
        ((tt, (tt, (tt, tt))), ground arith),
        ((((tt, tt), ((tt, tt), (tt, (tt, tt)))), ground arith), tt),
      )

-- A manager whose values are their own tags.
abbrev conditional : Bytes → Option Bytes → Answer Bytes
conditional v none = replied 200 (b'v' ∷ v) (some v)
conditional v (some t) =
    ite (Bytes-discrete t (b'v' ∷ v)) (replied 304 [] none) (replied 200 (b'v' ∷ v) (some v))

conditional-IsConditional : IsConditional (λ v. b'v' ∷ v) conditional
conditional-IsConditional = record {
  tagged = λ v h. cc;
  unlike = λ v w h. cc;
  first = λ v. refl;
  same = λ v. if_pos (Bytes-discrete (b'v' ∷ v) (b'v' ∷ v)) refl _ _;
  new = λ v t h. if_neg (Bytes-discrete t (b'v' ∷ v)) h _ _;
}

abbrev polls : List (Poll Bytes)
polls =
    reached (codes "a")
    ∷ failed unreachable
    ∷ reached (codes "b")
    ∷ failed (replied 500 [] none)
    ∷ []

poll_all_example :
    let (etag, held) = poll_all (λ v. b'v' ∷ v) conditional polls ([], none) in
    (held ≡ some (codes "b")) × Matches (λ v. b'v' ∷ v) conditional (etag, held)
poll_all_example =
    poll_all_lem (λ v. b'v' ∷ v) conditional polls [] none conditional-IsConditional
      (tt, (tt, (tt, ((ground arith, ground arith), tt)))) refl

-- A frame of one byte goes up, and a datagram comes.
abbrev udp_relay : Race
udp_relay = dialled (0 ∷ 1 ∷ []) (65 ∷ []) ((66 ∷ []) ∷ [])

abbrev sent : Race
sent = record udp_relay { up = record { left = []; sent = (65 ∷ []) ∷ []; done = false } }

abbrev answered : Race
answered = record sent { down = received_one (66 ∷ []) [] sent.down }

two-Steps : Steps udp_relay answered
two-Steps =
    later (later none_yet (upward (forward 0 1 (65 ∷ []) refl refl refl (omega arith))))
      (downward (receive (66 ∷ []) [] refl refl refl refl))

Steps-IsRun_example : IsRun (0 ∷ 1 ∷ []) (65 ∷ []) ((66 ∷ []) ∷ []) answered
Steps-IsRun_example = Steps-IsRun (0 ∷ 1 ∷ []) (65 ∷ []) ((66 ∷ []) ∷ []) answered two-Steps
