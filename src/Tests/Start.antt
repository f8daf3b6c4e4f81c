-- ===== src/Tests/Start.antt =====
-- Start at concrete inputs.
use mathlib.Core.List.{Mem, not-mem-nil, eq-or-mem_of_mem-cons}
use mathlib.Core.Logic.Or
use mathlib.Core.HLevel.{⊥_prop}
use vgate_server.Base.{◌≡◌, ◌≢◌, refl, sym, ◌∙◌, ap, [], ◌∷◌, some, true, false, arith, ◌⊎◌}
use vgate_server.Base.Int.{pos, pos_part}
use vgate_server.Base.Text.{Bytes, Bytes-discrete}
use vgate_server.Base.Dict.{Dict, get, put}
use vgate_server.Model.{Config}
use vgate_server.Transport.Settings.{ok}
use vgate_server.Transport.Security.{wrap}
use vgate_server.Transport.Registry.{listen, bootstrap, tcp_listen, get_transport, register}
use vgate_server.Vless.Server.{no_vless}
use vgate_server.Vless.Config.{
  needs_rebind, update_config, update_vless, stream_equal, transport_name, vless_equal,
}
use vgate_server.Vless.Start.{
  bound, accepting, State, initial, stream_config, updated, Step, Reach, Run, start, later, read,
  bind, store, update, itoa_ℤ,
}
use vgate_server.Vless.Start.Current.{Current, accepting-Current}
use vgate_server.Vless.Start.Stale.{stale_listener}
use vgate_server.Vless.Start.Rebind.{rebinds}
use vgate_server.Tests.Fixture.{ext}
use vgate_server.Tests.Transport.{network, other_network, tcp_stream}

abbrev at_443 : Config (Unit {0})
at_443 = record {
  port = pos 443;
  stream = tcp_stream;
  vless = no_vless;
  speed_limit_up_bps = pos 0;
  speed_limit_down_bps = pos 0;
  traffic_sids = [];
}

abbrev at_8443 : Config (Unit {0})
at_8443 = record at_443 { port = pos 8443 }

abbrev no_map : Unit {0} → Dict Bytes (Unit {0})
no_map u = []

abbrev configured : State ext
configured = updated at_443 (initial ext)

abbrev listening : State ext
listening = record configured {
  phase = accepting 5 configured.server.port configured.server.stream;
  opened = 5 ∷ [];
  server = record configured.server { ln = some 5 };
  missed = false;
}

abbrev just_bound : State ext
just_bound = record listening {
  phase = bound 5 configured.server.port configured.server.stream;
  server = configured.server;
}

listens :
    listen
      (stream_config ext no_map configured.server.stream)
      (b':' ∷ itoa_ℤ configured.server.port)
      (bootstrap network)
    ≡ ok 5
unfolding updated update_config update_vless listen Bytes-discrete stream_config bootstrap
    tcp_listen get_transport get put vless_equal stream_equal transport_name wrap register
listens = refl

listens_again :
    let t = (updated at_8443 listening).server in
    listen (stream_config ext no_map t.stream) (b':' ∷ itoa_ℤ t.port) (bootstrap other_network)
    ≡ ok 9
unfolding updated update_config update_vless listen Bytes-discrete stream_config bootstrap
    tcp_listen get_transport get put vless_equal stream_equal transport_name wrap register
listens_again = refl

given : pos 8443 ≢ pos 0
given h = absurd (omega (arith, ap pos_part h))

port_443 : configured.server.port ≡ pos 443
unfolding updated update_config update_vless vless_equal Bytes-discrete
port_443 = refl

given_443 : configured.server.port ≢ pos 0
given_443 h = absurd (omega (arith, ap pos_part (sym port_443 ∙ h)))

no_listener : configured.server.ln ≢ some 5
unfolding updated update_config update_vless vless_equal Bytes-discrete
no_listener h = cc

still_open : ¬ Mem 5 configured.shut
unfolding updated update_config needs_rebind
still_open = not-mem-nil

is_fresh : ¬ Mem 9 listening.opened
is_fresh h =
    mathlib.Core.Logic.Or.elim ⊥_prop (eq-or-mem_of_mem-cons h) (λ e. absurd (omega (arith, e)))
      not-mem-nil

new_port : needs_rebind at_8443 listening.server ≡ true
unfolding updated update_config update_vless needs_rebind vless_equal Bytes-discrete
new_port = refl

run_to_listening : Reach ext no_map listening
unfolding updated
run_to_listening =
    later
      (later (later (later start (update at_443)) (read refl given_443))
        (bind configured.server.port configured.server.stream network 5 refl listens not-mem-nil))
      (store 5 configured.server.port configured.server.stream refl)

accepting-Current_example :
    (listening.missed ≡ true)
    ⊎ (Current listening.server configured.server.port configured.server.stream
        ⊎ Mem 5 listening.shut)
accepting-Current_example =
    accepting-Current ext no_map listening 5 configured.server.port configured.server.stream
      run_to_listening refl

stale_listener_example :
    (t : State ext) × (u : State ext) × Step ext no_map just_bound t
    × Step ext no_map t u
    × (u.phase ≡ accepting 5 configured.server.port configured.server.stream)
    × (u.server.port ≡ pos 8443)
    × ¬ Mem 5 u.shut
stale_listener_example =
    stale_listener ext no_map just_bound 5 configured.server.port configured.server.stream at_8443
      refl no_listener still_open

rebinds_example :
    (t : State ext) × Run ext no_map listening t
    × (t.phase ≡ accepting 9 (pos 8443) (updated at_8443 listening).server.stream)
    × (t.server.ln ≡ some 9)
    × (t.server.port ≡ pos 8443)
    × Mem 5 t.shut
rebinds_example =
    rebinds ext no_map listening 5 9 configured.server.port configured.server.stream at_8443
      other_network refl refl new_port given listens_again is_fresh
