-- ===== src/Vless/Start/Rebind.antt =====
-- Start binds again for a new configuration.
use mathlib.Core.List.{Mem}
use vgate_server.Base.{◌≡◌, ◌≢◌, refl, sym, ap, ◌∙◌, ℕ, ◌∷◌, some, true, false}
use vgate_server.Base.Int.{ℤ, pos}
use vgate_server.Base.Text.{Bytes}
use vgate_server.Base.Dict.{Dict}
use vgate_server.Model.{Stream, Config}
use vgate_server.Transport.Settings.{ok}
use vgate_server.Transport.Registry.{Net, listen, bootstrap}
use vgate_server.Vless.Server.{Externals}
use vgate_server.Vless.Config.{needs_rebind}
use vgate_server.Vless.Config.Reload.{bound_lem}
use vgate_server.Vless.Start.{
  top, binding, bound, accepting, State, itoa_ℤ, stream_config, updated, Run, start, later, read,
  bind, store, accept_failed, update,
}
use vgate_server.Vless.Start.Current.{closing}

module _ {V : Type 0} (e : Externals) (as_map : e.Settings → Dict Bytes V) where
  -- The state once Start has bound this listener and stored it.
  abbrev rebound : State e → ℕ → State e
  rebound s new = record s {
    phase = accepting new s.server.port s.server.stream;
    missed = false;
    opened = new ∷ s.opened;
    server = record s.server { ln = some new };
  }

  binds :
      (r s : State e) (l new : ℕ) (p : ℤ) (st : Stream e.Settings) (n : Net ℕ V)
      → Run e as_map r s
      → s.phase ≡ accepting l p st
      → s.server.port ≢ pos 0
      → listen (stream_config e as_map s.server.stream) (b':' ∷ itoa_ℤ s.server.port) (bootstrap n)
        ≡ ok new
      → ¬ Mem new s.opened
      → Run e as_map r (rebound s new)
  binds r s l new p st n run at given listens fresh =
      later
        (later
          (later (later run (accept_failed l p st at))
            (read {s = record s { phase = top }} refl given))
          (bind {s = record s { phase = binding s.server.port s.server.stream; missed = false }}
            s.server.port s.server.stream n new refl listens fresh))
        (store
          {s = record s {
            phase = bound new s.server.port s.server.stream;
            missed = false;
            opened = new ∷ s.opened;
          }}
          new s.server.port s.server.stream refl)

  -- If Start accepts on the stored listener and a configuration with another port or stream
  -- arrives, whose port is not 0, and the network can listen for it, then the program can go on so
  -- that the old listener is closed and Start accepts on the new one, stored with the new port.
  pub rebinds :
      (s : State e) (l new : ℕ) (p : ℤ) (st : Stream e.Settings) (cfg : Config e.Settings)
      (n : Net ℕ V)
      → s.phase ≡ accepting l p st
      → s.server.ln ≡ some l
      → needs_rebind cfg s.server ≡ true
      → cfg.port ≢ pos 0
      → listen
          (stream_config e as_map (updated cfg s).server.stream)
          (b':' ∷ itoa_ℤ (updated cfg s).server.port)
          (bootstrap n)
        ≡ ok new
      → ¬ Mem new s.opened
      → (t : State e) × Run e as_map s t
        × (t.phase ≡ accepting new cfg.port (updated cfg s).server.stream)
        × (t.server.ln ≡ some new)
        × (t.server.port ≡ cfg.port)
        × Mem l t.shut
  unfolding updated
  rebinds s l new p st cfg n at ln other given listens fresh =
      let port = (bound_lem cfg s.server).0 in
      (
        rebound (updated cfg s) new,
        binds s (updated cfg s) l new p st n (later start (update cfg)) at
            (λ e0. given (sym port ∙ e0)) listens fresh,
        ap (λ q. accepting new q (updated cfg s).server.stream) port,
        refl,
        port,
        closing cfg s l other ln,
      )
