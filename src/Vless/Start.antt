-- ===== src/Vless/Start.antt =====
-- proxy/vless/server.go: Start, which binds the listener and accepts, beside UpdateConfig on other
-- goroutines. A step is what one of them does while it holds the mutex, or one call that blocks.
-- The other methods of the server leave its port, its stream and its listener alone.
pub mod Current
pub mod Stale
pub mod Rebind
use mathlib.Core.List.{Mem}
use vgate_server.Base.{
  ℕ, ◌+◌, ◌≡◌, ◌≢◌, List, [], ◌∷◌, ◌++◌, Option, none, some, Bool, true, false, ◌||◌, ◌&&◌,
}
use vgate_server.Base.Int.{ℤ, pos, negsuc}
use vgate_server.Base.Text.{Bytes}
use vgate_server.Base.Dict.{Dict}
use vgate_server.Model.{Stream, Config}
use vgate_server.Transport.Settings.{Fault, ok, bad}
use vgate_server.Transport.Address.Ports.{itoa}
use vgate_server.Transport.Registry.{StreamConfig, Net, listen, bootstrap}
use vgate_server.Vless.Server.{Externals, Server, new_server}
use vgate_server.Vless.Config.{update_config, needs_rebind}
use vgate_server.Vless.Security.{build_security_settings}

-- strconv.Itoa
abbrev pub itoa_ℤ : ℤ → Bytes
itoa_ℤ (pos n) = itoa n
itoa_ℤ (negsuc n) = b'-' ∷ itoa (n + 1)

-- Where Start stands: at the top of its loop, with the port and the stream that it read, with a
-- listener for them that it has not stored yet, or in its Accept loop.
pub data Phase (e : Externals) : Type 0 where
  top : Phase e
  binding : ℤ → Stream e.Settings → Phase e
  bound : ℕ → ℤ → Stream e.Settings → Phase e
  accepting : ℕ → ℤ → Stream e.Settings → Phase e

-- A listener is a number, in `opened` once it was opened and in `shut` once it was closed.
-- `missed` records that the configuration changed since Start read it and before the listener was
-- stored.
pub record State (e : Externals) : Type 0 where
  pub server : Server e
  pub phase : Phase e
  pub opened : List ℕ
  pub shut : List ℕ
  pub missed : Bool

abbrev pub initial : (e : Externals) → State e
initial e = record { server = new_server e; phase = top; opened = []; shut = []; missed = false }

abbrev pub append_option : List ℕ → Option ℕ → List ℕ
append_option xs none = xs
append_option xs (some x) = xs ++ (x ∷ [])

-- Whether Start is between its read and its store.
abbrev pub between : {e : Externals} → Phase e → Bool
between top = false
between (binding p st) = true
between (bound l p st) = true
between (accepting l p st) = false

module _ {e : Externals} where
  -- UpdateConfig
  unfoldable pub updated : Config e.Settings → State e → State e
  updated cfg s =
      let (server, closed) = update_config cfg s.server in
      record s {
        server = server;
        shut = append_option s.shut closed;
        missed = s.missed || (between s.phase && needs_rebind cfg s.server);
      }

-- `as_map` reads the decoded JSON object of the settings.
module _ {V : Type 0} (e : Externals) (as_map : e.Settings → Dict Bytes V) where
  -- What Start passes to transport.Listen.
  unfoldable pub stream_config : Stream e.Settings → StreamConfig V
  stream_config st = record {
    network = st.network;
    settings = as_map st.settings;
    security = st.security;
    security_settings = build_security_settings e.floats st;
  }

  -- The network may answer each call of Listen as it likes, by a listener of its own.
  pub data Step : State e → State e → Type 1 where
    wait : {s : State e} → s.phase ≡ top → s.server.port ≡ pos 0 → Step s s
    read :
        {s : State e}
        → s.phase ≡ top
        → s.server.port ≢ pos 0
        → Step s (record s { phase = binding s.server.port s.server.stream; missed = false })
    fail :
        {s : State e} (p : ℤ) (st : Stream e.Settings) (n : Net ℕ V) (x : Fault)
        → s.phase ≡ binding p st
        → listen (stream_config st) (b':' ∷ itoa_ℤ p) (bootstrap n) ≡ bad x
        → Step s (record s { phase = top })
    bind :
        {s : State e} (p : ℤ) (st : Stream e.Settings) (n : Net ℕ V) (l : ℕ)
        → s.phase ≡ binding p st
        → listen (stream_config st) (b':' ∷ itoa_ℤ p) (bootstrap n) ≡ ok l
        → ¬ Mem l s.opened
        → Step s (record s { phase = bound l p st; opened = l ∷ s.opened })
    store :
        {s : State e} (l : ℕ) (p : ℤ) (st : Stream e.Settings)
        → s.phase ≡ bound l p st
        → Step s (record s { phase = accepting l p st; server = record s.server { ln = some l } })
    accept :
        {s : State e} (l : ℕ) (p : ℤ) (st : Stream e.Settings)
        → s.phase ≡ accepting l p st
        → Step s s
    accept_failed :
        {s : State e} (l : ℕ) (p : ℤ) (st : Stream e.Settings)
        → s.phase ≡ accepting l p st
        → Step s (record s { phase = top })
    update : {s : State e} (cfg : Config e.Settings) → Step s (updated cfg s)

  -- Any number of steps.
  pub data Run (s : State e) : State e → Type 1 where
    start : Run s s
    later : {t u : State e} → Run s t → Step t u → Run s u

  -- A state that the program can be in.
  abbrev pub Reach : State e → Type 1
  Reach = Run (initial e)
