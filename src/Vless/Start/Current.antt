-- ===== src/Vless/Start/Current.antt =====
-- The listener that Start accepts on follows the configuration.
use mathlib.Core.List.{Mem, mem-append_left, mem-append_right, mem-cons_self}
use vgate_server.Base.{
  ℕ, ◌≡◌, arith, refl, subst, sym, ap, ◌∙◌, List, [], ◌∷◌, Option, none, some, Bool, true, false,
  not, ◌||◌, if◌then◌else◌, inl, inr, ◌⊎◌, Bool-cases,
}
use vgate_server.Base.Int.{ℤ, pos, negsuc, eqb_ℤ}
use vgate_server.Base.Dict.{Dict}
use vgate_server.Base.Text.{Bytes}
use vgate_server.Model.{Stream, Config}
use vgate_server.Vless.Server.{Externals, Server}
use vgate_server.Vless.Config.{update_config, update_vless, needs_rebind, vless_equal}
use vgate_server.Vless.Config.Reload.{bound_lem}
use vgate_server.Vless.Start.{
  Phase, top, binding, bound, accepting, State, append_option, between, updated, Step, wait, read,
  fail, bind, store, accept, accept_failed, update, Reach, start, later,
}

-- The server still has this port and this stream.
abbrev pub Current : {e : Externals} → Server e → ℤ → Stream e.Settings → Type 0
Current s p st = (s.port ≡ p) × (s.stream ≡ st)

-- What Start's place in its loop says of the server.
abbrev pub Holds : {e : Externals} → State e → Phase e → Type 0
Holds s top = Unit
Holds s (binding p st) = (s.missed ≡ true) ⊎ Current s.server p st
Holds s (bound l p st) = (s.missed ≡ true) ⊎ Current s.server p st
Holds s (accepting l p st) =
    (s.server.ln ≡ some l) × ((s.missed ≡ true) ⊎ (Current s.server p st ⊎ Mem l s.shut))

eqb_ℤ→eq : (a b : ℤ) → eqb_ℤ a b ≡ true → a ≡ b
eqb_ℤ→eq (pos m) (pos n) h = ap pos (ground arith)
eqb_ℤ→eq (pos m) (negsuc n) h = absurd (ground arith)
eqb_ℤ→eq (negsuc m) (pos n) h = absurd (ground arith)
eqb_ℤ→eq (negsuc m) (negsuc n) h = ap negsuc (ground arith)

same_left : (a b : Bool) → (not a || not b) ≡ false → a ≡ true
same_left true b h = refl
same_left false b h = cc

same_right : (a b : Bool) → (not a || not b) ≡ false → b ≡ true
same_right true true h = refl
same_right true false h = cc
same_right false b h = cc

or-true : (m : Bool) → (m || true) ≡ true
or-true true = refl
or-true false = refl

missed_lem : (m b : Bool) → m ≡ true → (m || b) ≡ true
missed_lem true b h = refl
missed_lem false b h = cc

mem-append_option : (xs : List ℕ) (o : Option ℕ) {l : ℕ} → Mem l xs → Mem l (append_option xs o)
mem-append_option xs none h = h
mem-append_option xs (some x) h = mem-append_left (x ∷ []) h

module _ {e : Externals} (cfg : Config e.Settings) where
  ln_lem : (s : Server e) → (update_config cfg s).0.ln ≡ s.ln
  unfolding update_config update_vless
  ln_lem s = elim (Bool-cases (vless_equal s.vless cfg.vless)) [
    | inl same ↦ rw same refl
    | inr new ↦ rw new refl
  ]

  closed_lem : (s : Server e) → needs_rebind cfg s ≡ true → (update_config cfg s).1 ≡ s.ln
  unfolding update_config
  closed_lem s h = rw h refl

  kept_lem :
      (s : Server e) (p : ℤ) (st : Stream e.Settings)
      → needs_rebind cfg s ≡ false
      → Current s p st
      → Current (update_config cfg s).0 p st
  unfolding needs_rebind
  kept_lem s p st h (port, stream) = (
    (bound_lem cfg s).0
        ∙ sym (eqb_ℤ→eq s.port cfg.port (same_left (eqb_ℤ s.port cfg.port) _ h))
        ∙ port,
    (bound_lem cfg s).1
        ∙ ap (λ b. if b then s.stream else cfg.stream) (same_right (eqb_ℤ s.port cfg.port) _ h)
        ∙ stream,
  )

  missed_now :
      (s : State e)
      → between s.phase ≡ true
      → needs_rebind cfg s.server ≡ true
      → (updated cfg s).missed ≡ true
  unfolding updated
  missed_now s at new = rw (at, new) (or-true s.missed)

  pub closing :
      (s : State e) (l : ℕ)
      → needs_rebind cfg s.server ≡ true
      → s.server.ln ≡ some l
      → Mem l (updated cfg s).shut
  unfolding updated
  closing s l new ln = rw (closed_lem s.server new, ln) (mem-append_right s.shut mem-cons_self)

  update-Holds : (s : State e) (ph : Phase e) → s.phase ≡ ph → Holds s ph → Holds (updated cfg s) ph
  unfolding updated
  update-Holds s top at h = tt
  update-Holds s (binding p st) at (inl m) = inl (missed_lem s.missed _ m)
  update-Holds s (binding p st) at (inr now) = elim (Bool-cases (needs_rebind cfg s.server)) [
    | inl new ↦ inl (missed_now s (ap between at) new)
    | inr same ↦ inr (kept_lem s.server p st same now)
  ]
  update-Holds s (bound l p st) at (inl m) = inl (missed_lem s.missed _ m)
  update-Holds s (bound l p st) at (inr now) = elim (Bool-cases (needs_rebind cfg s.server)) [
    | inl new ↦ inl (missed_now s (ap between at) new)
    | inr same ↦ inr (kept_lem s.server p st same now)
  ]
  update-Holds s (accepting l p st) at (ln, inl m) =
      (ln_lem s.server ∙ ln, inl (missed_lem s.missed _ m))
  update-Holds s (accepting l p st) at (ln, inr (inl now)) = (
    ln_lem s.server ∙ ln,
    elim (Bool-cases (needs_rebind cfg s.server)) [
      | inl new ↦ inr (inr (closing s l new ln))
      | inr same ↦ inr (inl (kept_lem s.server p st same now))
    ],
  )
  update-Holds s (accepting l p st) at (ln, inr (inr shut)) =
      (ln_lem s.server ∙ ln, inr (inr (mem-append_option s.shut _ shut)))

store-Holds :
    {e : Externals} (s : State e) {l : ℕ} {p : ℤ} {st : Stream e.Settings}
    → Holds s (bound l p st)
    → (s.missed ≡ true) ⊎ (Current s.server p st ⊎ Mem l s.shut)
store-Holds s (inl m) = inl m
store-Holds s (inr now) = inr (inl now)

module _ {V : Type 0} (e : Externals) (as_map : e.Settings → Dict Bytes V) where
  Step-Holds : {s t : State e} → Step e as_map s t → Holds s s.phase → Holds t t.phase
  unfolding updated
  Step-Holds (wait at port) h = h
  Step-Holds (read at port) h = inr (refl, refl)
  Step-Holds (fail p st n x at failed) h = tt
  Step-Holds {s} (bind p st n l at opened fresh) h = subst (Holds s) at h
  Step-Holds {s} (store l p st at) h = (refl, store-Holds s (subst (Holds s) at h))
  Step-Holds (accept l p st at) h = h
  Step-Holds (accept_failed l p st at) h = tt
  Step-Holds {s} (update cfg) h = update-Holds cfg s s.phase refl h

  Reach-Holds : {s : State e} → Reach e as_map s → Holds s s.phase
  Reach-Holds start = tt
  Reach-Holds (later r st) = Step-Holds st (Reach-Holds r)

  -- In every run from a new server, while Start accepts on a listener, one of three things holds:
  -- the configuration changed while Start was binding; the server still has the port and the stream
  -- that the listener was bound for; or UpdateConfig closed the listener.
  pub accepting-Current :
      (s : State e) (l : ℕ) (p : ℤ) (st : Stream e.Settings)
      → Reach e as_map s
      → s.phase ≡ accepting l p st
      → (s.missed ≡ true) ⊎ (Current s.server p st ⊎ Mem l s.shut)
  accepting-Current s l p st r at = (subst (Holds s) at (Reach-Holds r)).1
