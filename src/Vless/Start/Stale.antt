-- ===== src/Vless/Start/Stale.antt =====
-- A configuration that arrives while Start is binding.
use mathlib.Core.List.{Mem, eq-or-mem_of_mem-cons, mem-cons_self, mem-cons_of_mem, not-mem-nil}
use mathlib.Core.Logic.Or
use mathlib.Core.HLevel.{⊥_prop}
use vgate_server.Base.{
  ℕ, ◌≡◌, ◌≢◌, refl, sym, ap, List, [], ◌∷◌, ◌++◌, Option, none, some, Bool-cases, inl, inr, subst,
}
use vgate_server.Base.Int.{ℤ}
use vgate_server.Base.Text.{Bytes}
use vgate_server.Base.Dict.{Dict}
use vgate_server.Model.{Stream, Config}
use vgate_server.Vless.Server.{Externals, Server}
use vgate_server.Vless.Config.{update_config, needs_rebind}
use vgate_server.Vless.Config.Reload.{bound_lem}
use vgate_server.Vless.Start.{bound, accepting, State, append_option, updated, Step, store, update}

not-mem-append : (xs : List ℕ) (x l : ℕ) → l ≢ x → ¬ Mem l xs → ¬ Mem l (xs ++ (x ∷ []))
not-mem-append [] x l ne out h =
    mathlib.Core.Logic.Or.elim ⊥_prop (eq-or-mem_of_mem-cons h) ne not-mem-nil
not-mem-append (y ∷ ys) x l ne out h =
    mathlib.Core.Logic.Or.elim ⊥_prop (eq-or-mem_of_mem-cons h)
      (λ e. out (subst (λ z. Mem l (z ∷ ys)) e mem-cons_self))
      (not-mem-append ys x l ne (λ m. out (mem-cons_of_mem y m)))

not-mem-append_option :
    (xs : List ℕ) (o : Option ℕ) (l : ℕ) → o ≢ some l → ¬ Mem l xs → ¬ Mem l (append_option xs o)
not-mem-append_option xs none l ne out = out
not-mem-append_option xs (some x) l ne out = not-mem-append xs x l (λ e. ne (ap some (sym e))) out

closes_stored :
    (e : Externals) (cfg : Config e.Settings) (s : Server e) (l : ℕ)
    → s.ln ≢ some l
    → (update_config cfg s).1 ≢ some l
unfolding update_config
closes_stored e cfg s l ne = elim (Bool-cases (needs_rebind cfg s)) [
  | inl new ↦ rw new ne
  | inr same ↦ rw same (λ h. cc)
]

module _ {V : Type 0} (e : Externals) (as_map : e.Settings → Dict Bytes V) where
  -- If a configuration arrives after Start bound a listener and before it stored it, and that
  -- listener is open and not the stored one, then two steps lead to a state in which the server has
  -- the configuration's port and Start accepts on that listener, which is still open.
  pub stale_listener :
      (s : State e) (l : ℕ) (p : ℤ) (st : Stream e.Settings) (cfg : Config e.Settings)
      → s.phase ≡ bound l p st
      → s.server.ln ≢ some l
      → ¬ Mem l s.shut
      → (t : State e) × (u : State e) × Step e as_map s t
        × Step e as_map t u
        × (u.phase ≡ accepting l p st)
        × (u.server.port ≡ cfg.port)
        × ¬ Mem l u.shut
  unfolding updated
  stale_listener s l p st cfg at other unshut = (
    updated cfg s,
    record (updated cfg s) {
      phase = accepting l p st;
      server = record (updated cfg s).server { ln = some l };
    },
    update cfg,
    store l p st at,
    refl,
    (bound_lem cfg s.server).0,
    not-mem-append_option s.shut (update_config cfg s.server).1 l
        (closes_stored e cfg s.server l other) unshut,
  )
