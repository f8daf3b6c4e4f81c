-- ===== src/Vless/Relay/Accounting.antt =====
-- The paths of a relay count alike, and one of them does not limit.
use vgate_server.Base.{
  ◌==◌, ◌≡◌, refl, ◌∙◌, sym, ap, List, [], ◌∷◌, Bool-cases, inl, inr, Option-cases, ◌||◌,
}
use vgate_server.Base.Int.{ℤ, pos, ltb_ℤ, add64, sub64, leb_ℤ}
use vgate_server.Base.Text.{Bytes, bytes_key}
use vgate_server.Base.Dict.{Dict, get}
use vgate_server.Vless.Server.{Externals, Server, QuotaState, TrafficStat}
use vgate_server.Vless.Quota.{accrue_quota_locked, accrue_found}
use vgate_server.Vless.Traffic.{add_traffic}
use vgate_server.Vless.Ratelimit.{apply_limits}
use vgate_server.Vless.Relay.{
  Chunk, from_client, to_client, counted_step, vision_step, mux_vision_step, relay_chunks,
  counted_read, counted_write, account, limited_read, limited_write,
}

module _ {e : Externals} (uuid node : Bytes) where
  limits-accrue_found :
      (k : Bytes) (qs : QuotaState) (up down n : ℤ) (s : Server e)
      → apply_limits uuid up down (accrue_found k qs n s) ≡ apply_limits uuid up down s
  unfolding accrue_found apply_limits
  limits-accrue_found k qs up down n s =
      elim (Bool-cases (ltb_ℤ qs.quota (pos 0) || leb_ℤ n (pos 0))) [
        | inl free ↦ rw free refl
        | inr metered ↦
            elim (Bool-cases
              (ltb_ℤ (pos 0) (sub64 (sub64 qs.quota qs.base) (add64 qs.accrual n)) || qs.cut)) [
                | inl within ↦ rw (metered, within) refl
                | inr over ↦ rw (metered, over) refl
              ]
      ]

  limits-accrue_quota_locked :
      (k email : Bytes) (up down n : ℤ) (s : Server e)
      → apply_limits uuid up down (accrue_quota_locked k email n s) ≡ apply_limits uuid up down s
  unfolding accrue_quota_locked
  limits-accrue_quota_locked k email up down n s = elim (Option-cases (get s.user_quota k)) [
    | inl absent ↦ rw (absent, accrue_quota_locked) refl
    | inr (qs, found) ↦ rw (found, accrue_quota_locked) (limits-accrue_found k qs up down n s)
  ]

  limits-user_traffic :
      (up down : ℤ) (s : Server e) (m : Dict (Bytes × Bytes) TrafficStat)
      → apply_limits uuid up down (record s { user_traffic = m }) ≡ apply_limits uuid up down s
  unfolding apply_limits
  limits-user_traffic up down s m = refl

  limits-add_traffic :
      (a b up down : ℤ) (s : Server e)
      → apply_limits uuid up down (add_traffic uuid node a b s) ≡ apply_limits uuid up down s
  unfolding add_traffic
  limits-add_traffic a b up down s = elim (Bool-cases (ltb_ℤ (pos 0) (add64 a b))) [
    | inl more ↦
        rw more (
          limits-accrue_quota_locked uuid _ up down (add64 a b) _ ∙ limits-user_traffic up down s _)
    | inr idle ↦ rw idle (limits-user_traffic up down s _)
  ]

  vision_step-counted_step :
      (c : Chunk) (s : Server e) → vision_step uuid node c s ≡ counted_step uuid node c s
  unfolding vision_step counted_step counted_read counted_write account limited_read limited_write
  vision_step-counted_step (from_client n) s = elim (Bool-cases (n == 0)) [
    | inl empty ↦ rw empty refl
    | inr some_bytes ↦ rw some_bytes refl
  ]
  vision_step-counted_step (to_client n) s = elim (Bool-cases (n == 0)) [
    | inl empty ↦ rw empty refl
    | inr some_bytes ↦ rw some_bytes (
        ap (λ ws. (add_traffic uuid node (pos 0) (pos n) s, ws))
          (sym (limits-add_traffic (pos 0) (pos n) (pos 0) (pos n) s)))
  ]

  -- For every sequence of chunks, a Vision relay leaves the server as a relay through the counting
  -- connection leaves it, counters and quotas included, and waits for the same tokens of the same
  -- buckets in the same order.
  pub relay_vision-relay_counted :
      (cs : List Chunk) (s : Server e)
      → relay_chunks (vision_step uuid node) cs s ≡ relay_chunks (counted_step uuid node) cs s
  unfolding relay_chunks
  relay_vision-relay_counted [] s = refl
  relay_vision-relay_counted (c ∷ cs) s =
      rw
        (vision_step-counted_step c s, relay_vision-relay_counted cs (counted_step uuid node c s).0)

  mux_vision_step-counted_step :
      (c : Chunk) (s : Server e)
      → mux_vision_step uuid node c s ≡ ((counted_step uuid node c s).0, [])
  unfolding mux_vision_step counted_step counted_read counted_write account
  mux_vision_step-counted_step (from_client n) s = elim (Bool-cases (n == 0)) [
    | inl empty ↦ rw empty refl
    | inr some_bytes ↦ rw some_bytes refl
  ]
  mux_vision_step-counted_step (to_client n) s = elim (Bool-cases (n == 0)) [
    | inl empty ↦ rw empty refl
    | inr some_bytes ↦ rw some_bytes refl
  ]

  -- A Mux tunnel with Vision counts every chunk as the counting connection does, but it never waits
  -- for a token, whatever limits the node and the user have.
  pub relay_mux_vision-unlimited :
      (cs : List Chunk) (s : Server e)
      → relay_chunks (mux_vision_step uuid node) cs s
        ≡ ((relay_chunks (counted_step uuid node) cs s).0, [])
  unfolding relay_chunks
  relay_mux_vision-unlimited [] s = refl
  relay_mux_vision-unlimited (c ∷ cs) s = rw (
    mux_vision_step-counted_step c s,
    relay_mux_vision-unlimited cs (counted_step uuid node c s).0,
  )
