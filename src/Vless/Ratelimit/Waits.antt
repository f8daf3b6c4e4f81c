-- ===== src/Vless/Ratelimit/Waits.antt =====
-- What a transfer of ratelimit.go waits for.
use vgate_server.Base.{
  ℕ, ◌^◌, ◌≡◌, ap, ◌∙◌, List, [], ◌∷◌, ◌++◌, Option, none, some, false, ◌&&◌, if◌then◌else◌, arith,
  Bool-cases, All, inl, inr, suc, ◌<◌,
}
use vgate_server.Base.Int.{ℤ, pos, ltb_ℤ, leb_ℤ, ◌≤ℤ◌}
use vgate_server.Base.Text.{Bytes, bytes_key}
use vgate_server.Base.Dict.{get}
use vgate_server.Vless.Server.{Externals, Server, RateBucket}
use vgate_server.Vless.Ratelimit.{
  min_burst, max_burst, burst_for, Wait, new_bucket, new_rate_bucket, wait, limiter_or_none,
  apply_limits,
}

burst_for_bounds : (rate : ℤ) → (min_burst ≤ℤ burst_for rate) × (burst_for rate ≤ℤ max_burst)
unfolding burst_for
burst_for_bounds rate = ground arith

All-append : {A : Type 0} (P : A → Type 0) (xs ys : List A) → All P xs → All P ys → All P (xs ++ ys)
All-append P [] ys h k = k
All-append P (x ∷ xs) ys h k = (h.0, All-append P xs ys h.1 k)

module _ (e : Externals) where
  -- WaitN refuses more tokens than the burst.
  abbrev pub FitsBurst : Wait e.Limiter → Type 0
  FitsBurst w = w.tokens ≤ℤ e.burst w.bucket

  least_lem : (n burst : ℤ) → (if ltb_ℤ burst n then burst else n) ≤ℤ burst
  least_lem n burst = ground arith

  wait-FitsBurst : (rb : Option (RateBucket e.Limiter)) (n : ℤ) → All FitsBurst (wait e rb n)
  unfolding wait
  wait-FitsBurst none n = tt
  wait-FitsBurst (some rb) n = elim (Bool-cases (leb_ℤ n (pos 0))) [
    | inl nothing ↦ rw nothing tt
    | inr some_bytes ↦ rw some_bytes (least_lem n (e.burst rb.b), tt)
  ]

  limited_lem : (rate : ℤ) → pos 1 ≤ℤ rate → leb_ℤ rate (pos 0) ≡ false
  limited_lem rate h = ground arith

  roomy_lem : (rate : ℤ) (n : ℕ) → n < 2 ^ 20 → ltb_ℤ (burst_for rate) (pos (suc n)) ≡ false
  roomy_lem rate n h = ground (arith, burst_for_bounds rate)

  positive_wait_lem :
      (rb : RateBucket e.Limiter) (n : ℕ)
      → ltb_ℤ (e.burst rb.b) (pos (suc n)) ≡ false
      → wait e (some rb) (pos (suc n)) ≡ record { bucket = rb.b; tokens = pos (suc n) } ∷ []
  unfolding wait
  positive_wait_lem rb n h = rw h (ground arith)

  new_rate_bucket_lem :
      (rate : ℤ)
      → pos 1 ≤ℤ rate
      → new_rate_bucket e rate ≡ some (record { b = new_bucket e rate; rate = rate })
  unfolding new_rate_bucket
  new_rate_bucket_lem rate h = rw (limited_lem rate h)

  -- A transfer of 1 to 2^20 bytes on a bucket of any positive rate waits once, for exactly its bytes:
  -- the burst never cuts it.
  pub wait-new_rate_bucket :
      (rate : ℤ) (n : ℕ)
      → pos 1 ≤ℤ rate
      → n < 2 ^ 20
      → wait e (new_rate_bucket e rate) (pos (suc n))
        ≡ record { bucket = new_bucket e rate; tokens = pos (suc n) } ∷ []
  unfolding new_bucket
  wait-new_rate_bucket rate n limited small =
      ap (λ o. wait e o (pos (suc n))) (new_rate_bucket_lem rate limited)
      ∙ positive_wait_lem (record { b = new_bucket e rate; rate = rate }) n
          (ap (λ b. ltb_ℤ b (pos (suc n))) (e.burst-new_limiter rate (burst_for rate))
            ∙ roomy_lem rate n small)

-- Whatever is transferred, no wait asks a bucket for more tokens than its burst.
pub apply_limits-FitsBurst :
    {e : Externals} (uuid : Bytes) (up down : ℤ) (s : Server e)
    → All (FitsBurst e) (apply_limits uuid up down s)
unfolding apply_limits
apply_limits-FitsBurst {e} uuid up down s =
    elim (Bool-cases (leb_ℤ up (pos 0) && leb_ℤ down (pos 0))) [
      | inl nothing ↦ rw nothing tt
      | inr some_bytes ↦ rw some_bytes (
          All-append (FitsBurst e) _ _ (wait-FitsBurst e s.global_u_limiter up) (
            All-append (FitsBurst e) _ _
              (wait-FitsBurst e (limiter_or_none (get s.user_u_limiters uuid)) up)
              (All-append (FitsBurst e) _ _ (wait-FitsBurst e s.global_d_limiter down)
                (wait-FitsBurst e (limiter_or_none (get s.user_d_limiters uuid)) down))))
    ]
