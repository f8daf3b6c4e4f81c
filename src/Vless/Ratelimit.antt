-- ===== src/Vless/Ratelimit.antt =====
-- proxy/vless/ratelimit.go: token buckets, and the waits of one transfer.
pub mod Waits
use vgate_server.Base.{◌^◌, ◌*◌, List, [], ◌∷◌, ◌++◌, Option, none, some, ◌&&◌, if◌then◌else◌}
use vgate_server.Base.Int.{ℤ, pos, ltb_ℤ, leb_ℤ}
use vgate_server.Base.Text.{Bytes, bytes_key}
use vgate_server.Base.Dict.{get}
use vgate_server.Vless.Server.{Externals, Server, RateBucket}

abbrev pub min_burst : ℤ
min_burst = pos (2 ^ 20)

abbrev pub max_burst : ℤ
max_burst = pos (8 * 2 ^ 20)

-- The burst that `newBucket` chooses for a rate.
unfoldable pub burst_for : ℤ → ℤ
burst_for rate =
    let floor = if ltb_ℤ rate min_burst then min_burst else rate in
    if ltb_ℤ max_burst floor then max_burst else floor

-- A call of `WaitN`: the bucket and the tokens that it asks for.
pub record Wait (Limiter : Type 0) : Type 0 where
  pub bucket : Limiter
  pub tokens : ℤ

module _ (e : Externals) where
  unfoldable pub new_bucket : ℤ → e.Limiter
  unfolding burst_for
  new_bucket rate = e.new_limiter rate (burst_for rate)

  unfoldable pub new_rate_bucket : ℤ → Option (RateBucket e.Limiter)
  unfolding new_bucket
  new_rate_bucket rate =
      if leb_ℤ rate (pos 0) then none else some (record { b = new_bucket rate; rate = rate })

  -- The closure `wait`: at most one call of `WaitN`.
  unfoldable pub wait : Option (RateBucket e.Limiter) → ℤ → List (Wait e.Limiter)
  wait none n = []
  wait (some rb) n =
      if leb_ℤ n (pos 0)
      then []
      else record { bucket = rb.b; tokens = if ltb_ℤ (e.burst rb.b) n then e.burst rb.b else n }
        ∷ []

-- `m[uuid]` where a missing key reads as nil
abbrev pub limiter_or_none {ℓ} : {A : Type ℓ} → Option (Option A) → Option A
limiter_or_none none = none
limiter_or_none (some b) = b

module _ {e : Externals} where
  -- applyLimits: the waits in order; the server does not change
  unfoldable pub apply_limits : Bytes → ℤ → ℤ → Server e → List (Wait e.Limiter)
  unfolding wait
  apply_limits uuid up down s =
      if leb_ℤ up (pos 0) && leb_ℤ down (pos 0)
      then []
      else wait e s.global_u_limiter up
        ++ (wait e (limiter_or_none (get s.user_u_limiters uuid)) up
            ++ (wait e s.global_d_limiter down
                ++ wait e (limiter_or_none (get s.user_d_limiters uuid)) down))
