-- ===== src/Vless/Traffic/Conservation.antt =====
-- Any interleaving of counts and collections keeps the books of traffic.go.
use vgate_server.Base.{
  ℕ, ◌+◌, ◌^◌, ◌<◌, ◌≡◌, ◌≢◌, refl, ap, inl, inr, List, [], ◌∷◌, ◌++◌, Option, none, some, Bool,
  if◌then◌else◌, arith, Bool-cases, Option-cases, All,
}
use vgate_server.Base.Int.{ℤ, pos, ltb_ℤ, add64, add64_count}
use vgate_server.Base.Text.{Bytes, bytes_key, pair_key}
use vgate_server.Base.Dict.{Dict, get, put, update, All-put, All-get, All-update}
use vgate_server.Model.{User, UserTraffic}
use vgate_server.Vless.Server.{Externals, Server, TrafficStat}
use vgate_server.Vless.Quota.Accrual.{users-accrue_quota_locked, traffic-accrue_quota_locked}
use vgate_server.Vless.Traffic.{
  email_of, stat_or_new, reset_stat, add_traffic, get_and_reset_traffic,
}
use vgate_server.Vless.Traffic.Ledger.{
  Direction, Stats, pick, pending, reported, weight, weight?, IsSound, collected, pending-put,
  reported-append,
}

-- The counter after one count.
abbrev pub counted : Dict Bytes User → Stats → Bytes → Bytes → ℤ → ℤ → TrafficStat
counted users m uuid node up down =
    let stat = stat_or_new (email_of (get users uuid)) (get m (uuid, node)) in
    record stat { up = add64 stat.up up; down = add64 stat.down down }

module _ {e : Externals} (uuid node : Bytes) (up down : ℤ) (s : Server e) where
  pub users-add_traffic : (add_traffic uuid node up down s).users ≡ s.users
  unfolding add_traffic
  users-add_traffic = elim (Bool-cases (ltb_ℤ (pos 0) (add64 up down))) [
    | inl more ↦ rw more (users-accrue_quota_locked uuid _ (add64 up down) _)
    | inr idle ↦ rw idle
  ]

  pub traffic-add_traffic :
      (add_traffic uuid node up down s).user_traffic
      ≡ put s.user_traffic (uuid, node) (counted s.users s.user_traffic uuid node up down)
  unfolding add_traffic
  traffic-add_traffic = elim (Bool-cases (ltb_ℤ (pos 0) (add64 up down))) [
    | inl more ↦ rw more (traffic-accrue_quota_locked uuid _ (add64 up down) _)
    | inr idle ↦ rw idle
  ]

module _ (users : Dict Bytes User) (t : ℕ) where
  -- A user's counter, old or new, is sound.
  stat_or_new-IsSound :
      (m : Stats) (key : Bytes × Bytes)
      → email_of (get users key.0) ≢ []
      → All (IsSound users t) m
      → IsSound users t (key, stat_or_new (email_of (get users key.0)) (get m key))
  stat_or_new-IsSound m key known h = elim (Option-cases (get m key)) [
    | inl absent ↦ rw absent (ground arith)
    | inr (stat, found) ↦ rw found (All-get (IsSound users t) m key stat h found)
  ]

  grown :
      (key : Bytes × Bytes) (stat : TrafficStat) (a b : ℕ)
      → t + (a + b) < 2 ^ 63
      → IsSound users t (key, stat)
      → IsSound users
          (t + (a + b))
          (key, record stat { up = add64 stat.up (pos a); down = add64 stat.down (pos b) })
  grown key stat a b fits h =
      ground (arith, add64_count stat.up a h.up_count, add64_count stat.down b h.down_count)

  grow : (m : Stats) (n : ℕ) → All (IsSound users t) m → All (IsSound users (t + n)) m
  grow [] n h = tt
  grow (p ∷ m) n h = (ground arith, grow m n h.1)

  reset-IsSound :
      (m : Stats) → All (IsSound users t) m → All (IsSound users t) (update (reset_stat users) m)
  reset-IsSound m = All-update (IsSound users t) (reset_stat users) m keep
    where
      keep :
          (key : Bytes × Bytes) (stat w : TrafficStat)
          → IsSound users t (key, stat)
          → reset_stat users key stat ≡ some w
          → IsSound users t (key, w)
      keep key stat w h e = unfold reset_stat in ground arith

-- What the server does to its counters.
pub data Activity : Type 0 where
  count : Bytes → Bytes → ℕ → ℕ → Activity
  collect : Activity

-- The last server, and the reports of all collections.
unfoldable pub run : {e : Externals} → List Activity → Server e → Server e × List UserTraffic
run [] s = (s, [])
run (count uuid node up down ∷ acts) s = run acts (add_traffic uuid node (pos up) (pos down) s)
run (collect ∷ acts) s =
    let (s', now) = get_and_reset_traffic s in let (t, later) = run acts s' in (t, now ++ later)

-- Every count is of a user with an email.
abbrev pub Known : Dict Bytes User → List Activity → Type 0
Known users [] = Unit
Known users (count uuid node up down ∷ acts) = (email_of (get users uuid) ≢ []) × Known users acts
Known users (collect ∷ acts) = Known users acts

-- All bytes counted.
abbrev pub volume : List Activity → ℕ
volume [] = 0
volume (count uuid node up down ∷ acts) = up + down + volume acts
volume (collect ∷ acts) = volume acts

module _ (mine : Bytes → Bytes → Bool) (d : Direction) (users : Dict Bytes User) where
  -- The bytes counted in one direction for the chosen emails and entry points.
  abbrev pub spent : List Activity → ℕ
  spent [] = 0
  spent (count uuid node up down ∷ acts) =
      (if mine (email_of (get users uuid)) node then pick d up down else 0) + spent acts
  spent (collect ∷ acts) = spent acts

IsSound-add_traffic :
    {e : Externals} (uuid node : Bytes) (a b t : ℕ) (s : Server e)
    → email_of (get s.users uuid) ≢ []
    → t + (a + b) < 2 ^ 63
    → All (IsSound s.users t) s.user_traffic
    → All (IsSound s.users (t + (a + b))) (add_traffic uuid node (pos a) (pos b) s).user_traffic
IsSound-add_traffic uuid node a b t s known fits h =
    rw (traffic-add_traffic uuid node (pos a) (pos b) s) (
      All-put (IsSound s.users (t + (a + b))) s.user_traffic (uuid, node) _
        (grow s.users t s.user_traffic (a + b) h)
        (grown s.users t (uuid, node) _ a b fits
          (stat_or_new-IsSound s.users t s.user_traffic (uuid, node) known h)))

module _ (mine : Bytes → Bytes → Bool) (d : Direction) where
  weight_grown :
      (users : Dict Bytes User) (key : Bytes × Bytes) (stat : TrafficStat) (a b t : ℕ)
      → t + (a + b) < 2 ^ 63
      → IsSound users t (key, stat)
      → weight mine d key
          (record stat { up = add64 stat.up (pos a); down = add64 stat.down (pos b) })
        ≡ weight mine d key stat
          + (if mine (email_of (get users key.0)) key.1 then pick d a b else 0)
  weight_grown users key stat a b t fits h =
      rw (← h.owner)
        (ground (arith, add64_count stat.up a h.up_count, add64_count stat.down b h.down_count))

  pub weight_found :
      (email : Bytes) (key : Bytes × Bytes) (o : Option TrafficStat)
      → weight? mine d key o ≡ weight mine d key (stat_or_new email o)
  weight_found email key none = ground arith
  weight_found email key (some stat) = refl

module _ {e : Externals} (mine : Bytes → Bytes → Bool) (d : Direction) where
  pending-add_traffic :
      (uuid node : Bytes) (a b t : ℕ) (s : Server e)
      → email_of (get s.users uuid) ≢ []
      → t + (a + b) < 2 ^ 63
      → All (IsSound s.users t) s.user_traffic
      → pending mine d (add_traffic uuid node (pos a) (pos b) s).user_traffic
        ≡ pending mine d s.user_traffic
          + (if mine (email_of (get s.users uuid)) node then pick d a b else 0)
  pending-add_traffic uuid node a b t s known fits h =
      let email = email_of (get s.users uuid) in
      let old = get s.user_traffic (uuid, node) in
      let sound = stat_or_new-IsSound s.users t s.user_traffic (uuid, node) known h in
      rw (traffic-add_traffic uuid node (pos a) (pos b) s) (
        omega (
          arith,
          pending-put mine d s.user_traffic (uuid, node)
              (counted s.users s.user_traffic uuid node (pos a) (pos b)),
          weight_grown mine d s.users (uuid, node) (stat_or_new email old) a b t fits sound,
          weight_found mine d email (uuid, node) old,
        ))

  -- For every choice of emails and entry points, and in each direction: what the counters held and
  -- what was counted since is what was reported and what the counters hold. The counts are of known
  -- users, and all together fit an int64.
  run_conserves :
      (acts : List Activity) (t : ℕ) (s : Server e)
      → All (IsSound s.users t) s.user_traffic
      → Known s.users acts
      → t + volume acts < 2 ^ 63
      → let (s', reports) = run acts s in
        reported mine d reports + pending mine d s'.user_traffic
        ≡ pending mine d s.user_traffic + spent mine d s.users acts
  unfolding run get_and_reset_traffic
  run_conserves [] t s h k fits = omega arith
  run_conserves (count uuid node a b ∷ acts) t s h k fits =
      let s' = add_traffic uuid node (pos a) (pos b) s in
      let same = users-add_traffic uuid node (pos a) (pos b) s in
      let ih =
        run_conserves acts (t + (a + b)) s'
          (rw same (IsSound-add_traffic uuid node a b t s k.0 (omega arith) h)) (rw same k.1)
          (omega arith) in
      omega (
        arith,
        ih,
        pending-add_traffic uuid node a b t s k.0 (omega arith) h,
        ap (λ users. spent mine d users acts) same,
      )
  run_conserves (collect ∷ acts) t s h k fits =
      rw (reported-append mine d (get_and_reset_traffic s).1) (
        omega (
          arith,
          run_conserves acts t (get_and_reset_traffic s).0
              (reset-IsSound s.users t s.user_traffic h) k fits,
          collected mine d s.users t s.user_traffic h,
        ))
