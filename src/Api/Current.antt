-- ===== src/Api/Current.antt =====
-- The ETags of api/client.go against a manager that answers conditional requests.
use vgate_server.Base.{◌≡◌, ◌≢◌, refl, ap, List, [], ◌∷◌, Option, none, some, All, arith}
use vgate_server.Base.Text.{Bytes, Bytes-discrete}
use vgate_server.Api.{
  Answer, unreachable, replied, Fetched, fetched, not_modified, no_usage_endpoint, fetch_error,
  if_none_match, fetch_tagged, decoded,
}

-- One poll of a value: the request fails, or it reaches the manager while this is the value there.
pub data Poll (A : Type 0) : Type 0 where
  failed : Answer A → Poll A
  reached : A → Poll A

-- No response, or a status that is neither 200 nor 304.
abbrev pub IsFailure : {A : Type 0} → Answer A → Type 0
IsFailure unreachable = Unit
IsFailure (replied status etag body) = (status ≢ 200) × (status ≢ 304)

-- The value in force after a fetch.
abbrev pub in_force : {A : Type 0} → Fetched A → Option A → Option A
in_force (fetched a) held = some a
in_force not_modified held = held
in_force no_usage_endpoint held = held
in_force fetch_error held = held

module _ {A : Type 0} (tag : A → Bytes) (answer : A → Option Bytes → Answer A) where
  -- The values have tags of their own, and the manager sends a value with its tag unless the request
  -- names that tag.
  pub record IsConditional : Type 0 where
    pub tagged : (v : A) → tag v ≢ []
    pub unlike : (v w : A) → tag v ≡ tag w → v ≡ w
    pub first : (v : A) → answer v none ≡ replied 200 (tag v) (some v)
    pub same : (v : A) → answer v (some (tag v)) ≡ replied 304 [] none
    pub new : (v : A) (t : Bytes) → t ≢ tag v → answer v (some t) ≡ replied 200 (tag v) (some v)

  abbrev pub poll : Poll A → Bytes × Option A → Bytes × Option A
  poll (failed a) (etag, held) =
      let (etag', result) = fetch_tagged etag a in (etag', in_force result held)
  poll (reached v) (etag, held) =
      let (etag', result) = fetch_tagged etag (answer v (if_none_match etag)) in
      (etag', in_force result held)

  abbrev pub poll_all : List (Poll A) → Bytes × Option A → Bytes × Option A
  poll_all [] st = st
  poll_all (p ∷ ps) st = poll_all ps (poll p st)

  abbrev pub IsPoll : Poll A → Type 0
  IsPoll (failed a) = IsFailure a
  IsPoll (reached v) = Unit

  -- The value of the manager at the last poll that reached it.
  abbrev pub last_reached : List (Poll A) → Option A → Option A
  last_reached [] o = o
  last_reached (failed a ∷ ps) o = last_reached ps o
  last_reached (reached v ∷ ps) o = last_reached ps (some v)

  -- The stored tag is that of the value in force.
  abbrev pub Matches : Bytes × Option A → Type 0
  Matches (etag, none) = etag ≡ []
  Matches (etag, some v) = etag ≡ tag v

  fetch_failed :
      (etag : Bytes) (a : Answer A) → IsFailure a → fetch_tagged etag a ≡ (etag, fetch_error)
  unfolding fetch_tagged
  fetch_failed etag unreachable f = refl
  fetch_failed etag (replied status t body) f = ground (arith, f.0, f.1)

  header_lem : (t : Bytes) → t ≢ [] → if_none_match t ≡ some t
  unfolding if_none_match
  header_lem [] h = absurd (h refl)
  header_lem (c ∷ s) h = refl

  poll_reached :
      (st : Bytes × Option A) (v : A)
      → IsConditional
      → Matches st
      → poll (reached v) st ≡ (tag v, some v)
  unfolding fetch_tagged if_none_match decoded
  poll_reached (etag, none) v c m = rw (m, c.first v) refl
  poll_reached (etag, some w) v c m = elim (Bytes-discrete (tag w) (tag v)) [
    | yes hit ↦
        rw (m, header_lem (tag w) (c.tagged w))
          (rw (hit, c.same v) (ap (λ x. (tag v, some x)) (c.unlike w v hit)))
    | no miss ↦ rw (m, header_lem (tag w) (c.tagged w), c.new v (tag w) miss) refl
  ]

  -- After any polls of a manager that answers conditional requests, of which some may fail by no
  -- response or by a status that is neither 200 nor 304, the value in force is the manager's at the
  -- last poll that reached it, and the stored ETag is its tag. Every response of status 200 can be
  -- decoded, and the ETag was that of the value in force before.
  pub poll_all_lem :
      (ps : List (Poll A)) (etag : Bytes) (held : Option A)
      → IsConditional
      → All IsPoll ps
      → Matches (etag, held)
      → let (etag', held') = poll_all ps (etag, held) in
        (held' ≡ last_reached ps held) × Matches (etag', held')
  poll_all_lem [] etag held c ok m = (refl, m)
  poll_all_lem (failed a ∷ ps) etag held c ok m =
      rw (fetch_failed etag a ok.0, poll_all) (poll_all_lem ps etag held c ok.1 m)
  poll_all_lem (reached v ∷ ps) etag held c ok m =
      rw (poll_reached (etag, held) v c m, poll_all) (poll_all_lem ps (tag v) (some v) c ok.1 refl)
