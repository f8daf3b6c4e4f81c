-- ===== src/Vless/Quota/Snapshot.antt =====
-- ApplyUsage of quota.go: which state each user gets from a payload.
use mathlib.Core.Option
use vgate_server.Base.{
  ◌≡◌, ◌≢◌, refl, ap, ◌∙◌, inl, inr, List, [], ◌∷◌, Option, none, some, arith, Option-cases, ite,
  if_pos, if_neg, All,
}
use vgate_server.Base.Text.{Bytes, bytes_key, Bytes-discrete}
use vgate_server.Base.Dict.{Dict, get, put, Distinct, get-put, get-put_self, get-put_ne}
use vgate_server.Model.{User, UserUsage}
use vgate_server.Vless.Server.{Externals, Server, QuotaState}
use vgate_server.Vless.Quota.{email_uuids, apply_entry, new_quota, apply_usage, snapshot}

-- No user of the list has this email.
abbrev pub Free : Bytes → Dict Bytes User → Type 0
Free email = All λ p. p.1.email ≢ email

-- No two users share an email.
abbrev pub Apart : Dict Bytes User → Type 0
Apart [] = Unit
Apart ((uuid, u) ∷ us) = Free u.email us × Apart us

-- The last entry of a payload for an email, or else the given one.
abbrev pub latest : Bytes → List UserUsage → Option UserUsage → Option UserUsage
latest email [] o = o
latest email (x ∷ xs) o = latest email xs (ite (Bytes-discrete x.email email) (some x) o)

uuids-Free :
    (email : Bytes) (us : Dict Bytes User) (m : Dict Bytes Bytes)
    → Free email us
    → get (email_uuids us m) email ≡ get m email
unfolding email_uuids
uuids-Free email [] m h = refl
uuids-Free email ((k, u) ∷ us) m h = uuids-Free email us (put m u.email k) h.1 ∙ get-put_ne m k h.0

uuids_complete :
    (uuid : Bytes) (u : User) (us : Dict Bytes User) (m : Dict Bytes Bytes)
    → Apart us
    → get us uuid ≡ some u
    → get (email_uuids us m) u.email ≡ some uuid
unfolding email_uuids get
uuids_complete uuid u [] m a h = cc
uuids_complete uuid u ((k, v) ∷ us) m a h = elim (Bytes-discrete k uuid) [
  | yes hit ↦ ground (arith, uuids-Free v.email us (put m v.email k) a.0, get-put_self m v.email k)
  | no miss ↦ uuids_complete uuid u us (put m v.email k) a.1 (ground arith)
]

uuids_of_absent :
    (uuid email : Bytes) (us : Dict Bytes User) (m : Dict Bytes Bytes)
    → get us uuid ≡ none
    → get (email_uuids us m) email ≡ some uuid
    → get m email ≡ some uuid
unfolding email_uuids get
uuids_of_absent uuid email [] m a h = h
uuids_of_absent uuid email ((k, v) ∷ us) m a h =
    ground (arith, uuids_of_absent uuid email us (put m v.email k), get-put m v.email email k)

uuids_sound :
    (uuid email : Bytes) (u : User) (us : Dict Bytes User) (m : Dict Bytes Bytes)
    → Distinct us
    → get us uuid ≡ some u
    → (get m email ≡ some uuid → email ≡ u.email)
    → get (email_uuids us m) email ≡ some uuid
    → email ≡ u.email
unfolding email_uuids get
uuids_sound uuid email u [] m d h old found = cc
uuids_sound uuid email u ((k, v) ∷ us) m d h old found = elim (Bytes-discrete k uuid) [
  | yes hit ↦
      ground (arith, uuids_of_absent uuid email us (put m v.email k), get-put m v.email email k)
  | no miss ↦
      uuids_sound uuid email u us (put m v.email k) d.1 (ground arith)
        (ground (arith, get-put m v.email email k)) found
]

module _ (uuid : Bytes) (uuids : Dict Bytes Bytes) (x : UserUsage) (m : Dict Bytes QuotaState) where
  get-apply_entry_hit :
      get uuids x.email ≡ some uuid → get (apply_entry uuids x m) uuid ≡ some (snapshot x)
  unfolding apply_entry
  get-apply_entry_hit h = rw (h, apply_entry) (get-put_self m uuid (snapshot x))

  get-apply_entry_miss :
      get uuids x.email ≢ some uuid → get (apply_entry uuids x m) uuid ≡ get m uuid
  unfolding apply_entry
  get-apply_entry_miss h = elim (Option-cases (get uuids x.email)) [
    | inl absent ↦ rw (absent, apply_entry)
    | inr (j, found) ↦
        rw (found, apply_entry) (get-put_ne m (snapshot x) (λ p. h (found ∙ ap some p)))
  ]

module _ (uuid : Bytes) (u : User) (uuids : Dict Bytes Bytes)
    (known : get uuids u.email ≡ some uuid)
    (only : (email : Bytes) → get uuids email ≡ some uuid → email ≡ u.email) where
  get-apply_entry :
      (x : UserUsage) (m : Dict Bytes QuotaState) (o : Option UserUsage)
      → get m uuid ≡ Option.map snapshot o
      → get (apply_entry uuids x m) uuid
        ≡ Option.map snapshot (ite (Bytes-discrete x.email u.email) (some x) o)
  get-apply_entry x m o h = elim (Bytes-discrete x.email u.email) [
    | yes hit ↦ rw (if_pos _ hit) (get-apply_entry_hit uuid uuids x m (ap (get uuids) hit ∙ known))
    | no miss ↦
        rw (if_neg _ miss) (get-apply_entry_miss uuid uuids x m (λ p. miss (only x.email p)) ∙ h)
  ]

  quota_of_known :
      (us : List UserUsage) (m : Dict Bytes QuotaState) (o : Option UserUsage)
      → get m uuid ≡ Option.map snapshot o
      → get (new_quota uuids us m) uuid ≡ Option.map snapshot (latest u.email us o)
  unfolding new_quota
  quota_of_known [] m o h = h
  quota_of_known (x ∷ us) m o h =
      quota_of_known us (apply_entry uuids x m) (ite (Bytes-discrete x.email u.email) (some x) o)
        (get-apply_entry x m o h)

quota_of_stranger :
    (uuid : Bytes) (uuids : Dict Bytes Bytes) (us : List UserUsage) (m : Dict Bytes QuotaState)
    → ((email : Bytes) → get uuids email ≢ some uuid)
    → get (new_quota uuids us m) uuid ≡ get m uuid
unfolding new_quota
quota_of_stranger uuid uuids [] m only = refl
quota_of_stranger uuid uuids (x ∷ us) m only =
    quota_of_stranger uuid uuids us (apply_entry uuids x m) only
    ∙ get-apply_entry_miss uuid uuids x m (only x.email)

nothing_there : (uuid email : Bytes) → get {K = Bytes} {V = Bytes} [] email ≢ some uuid
unfolding get
nothing_there uuid email h = cc

module _ {e : Externals} (usage : List UserUsage) (s : Server e) (uuid : Bytes) where
  -- If no two users share an email, a user gets a fresh state from the last entry of the payload
  -- with the user's email, and no state if there is no such entry.
  pub quota-apply_usage :
      (u : User)
      → Distinct s.users
      → Apart s.users
      → get s.users uuid ≡ some u
      → get (apply_usage usage s).user_quota uuid ≡ Option.map snapshot (latest u.email usage none)
  unfolding apply_usage
  quota-apply_usage u d a h =
      quota_of_known uuid u (email_uuids s.users []) (uuids_complete uuid u s.users [] a h)
        (λ email.
          uuids_sound uuid email u s.users [] d h (λ p. absurd (nothing_there uuid email p)))
        usage [] none (unfold get in refl)

  -- Who is no user gets no state, whatever the payload.
  pub quota-apply_usage_stranger :
      get s.users uuid ≡ none → get (apply_usage usage s).user_quota uuid ≡ none
  unfolding apply_usage
  quota-apply_usage_stranger h =
      quota_of_stranger uuid (email_uuids s.users []) usage []
        (λ email found. nothing_there uuid email (uuids_of_absent uuid email s.users [] h found))
      ∙ unfold get in refl
