-- ===== src/Vless/System/Emails.antt =====
-- If the manager gives every user an email of their own, then no two users of the server share one,
-- whatever else happens.
use vgate_server.Base.{◌≢◌, sym, inl, inr, List, [], ◌∷◌, Option-cases, All, if_pos, if_neg}
use vgate_server.Base.Text.{Bytes, bytes_key, Bytes-discrete}
use vgate_server.Base.Dict.{Dict, put, All-put}
use vgate_server.Model.{User}
use vgate_server.Vless.Server.{Externals, Server}
use vgate_server.Vless.Quota.Snapshot.{Free, Apart}
use vgate_server.Vless.Protocol.{parse_uuid}
use vgate_server.Vless.User.{Filled, fill_user, fill_users, update_users}
use vgate_server.Vless.User.Access.{users-drop_users}
use vgate_server.Vless.System.{Op, set_users}

-- No two users of a list share an email.
abbrev pub OwnEmails : List User → Type 0
OwnEmails [] = Unit
OwnEmails (u ∷ us) = All (λ v. u.email ≢ v.email) us × OwnEmails us

put-Apart :
    (m : Dict Bytes User) (uuid : Bytes) (u : User)
    → Free u.email m
    → Apart m
    → Apart (put m uuid u)
unfolding put
put-Apart [] uuid u f a = (tt, tt)
put-Apart ((k, v) ∷ m) uuid u f a = elim (Bytes-discrete k uuid) [
  | yes hit ↦ rw (if_pos (Bytes-discrete k uuid) hit) (f.1, a.1)
  | no miss ↦ rw (if_neg (Bytes-discrete k uuid) miss) (
    All-put (λ p. p.1.email ≢ v.email) m uuid u a.0 (λ p. f.0 (sym p)),
    put-Apart m uuid u f.1 a.1,
  )
]

put-Free :
    (us : List User) (m : Dict Bytes User) (uuid : Bytes) (u : User)
    → All (λ v. u.email ≢ v.email) us
    → All (λ v. Free v.email m) us
    → All (λ v. Free v.email (put m uuid u)) us
put-Free [] m uuid u own f = tt
put-Free (v ∷ us) m uuid u own f =
    (All-put (λ p. p.1.email ≢ v.email) m uuid u f.0 own.0, put-Free us m uuid u own.1 f.1)

nil-Free : (us : List User) → All (λ v. Free v.email []) us
nil-Free [] = tt
nil-Free (u ∷ us) = (tt, nil-Free us)

module _ {e : Externals} where
  fill_users-Apart :
      (s : Server e) (us : List User) (f : Filled e)
      → OwnEmails us
      → All (λ v. Free v.email f.users) us
      → Apart f.users
      → Apart (fill_users s us f).users
  unfolding fill_users fill_user
  fill_users-Apart s [] f own free a = a
  fill_users-Apart s (u ∷ us) f own free a = elim (Option-cases (parse_uuid u.id)) [
    | inl bad ↦ rw (bad, Apart) (fill_users-Apart s us f own.1 free.1 a)
    | inr (uuid, good) ↦
        rw (good, Apart)
          (fill_users-Apart s us (fill_user s u uuid f) own.1
            (put-Free us f.users uuid u own.0 free.1) (put-Apart f.users uuid u free.0 a))
  ]

  pub update_users-Apart :
      (us : List User) (s : Server e) → OwnEmails us → Apart (update_users us s).users
  unfolding update_users
  update_users-Apart us s own = rw users-drop_users (fill_users-Apart s us _ own (nil-Free us) tt)

  -- A list of users that the manager may send.
  abbrev pub IsSupplied : Op e → Type 0
  IsSupplied (set_users us) = OwnEmails us
  IsSupplied op = Unit
