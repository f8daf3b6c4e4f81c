-- ===== src/Vless/System/Gate.antt =====
-- Whom the handler of proxy/vless lets through after any operations.
use vgate_server.Base.{
  ◌≡◌, refl, ap, ◌∙◌, List, [], ◌∷◌, Option, none, some, All, if◌then◌else◌, ite, if_pos, if_neg,
}
use vgate_server.Base.Text.{Bytes, bytes_key, Bytes-discrete}
use vgate_server.Model.{User}
use vgate_server.Vless.Server.{Externals, Server}
use vgate_server.Vless.Quota.{is_cut, user_over_quota}
use vgate_server.Vless.Quota.Snapshot.{Apart}
use vgate_server.Vless.User.Update.{listed}
use vgate_server.Vless.Handler.Wire.{Step, ok, reject, Reading, unknown_user, over_quota}
use vgate_server.Vless.Handler.{authorise}
use vgate_server.Vless.System.{
  Op, configure, set_users, set_usage, collect, name_node, listen_on, open_conn, count, end_conn,
  refuse, perform_all,
}
use vgate_server.Vless.System.Valid.{IsValid}
use vgate_server.Vless.System.Account.{Account, account, grant, revoke, react, react_all}
use vgate_server.Vless.System.Emails.{IsSupplied}
use vgate_server.Vless.System.Refines.{perform_all_refines}

abbrev user_of : {e : Externals} → Account e → Option User
user_of a = a.user

module _ {e : Externals} (uuid : Bytes) where
  -- What the account alone says of a request.
  abbrev verdict : Reading → Account e → Step (Bytes × Reading)
  verdict r a = elim a.user [
    | none ↦ reject unknown_user
    | some _ ↦ if is_cut a.quota then reject over_quota else ok (uuid, r)
  ]

  authorise-account : (r : Reading) (s : Server e) → authorise uuid r s ≡ verdict r (account uuid s)
  unfolding authorise user_over_quota
  authorise-account r s = refl

  -- After any operations of any users, the handler's decision on a request is the one that the user's
  -- own rules give: it does not depend on what is done for others.
  authorise-perform_all :
      (r : Reading) (ops : List (Op e)) (s : Server e)
      → IsValid s
      → Apart s.users
      → All IsSupplied ops
      → authorise uuid r (perform_all ops s) ≡ verdict r (react_all uuid ops (account uuid s))
  authorise-perform_all r ops s v apart own =
      authorise-account r (perform_all ops s)
      ∙ ap (verdict r) (perform_all_refines uuid ops s v apart own)

  -- No list among the operations names the user.
  abbrev pub IsUnlisted : Op e → Type 0
  IsUnlisted (set_users us) = listed uuid us none ≡ none
  IsUnlisted op = Unit

  react_if :
      (id : Bytes) (a b : Account e)
      → a.user ≡ none
      → b.user ≡ none
      → (ite (Bytes-discrete id uuid) a b).user ≡ none
  react_if id a b p q = elim (Bytes-discrete id uuid) [
    | yes hit ↦ ap (user_of {e = e}) (if_pos (Bytes-discrete id uuid) hit a b) ∙ p
    | no miss ↦ ap (user_of {e = e}) (if_neg (Bytes-discrete id uuid) miss a b) ∙ q
  ]

  revoked_user : (o : Option User) (a : Account e) → a.user ≡ o → (revoke o a).user ≡ none
  revoked_user none a h = h
  revoked_user (some u) a h = refl

  verdict_stranger :
      (r : Reading) (a : Account e) → a.user ≡ none → verdict r a ≡ reject unknown_user
  verdict_stranger r a h = rw (h, verdict) refl

  react_stranger :
      (op : Op e) (a : Account e) → IsUnlisted op → a.user ≡ none → (react uuid op a).user ≡ none
  react_stranger (configure cfg) a out h = h
  react_stranger (set_users us) a out h = rw (out, grant) (revoked_user a.user a refl)
  react_stranger (set_usage us) a out h = h
  react_stranger collect a out h = h
  react_stranger (name_node id) a out h = h
  react_stranger (listen_on l) a out h = h
  react_stranger (open_conn id conn) a out h = react_if id _ a h h
  react_stranger (count id node up down) a out h = react_if id _ a h h
  react_stranger (end_conn id conn) a out h = react_if id _ a h h
  react_stranger (refuse conn) a out h = h

  react_all_stranger :
      (ops : List (Op e)) (a : Account e)
      → All IsUnlisted ops
      → a.user ≡ none
      → (react_all uuid ops a).user ≡ none
  react_all_stranger [] a out h = h
  react_all_stranger (op ∷ ops) a out h =
      react_all_stranger ops (react uuid op a) out.1 (react_stranger op a out.0 h)

  -- Once a list of users leaves a user out, the handler refuses the user's requests as those of a
  -- stranger for as long as no later list names the user, whatever else is done. The server is valid,
  -- no two of its users share an email, and every list of users gives each user an email of their own.
  pub unlisted_refused :
      (r : Reading) (us : List User) (ops : List (Op e)) (s : Server e)
      → IsValid s
      → Apart s.users
      → listed uuid us none ≡ none
      → All IsSupplied (set_users us ∷ ops)
      → All IsUnlisted ops
      → authorise uuid r (perform_all (set_users us ∷ ops) s) ≡ reject unknown_user
  unlisted_refused r us ops s v apart gone own out =
      let before = account uuid s in
      let left_out : (react uuid (set_users us) before).user ≡ none =
        rw (gone, grant) (revoked_user before.user before refl) in
      authorise-perform_all r (set_users us ∷ ops) s v apart own
      ∙ verdict_stranger r (react_all uuid (set_users us ∷ ops) before)
          (react_all_stranger ops (react uuid (set_users us) before) out left_out)
