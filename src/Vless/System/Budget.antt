-- ===== src/Vless/System/Budget.antt =====
-- The quota of proxy/vless over any operations of any users between two payloads of usage.
use mathlib.Core.Option
use native.Mathlib.Nat.{add-zero, zero-add, add_assoc}
use vgate_server.Base.{
  ℕ, ◌+◌, ◌^◌, ◌<◌, ◌≡◌, refl, sym, ap, ◌∙◌, List, [], ◌∷◌, Option, none, some, All, leb, arith,
  ite, if_pos, if_neg,
}
use vgate_server.Base.Int.{pos, add64, add64_pos}
use vgate_server.Base.Text.{Bytes, bytes_key, Bytes-discrete}
use vgate_server.Base.Dict.{get}
use vgate_server.Model.{User, UserUsage}
use vgate_server.Vless.Server.{Externals, Server, QuotaState}
use vgate_server.Vless.Quota.{is_cut, user_over_quota, snapshot}
use vgate_server.Vless.Quota.Accrual.{meter}
use vgate_server.Vless.Quota.Limits.{metered, meter-metered, snapshot-metered}
use vgate_server.Vless.Quota.Snapshot.{Apart, latest}
use vgate_server.Vless.User.Update.{listed}
use vgate_server.Vless.System.{
  Op, configure, set_users, set_usage, collect, name_node, listen_on, open_conn, count, end_conn,
  refuse, perform_all,
}
use vgate_server.Vless.System.Valid.{IsValid}
use vgate_server.Vless.System.Account.{Account, account, grant, react, react_all}
use vgate_server.Vless.System.Emails.{IsSupplied}
use vgate_server.Vless.System.Refines.{perform_all_refines}

abbrev quota_of : {e : Externals} → Account e → Option QuotaState
quota_of a = a.quota

module _ {e : Externals} (uuid : Bytes) where
  -- The bytes that are counted for the user.
  abbrev pub counted_bytes : List (Op e) → ℕ
  counted_bytes [] = 0
  counted_bytes (count id node up down ∷ ops) =
      ite (Bytes-discrete id uuid) (up + down) 0 + counted_bytes ops
  counted_bytes (op ∷ ops) = counted_bytes ops

  -- No payload of usage, and every list of users names the user.
  abbrev pub IsBetween : Op e → Type 0
  IsBetween (set_users us) = (u : User) × (listed uuid us none ≡ some u)
  IsBetween (set_usage us) = ⊥
  IsBetween op = Unit

  module _ (cap used : ℕ) where
    -- The user's account has used up this much since the payload.
    abbrev Metered : ℕ → Account e → Type 0
    Metered n a = a.quota ≡ some (metered cap used n)

    Metered-count :
        (id node : Bytes) (up down n : ℕ) (a : Account e)
        → cap < 2 ^ 63
        → used + n + ite (Bytes-discrete id uuid) (up + down) 0 < 2 ^ 63
        → Metered n a
        → Metered
            (n + ite (Bytes-discrete id uuid) (up + down) 0)
            (react uuid (count id node up down) a)
    Metered-count id node up down n a h k m = elim (Bytes-discrete id uuid) [
      | yes hit ↦
          let fits : used + n + (up + down) < 2 ^ 63 =
            (rw (if_pos (Bytes-discrete id uuid) hit) at k) in
          ap (quota_of {e = e}) (if_pos (Bytes-discrete id uuid) hit _ _)
          ∙ ap (Option.map (meter (add64 (pos up) (pos down)))) m
          ∙ ap some
              (rw (add64_pos up down (omega arith)) (meter-metered cap used n (up + down) h fits))
          ∙ ap (λ b. some (metered cap used (n + b)))
              (sym (if_pos (Bytes-discrete id uuid) hit (up + down) 0))
      | no miss ↦
          ap (quota_of {e = e}) (if_neg (Bytes-discrete id uuid) miss _ _)
          ∙ m
          ∙ ap (λ b. some (metered cap used b)) (sym (add-zero n))
          ∙ ap (λ b. some (metered cap used (n + b)))
              (sym (if_neg (Bytes-discrete id uuid) miss (up + down) 0))
    ]

    Metered-if :
        (id : Bytes) (n : ℕ) (a b : Account e)
        → Metered n a
        → Metered n b
        → Metered n (ite (Bytes-discrete id uuid) a b)
    Metered-if id n a b p q = elim (Bytes-discrete id uuid) [
      | yes hit ↦ ap (quota_of {e = e}) (if_pos (Bytes-discrete id uuid) hit a b) ∙ p
      | no miss ↦ ap (quota_of {e = e}) (if_neg (Bytes-discrete id uuid) miss a b) ∙ q
    ]

    Metered-react_all :
        (ops : List (Op e)) (n : ℕ) (a : Account e)
        → All IsBetween ops
        → cap < 2 ^ 63
        → used + n + counted_bytes ops < 2 ^ 63
        → Metered n a
        → Metered (n + counted_bytes ops) (react_all uuid ops a)
    Metered-react_all [] n a b h k m = rw add-zero m
    Metered-react_all (configure cfg ∷ ops) n a b h k m = Metered-react_all ops n a b.1 h k m
    Metered-react_all (set_users us ∷ ops) n a b h k m =
        let (u, stays) = b.0 in
        Metered-react_all ops n (react uuid (set_users us) a) b.1 h k (rw (stays, grant) m)
    Metered-react_all (set_usage us ∷ ops) n a b h k m = absurd b.0
    Metered-react_all (collect ∷ ops) n a b h k m = Metered-react_all ops n a b.1 h k m
    Metered-react_all (name_node id ∷ ops) n a b h k m = Metered-react_all ops n a b.1 h k m
    Metered-react_all (listen_on l ∷ ops) n a b h k m = Metered-react_all ops n a b.1 h k m
    Metered-react_all (open_conn id conn ∷ ops) n a b h k m =
        Metered-react_all ops n (react uuid (open_conn id conn) a) b.1 h k (Metered-if id n _ a m m)
    Metered-react_all (count id node up down ∷ ops) n a b h k m =
        let more = ite (Bytes-discrete id uuid) (up + down) 0 in
        rw (← add_assoc n more (counted_bytes ops)) (
          Metered-react_all ops (n + more) (react uuid (count id node up down) a) b.1 h
            (omega arith) (Metered-count id node up down n a h (omega arith) m))
    Metered-react_all (end_conn id conn ∷ ops) n a b h k m =
        Metered-react_all ops n (react uuid (end_conn id conn) a) b.1 h k (Metered-if id n _ a m m)
    Metered-react_all (refuse conn ∷ ops) n a b h k m = Metered-react_all ops n a b.1 h k m

  -- From a payload of usage that gives a user `cap` bytes, of which the manager counted `used`, the
  -- user is over quota exactly when `used` and all bytes counted for the user since reach `cap`, over
  -- any operations of any users among which there is no further payload and every list of users names
  -- the user. The server is valid, no two of its users share an email, every list of users gives each
  -- user an email of their own, and the sums fit an int64.
  pub user_over_quota-perform_all :
      (cap used : ℕ) (usage : List UserUsage) (ops : List (Op e)) (s : Server e) (u : User)
      (x : UserUsage)
      → IsValid s
      → Apart s.users
      → get s.users uuid ≡ some u
      → latest u.email usage none ≡ some x
      → x.quota_bytes ≡ pos cap
      → x.used_bytes ≡ pos used
      → All IsSupplied ops
      → All IsBetween ops
      → cap < 2 ^ 63
      → used + counted_bytes ops < 2 ^ 63
      → user_over_quota uuid (perform_all (set_usage usage ∷ ops) s)
        ≡ leb cap (used + counted_bytes ops)
  unfolding user_over_quota
  user_over_quota-perform_all cap used usage ops s u x v apart known found p q own between h k =
      let before = account uuid s in
      let first : Metered cap used 0 (react uuid (set_usage usage) before) = rw known (
        ap (Option.map snapshot) found
        ∙ ap some (snapshot-metered x cap used p q h (omega arith))) in
      let later =
        Metered-react_all cap used ops 0 (react uuid (set_usage usage) before) between h
          (omega arith) first in
      ap (λ a. is_cut (quota_of {e = e} a))
        (perform_all_refines uuid (set_usage usage ∷ ops) s v apart (tt, own))
      ∙ ap is_cut later
      ∙ rw (zero-add (counted_bytes ops)) refl
