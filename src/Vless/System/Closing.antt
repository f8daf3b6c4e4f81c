-- ===== src/Vless/System/Closing.antt =====
-- A registered connection of proxy/vless does not get lost: it stays registered until it is closed.
use mathlib.Core.List.{Mem, mem-cons_self, mem-cons_of_mem, mem-append_right}
use vgate_server.Base.{
  ℕ, ◌≡◌, ◌≢◌, refl, sym, ap, ◌∙◌, ◌⊎◌, inl, inr, List, [], ◌∷◌, ◌++◌, append_assoc, none, Bool,
  true, not, ◌&&◌, arith, Bool-cases, Option-cases, ℕ_discrete, if_pos, if_neg,
}
use vgate_server.Base.Int.{pos}
use vgate_server.Base.Text.{Bytes, bytes_key, nat_key, Bytes-discrete}
use vgate_server.Base.Dict.{Dict, get}
use vgate_server.Model.{User, Config}
use vgate_server.Vless.Server.{Externals, Server, ConnSet, set_node_id}
use vgate_server.Vless.Quota.{members, apply_usage, user_over_quota}
use vgate_server.Vless.Quota.Cut.{conns_of, closed-add_traffic}
use vgate_server.Vless.Traffic.{add_traffic, get_and_reset_traffic}
use vgate_server.Vless.User.{
  update_users, add_conn, remove_conn, remove_found, drop_user, drop_users,
}
use vgate_server.Vless.User.Update.{listed}
use vgate_server.Vless.User.Access.{
  update_users_revokes, update_users_keeps, conns-update_users_absent,
}
use vgate_server.Vless.Handler.{finish, close_conn}
use vgate_server.Vless.Config.{update_vless, update_config}
use vgate_server.Vless.System.{
  Op, configure, set_users, set_usage, collect, name_node, listen_on, open_conn, count, end_conn,
  refuse, perform, perform_all,
}
use vgate_server.Vless.System.Account.{Account, account, has_conn, is_some, react}
use vgate_server.Vless.System.Reactions.{
  account-update_config, account-add_conn, account-finish, account-add_traffic,
}

abbrev opens : {e : Externals} → ℕ → Account e → Bool
opens c a = a.is_open c

found-Mem : (m : ConnSet) (c : ℕ) → is_some (get m c) ≡ true → Mem c (members m)
unfolding get
found-Mem [] c h = cc
found-Mem ((k, v) ∷ m) c h = elim (ℕ_discrete k c) [
  | yes hit ↦ rw hit mem-cons_self
  | no miss ↦ mem-cons_of_mem k (found-Mem m c (rw (if_neg (ℕ_discrete k c) miss) at h))
]

-- A list of closed connections, and a later one: none is taken out.
pub record IsGrown (old new : List ℕ) : Type 0 where
  pub more : List ℕ
  pub grown : new ≡ more ++ old

IsGrown-trans : {xs ys zs : List ℕ} → IsGrown xs ys → IsGrown ys zs → IsGrown xs zs
IsGrown-trans {xs = xs} p q = record {
  more = q.more ++ p.more;
  grown = q.grown ∙ ap (λ t. q.more ++ t) p.grown ∙ sym (append_assoc q.more p.more xs);
}

module _ {e : Externals} where
  closed-update_config :
      (cfg : Config e.Settings) (s : Server e) → (update_config cfg s).0.closed ≡ s.closed
  unfolding update_config update_vless
  closed-update_config cfg s = ground arith

  closed-remove_conn :
      (uuid : Bytes) (conn : ℕ) (s : Server e) → (remove_conn uuid conn s).closed ≡ s.closed
  unfolding remove_conn remove_found
  closed-remove_conn uuid conn s = ground arith

  drop_user_grows : (k : Bytes) (s : Server e) → IsGrown s.closed (drop_user k s).closed
  unfolding drop_user
  drop_user_grows k s = elim (Option-cases (get s.users k)) [
    | inl gone ↦ rw (gone, drop_user) (record { more = conns_of k s; grown = refl })
    | inr (u, stays) ↦ rw (stays, drop_user) (record { more = []; grown = refl })
  ]

  drop_users_grows :
      (old : Dict Bytes User) (s : Server e) → IsGrown s.closed (drop_users old s).closed
  unfolding drop_users
  drop_users_grows [] s = record { more = []; grown = refl }
  drop_users_grows ((k, u) ∷ old) s =
      IsGrown-trans (drop_user_grows k s) (drop_users_grows old (drop_user k s))

  add_traffic_grows :
      (uuid node : Bytes) (up down : ℕ) (s : Server e)
      → IsGrown s.closed (add_traffic uuid node (pos up) (pos down) s).closed
  add_traffic_grows uuid node up down s =
      let t = add_traffic uuid node (pos up) (pos down) s in
      elim (Bool-cases (user_over_quota uuid t && not (user_over_quota uuid s))) [
        | inl cut ↦
            rw (closed-add_traffic uuid node (pos up) (pos down) s, cut)
              (record { more = conns_of uuid s; grown = refl })
        | inr same ↦
            rw (closed-add_traffic uuid node (pos up) (pos down) s, same)
              (record { more = []; grown = refl })
      ]

  -- Close is not undone.
  perform_grows : (op : Op e) (s : Server e) → IsGrown s.closed (perform op s).closed
  unfolding perform update_users apply_usage get_and_reset_traffic set_node_id add_conn finish
      close_conn
  perform_grows (configure cfg) s = record { more = []; grown = closed-update_config cfg s }
  perform_grows (set_users us) s = drop_users_grows s.users _
  perform_grows (set_usage us) s = record { more = []; grown = refl }
  perform_grows collect s = record { more = []; grown = refl }
  perform_grows (name_node id) s = record { more = []; grown = refl }
  perform_grows (listen_on l) s = record { more = []; grown = refl }
  perform_grows (open_conn id conn) s = record { more = []; grown = refl }
  perform_grows (count id node up down) s = add_traffic_grows id node up down s
  perform_grows (end_conn id conn) s = record {
    more = conn ∷ [];
    grown = ap (λ cs. conn ∷ cs) (closed-remove_conn id conn s);
  }
  perform_grows (refuse conn) s = record { more = conn ∷ []; grown = refl }

  perform_all_grows :
      (ops : List (Op e)) (s : Server e) → IsGrown s.closed (perform_all ops s).closed
  unfolding perform_all
  perform_all_grows [] s = record { more = []; grown = refl }
  perform_all_grows (op ∷ ops) s =
      IsGrown-trans (perform_grows op s) (perform_all_grows ops (perform op s))

module _ {e : Externals} (uuid : Bytes) (c : ℕ) where
  -- The connection is in the user's set, or it was closed.
  abbrev pub Kept : Server e → Type 0
  Kept s = (has_conn uuid s c ≡ true) ⊎ Mem c s.closed

  Kept-update_users :
      (us : List User) (s : Server e) → has_conn uuid s c ≡ true → Kept (update_users us s)
  Kept-update_users us s h = elim (Option-cases (listed uuid us none)) [
    | inr (u, stays) ↦ inl (rw ((update_users_keeps us s uuid u stays).0) h)
    | inl gone ↦ elim (Option-cases (get s.users uuid)) [
      | inl unknown ↦ inl (rw (conns-update_users_absent us s uuid unknown) h)
      | inr (u, known) ↦ inr ((update_users_revokes us s uuid u known gone).2 c (found-Mem _ c h))
    ]
  ]

  open_after_end :
      (id : Bytes) (conn : ℕ) (s : Server e)
      → conn ≢ c
      → has_conn uuid s c ≡ true
      → (react uuid (end_conn id conn) (account uuid s)).is_open c ≡ true
  open_after_end id conn s other h = elim (Bytes-discrete id uuid) [
    | yes hit ↦
        ap (opens c) (if_pos (Bytes-discrete id uuid) hit _ _)
        ∙ (rw (if_neg (ℕ_discrete conn c) other) h)
    | no miss ↦ ap (opens c) (if_neg (Bytes-discrete id uuid) miss _ _) ∙ h
  ]

  open_after_begin :
      (id : Bytes) (conn : ℕ) (s : Server e)
      → has_conn uuid s c ≡ true
      → (react uuid (open_conn id conn) (account uuid s)).is_open c ≡ true
  open_after_begin id conn s h = elim (Bytes-discrete id uuid) [
    | yes hit ↦ ap (opens c) (if_pos (Bytes-discrete id uuid) hit _ _) ∙ (ground arith)
    | no miss ↦ ap (opens c) (if_neg (Bytes-discrete id uuid) miss _ _) ∙ h
  ]

  open_after_count :
      (id node : Bytes) (up down : ℕ) (s : Server e)
      → has_conn uuid s c ≡ true
      → (react uuid (count id node up down) (account uuid s)).is_open c ≡ true
  open_after_count id node up down s h = elim (Bytes-discrete id uuid) [
    | yes hit ↦ ap (opens c) (if_pos (Bytes-discrete id uuid) hit _ _) ∙ h
    | no miss ↦ ap (opens c) (if_neg (Bytes-discrete id uuid) miss _ _) ∙ h
  ]

  Kept-finish :
      (id : Bytes) (conn : ℕ) (s : Server e) → has_conn uuid s c ≡ true → Kept (finish id conn s)
  unfolding finish close_conn
  Kept-finish id conn s h = elim (ℕ_discrete conn c) [
    | yes hit ↦ inr (rw hit mem-cons_self)
    | no other ↦
        inl (ap (opens c) (account-finish uuid s id conn) ∙ open_after_end id conn s other h)
  ]

  perform-Kept : (op : Op e) (s : Server e) → has_conn uuid s c ≡ true → Kept (perform op s)
  unfolding perform apply_usage get_and_reset_traffic set_node_id close_conn
  perform-Kept (configure cfg) s h = inl (ap (opens c) (account-update_config uuid s cfg) ∙ h)
  perform-Kept (set_users us) s h = Kept-update_users us s h
  perform-Kept (set_usage us) s h = inl h
  perform-Kept collect s h = inl h
  perform-Kept (name_node id) s h = inl h
  perform-Kept (listen_on l) s h = inl h
  perform-Kept (open_conn id conn) s h =
      inl (ap (opens c) (account-add_conn uuid s id conn) ∙ open_after_begin id conn s h)
  perform-Kept (count id node up down) s h = inl (
      ap (opens c) (account-add_traffic uuid s id node up down)
      ∙ open_after_count id node up down s h)
  perform-Kept (end_conn id conn) s h = Kept-finish id conn s h
  perform-Kept (refuse conn) s h = inl h

  stays-Kept : (ops : List (Op e)) (s : Server e) → Kept s → Kept (perform_all ops s)
  unfolding perform_all
  stays-Kept [] s k = k
  stays-Kept (op ∷ ops) s (inl h) = stays-Kept ops (perform op s) (perform-Kept op s h)
  stays-Kept (op ∷ ops) s (inr m) =
      let g = perform_all_grows (op ∷ ops) s in inr (rw g.grown (mem-append_right g.more m))

  -- Whatever is done for any user: a connection that is registered for a user, or was closed, is
  -- registered for that user or was closed at the end, so that no operation takes it out of its set
  -- without closing it; and the list of closed connections has only grown, so that a closed one stays
  -- closed.
  pub perform_all-Kept :
      (ops : List (Op e)) (s : Server e)
      → Kept s
      → Kept (perform_all ops s) × IsGrown s.closed (perform_all ops s).closed
  perform_all-Kept ops s k = (stays-Kept ops s k, perform_all_grows ops s)
