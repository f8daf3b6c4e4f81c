-- ===== src/Vless/System/Users.antt =====
-- UpdateUsers of user.go and ApplyUsage of quota.go keep the maps of users, limiters and quota
-- states in step.
use mathlib.Core.Option
use vgate_server.Base.{◌≡◌, sym, ap, ◌∙◌, inl, inr, List, [], ◌∷◌, none, Option-cases}
use vgate_server.Base.Text.{Bytes, bytes_key, pair_key}
use vgate_server.Base.Dict.{Dict, get, put, Distinct, put-Distinct, remove-Distinct}
use vgate_server.Model.{User, UserUsage}
use vgate_server.Vless.Server.{Externals, Server, QuotaState}
use vgate_server.Vless.Quota.{email_uuids, apply_entry, new_quota, apply_usage, snapshot}
use vgate_server.Vless.Quota.Snapshot.{quota-apply_usage_stranger}
use vgate_server.Vless.Protocol.{parse_uuid}
use vgate_server.Vless.User.{Filled, fill_user, fill_users, drop_user, drop_users, update_users}
use vgate_server.Vless.User.Revoke.{drop_users_absent}
use vgate_server.Vless.User.Access.{users-update_users, filled, filled-Shows, update_users_revokes}
use vgate_server.Vless.System.Valid.{ConnsValid, IsValid, remove-ConnsValid}

new_quota-Distinct :
    (uuids : Dict Bytes Bytes) (us : List UserUsage) (m : Dict Bytes QuotaState)
    → Distinct m
    → Distinct (new_quota uuids us m)
unfolding new_quota apply_entry
new_quota-Distinct uuids [] m d = d
new_quota-Distinct uuids (x ∷ us) m d = elim (Option-cases (get uuids x.email)) [
  | inl absent ↦ rw (absent, apply_entry) (new_quota-Distinct uuids us m d)
  | inr (uuid, found) ↦
      rw (found, apply_entry)
        (new_quota-Distinct uuids us (put m uuid (snapshot x)) (put-Distinct m uuid (snapshot x) d))
]

module _ {e : Externals} where
  pub apply_usage-IsValid :
      (us : List UserUsage) (s : Server e) → IsValid s → IsValid (apply_usage us s)
  unfolding apply_usage
  apply_usage-IsValid us s v = record {
    users = record {
      users_distinct = v.users.users_distinct;
      u_distinct = v.users.u_distinct;
      d_distinct = v.users.d_distinct;
      quota_distinct = new_quota-Distinct (email_uuids s.users []) us [] tt;
      strangers = λ uuid h.
          let old = v.users.strangers uuid h in
          (old.0, old.1, quota-apply_usage_stranger us s uuid h);
    };
    conns = v.conns;
    traffic = v.traffic;
    sids = v.sids;
  }

  -- The maps that the loop of UpdateUsers fills have one entry for a UUID.
  record FilledDistinct (f : Filled e) : Type 0 where
    pub users : Distinct f.users
    pub u_limiters : Distinct f.u_limiters
    pub d_limiters : Distinct f.d_limiters

  fill_user-Distinct :
      (s : Server e) (u : User) (uuid : Bytes) (f : Filled e)
      → FilledDistinct f
      → FilledDistinct (fill_user s u uuid f)
  unfolding fill_user
  fill_user-Distinct s u uuid f d = record {
    users = put-Distinct f.users uuid u d.users;
    u_limiters = put-Distinct f.u_limiters uuid _ d.u_limiters;
    d_limiters = put-Distinct f.d_limiters uuid _ d.d_limiters;
  }

  fill_users-Distinct :
      (s : Server e) (us : List User) (f : Filled e)
      → FilledDistinct f
      → FilledDistinct (fill_users s us f)
  unfolding fill_users
  fill_users-Distinct s [] f d = d
  fill_users-Distinct s (u ∷ us) f d = elim (Option-cases (parse_uuid u.id)) [
    | inl bad ↦ rw bad (fill_users-Distinct s us f d)
    | inr (uuid, good) ↦
        rw good (fill_users-Distinct s us (fill_user s u uuid f) (fill_user-Distinct s u uuid f d))
  ]

  -- What the loop over the old users keeps, entry by entry.
  record Tidy (s : Server e) : Type 0 where
    pub users : Distinct s.users
    pub u_limiters : Distinct s.user_u_limiters
    pub d_limiters : Distinct s.user_d_limiters
    pub quota : Distinct s.user_quota
    pub conns : ConnsValid s.user_conns
    pub traffic : Distinct s.user_traffic
    pub sids : Distinct s.sid_node

  drop_user-Tidy : (uuid : Bytes) (s : Server e) → Tidy s → Tidy (drop_user uuid s)
  unfolding drop_user
  drop_user-Tidy uuid s t = elim (Option-cases (get s.users uuid)) [
    | inl gone ↦
        rw (gone, drop_user)
          (record {
            users = t.users;
            u_limiters = remove-Distinct s.user_u_limiters uuid t.u_limiters;
            d_limiters = remove-Distinct s.user_d_limiters uuid t.d_limiters;
            quota = remove-Distinct s.user_quota uuid t.quota;
            conns = remove-ConnsValid s.user_conns uuid t.conns;
            traffic = t.traffic;
            sids = t.sids;
          })
    | inr (u, stays) ↦ rw (stays, drop_user) t
  ]

  drop_users-Tidy : (old : Dict Bytes User) (s : Server e) → Tidy s → Tidy (drop_users old s)
  unfolding drop_users
  drop_users-Tidy [] s t = t
  drop_users-Tidy ((uuid, u) ∷ old) s t =
      drop_users-Tidy old (drop_user uuid s) (drop_user-Tidy uuid s t)

  module _ (us : List User) (s : Server e) (v : IsValid s) where
    update_users-Tidy : Tidy (update_users us s)
    unfolding update_users
    update_users-Tidy =
        let fresh =
          fill_users-Distinct s us (record { users = []; u_limiters = []; d_limiters = [] })
            (record { users = tt; u_limiters = tt; d_limiters = tt }) in
        drop_users-Tidy s.users _ (record {
          users = fresh.users;
          u_limiters = fresh.u_limiters;
          d_limiters = fresh.d_limiters;
          quota = v.users.quota_distinct;
          conns = v.conns;
          traffic = v.traffic;
          sids = v.sids;
        })

    -- Whoever is not listed has neither limiters nor a quota state.
    update_users_strangers :
        (uuid : Bytes)
        → let t = update_users us s in
          get t.users uuid ≡ none
          → (get t.user_u_limiters uuid ≡ none)
            × (get t.user_d_limiters uuid ≡ none)
            × (get t.user_quota uuid ≡ none)
    unfolding update_users filled
    update_users_strangers uuid h =
        let gone = sym (users-update_users us s uuid) ∙ h in
        elim (Option-cases (get s.users uuid)) [
          | inr (u, known) ↦
              let forgotten = (update_users_revokes us s uuid u known gone).1 in
              (forgotten.u_limiter, forgotten.d_limiter, forgotten.quota)
          | inl unknown ↦
              let kept = drop_users_absent uuid s.users _ unknown in
              let new = filled-Shows us s uuid in
              (
                kept.u_limiter ∙ new.u_limiters ∙ ap (Option.map _) gone,
                kept.d_limiter ∙ new.d_limiters ∙ ap (Option.map _) gone,
                kept.quota ∙ (v.users.strangers uuid unknown).2,
              )
        ]

    pub update_users-IsValid : IsValid (update_users us s)
    update_users-IsValid =
        let tidy = update_users-Tidy in
        record {
          users = record {
            users_distinct = tidy.users;
            u_distinct = tidy.u_limiters;
            d_distinct = tidy.d_limiters;
            quota_distinct = tidy.quota;
            strangers = update_users_strangers;
          };
          conns = tidy.conns;
          traffic = tidy.traffic;
          sids = tidy.sids;
        }
