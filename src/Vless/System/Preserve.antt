-- ===== src/Vless/System/Preserve.antt =====
-- Every operation keeps the maps of the server valid.
use vgate_server.Base.{
  ℕ, ◌≡◌, inl, inr, List, [], ◌∷◌, Option, some, arith, Option-cases, Bool-cases, ◌||◌,
}
use vgate_server.Base.Int.{ℤ, pos, ltb_ℤ, leb_ℤ, add64, sub64}
use vgate_server.Base.Text.{Bytes, bytes_key, pair_key}
use vgate_server.Base.Dict.{Dict, get, put, get-put, Distinct, put-Distinct, update-Distinct}
use vgate_server.Model.{User, TrafficSid, Config}
use vgate_server.Vless.Server.{Externals, Server, QuotaState, RateBucket, TrafficStat, set_node_id}
use vgate_server.Vless.Quota.{accrue_found, accrue_quota_locked}
use vgate_server.Vless.Traffic.{reset_stat, add_traffic, get_and_reset_traffic}
use vgate_server.Vless.Handler.{finish, close_conn}
use vgate_server.Vless.Config.{sid_nodes, update_vless, update_config, vless_equal}
use vgate_server.Vless.Config.Keys.{sid_key}
use vgate_server.Vless.System.{
  Op, configure, set_users, set_usage, collect, name_node, listen_on, open_conn, count, end_conn,
  refuse, perform, perform_all,
}
use vgate_server.Vless.System.Valid.{UsersValid, IsValid, add_conn-IsValid, remove_conn-IsValid}
use vgate_server.Vless.System.Users.{apply_usage-IsValid, update_users-IsValid}

-- A known user's quota state can be replaced.
put-UsersValid :
    (L : Type 0) (users : Dict Bytes User) (u d : Dict Bytes (Option (RateBucket L)))
    (quota : Dict Bytes QuotaState) (uuid : Bytes) (old new : QuotaState)
    → get quota uuid ≡ some old
    → UsersValid L users u d quota
    → UsersValid L users u d (put quota uuid new)
put-UsersValid L users u d quota uuid old new found v = record {
  users_distinct = v.users_distinct;
  u_distinct = v.u_distinct;
  d_distinct = v.d_distinct;
  quota_distinct = put-Distinct quota uuid new v.quota_distinct;
  strangers = λ other h.
      let before = v.strangers other h in
      (before.0, before.1, ground (arith, before.2, get-put quota uuid other new));
}

sid_nodes-Distinct :
    (ts : List TrafficSid) (m : Dict Bytes Bytes) → Distinct m → Distinct (sid_nodes ts m)
unfolding sid_nodes
sid_nodes-Distinct [] m d = d
sid_nodes-Distinct (t ∷ ts) m d = elim (Option-cases (sid_key t.sid)) [
  | inl bad ↦ rw bad (sid_nodes-Distinct ts m d)
  | inr (key, good) ↦
      rw good (sid_nodes-Distinct ts (put m key t.node_id) (put-Distinct m key t.node_id d))
]

module _ {e : Externals} where
  accrue_found-IsValid :
      (uuid : Bytes) (qs : QuotaState) (n : ℤ) (s : Server e)
      → get s.user_quota uuid ≡ some qs
      → IsValid s
      → IsValid (accrue_found uuid qs n s)
  unfolding accrue_found
  accrue_found-IsValid uuid qs n s found v =
      elim (Bool-cases (ltb_ℤ qs.quota (pos 0) || leb_ℤ n (pos 0))) [
        | inl idle ↦ rw (idle, accrue_found) v
        | inr counts ↦
            elim (Bool-cases
              (ltb_ℤ (pos 0) (sub64 (sub64 qs.quota qs.base) (add64 qs.accrual n)) || qs.cut)) [
                | inl more ↦
                    rw (counts, more, accrue_found)
                      (record {
                        users =
                            put-UsersValid e.Limiter s.users s.user_u_limiters s.user_d_limiters
                              s.user_quota uuid qs _ found v.users;
                        conns = v.conns;
                        traffic = v.traffic;
                        sids = v.sids;
                      })
                | inr last ↦
                    rw (counts, last, accrue_found)
                      (record {
                        users =
                            put-UsersValid e.Limiter s.users s.user_u_limiters s.user_d_limiters
                              s.user_quota uuid qs _ found v.users;
                        conns = v.conns;
                        traffic = v.traffic;
                        sids = v.sids;
                      })
              ]
      ]

  accrue_quota_locked-IsValid :
      (uuid email : Bytes) (n : ℤ) (s : Server e)
      → IsValid s
      → IsValid (accrue_quota_locked uuid email n s)
  unfolding accrue_quota_locked
  accrue_quota_locked-IsValid uuid email n s v = elim (Option-cases (get s.user_quota uuid)) [
    | inl absent ↦ rw (absent, accrue_quota_locked) v
    | inr (qs, found) ↦ rw (found, accrue_quota_locked) (accrue_found-IsValid uuid qs n s found v)
  ]

  put_traffic-IsValid :
      (key : Bytes × Bytes) (stat : TrafficStat) (s : Server e)
      → IsValid s
      → IsValid (record s { user_traffic = put s.user_traffic key stat })
  put_traffic-IsValid key stat s v = record {
    users = v.users;
    conns = v.conns;
    traffic = put-Distinct s.user_traffic key stat v.traffic;
    sids = v.sids;
  }

  add_traffic-IsValid :
      (uuid node : Bytes) (up down : ℤ) (s : Server e)
      → IsValid s
      → IsValid (add_traffic uuid node up down s)
  unfolding add_traffic
  add_traffic-IsValid uuid node up down s v = elim (Bool-cases (ltb_ℤ (pos 0) (add64 up down))) [
    | inl more ↦ rw more (
        accrue_quota_locked-IsValid uuid _ (add64 up down) _
          (put_traffic-IsValid (uuid, node) _ s v))
    | inr idle ↦ rw idle (put_traffic-IsValid (uuid, node) _ s v)
  ]

  get_and_reset-IsValid : (s : Server e) → IsValid s → IsValid (get_and_reset_traffic s).0
  unfolding get_and_reset_traffic
  get_and_reset-IsValid s v = record {
    users = v.users;
    conns = v.conns;
    traffic = update-Distinct (reset_stat s.users) s.user_traffic v.traffic;
    sids = v.sids;
  }

  -- A configuration replaces the short IDs and none of the other maps.
  update_config-IsValid :
      (cfg : Config e.Settings) (s : Server e) → IsValid s → IsValid (update_config cfg s).0
  unfolding update_config
  update_config-IsValid cfg s v =
      let sids = sid_nodes-Distinct cfg.traffic_sids [] tt in
      elim (Bool-cases (vless_equal s.vless cfg.vless)) [
        | inl same ↦
            rw (same, update_vless)
              (record { users = v.users; conns = v.conns; traffic = v.traffic; sids = sids })
        | inr new ↦
            rw (new, update_vless)
              (record { users = v.users; conns = v.conns; traffic = v.traffic; sids = sids })
      ]

  finish-IsValid :
      (uuid : Bytes) (conn : ℕ) (s : Server e) → IsValid s → IsValid (finish uuid conn s)
  unfolding finish
  finish-IsValid uuid conn s v =
      let t = remove_conn-IsValid uuid conn s v in
      record { users = t.users; conns = t.conns; traffic = t.traffic; sids = t.sids }

  pub perform-IsValid : (op : Op e) (s : Server e) → IsValid s → IsValid (perform op s)
  unfolding perform set_node_id close_conn
  perform-IsValid (configure cfg) s v = update_config-IsValid cfg s v
  perform-IsValid (set_users us) s v = update_users-IsValid us s v
  perform-IsValid (set_usage us) s v = apply_usage-IsValid us s v
  perform-IsValid collect s v = get_and_reset-IsValid s v
  perform-IsValid (name_node id) s v = record {
    users = v.users;
    conns = v.conns;
    traffic = v.traffic;
    sids = v.sids;
  }
  perform-IsValid (listen_on l) s v = record {
    users = v.users;
    conns = v.conns;
    traffic = v.traffic;
    sids = v.sids;
  }
  perform-IsValid (open_conn uuid conn) s v = add_conn-IsValid uuid conn s v
  perform-IsValid (count uuid node up down) s v =
      add_traffic-IsValid uuid node (pos up) (pos down) s v
  perform-IsValid (end_conn uuid conn) s v = finish-IsValid uuid conn s v
  perform-IsValid (refuse conn) s v = record {
    users = v.users;
    conns = v.conns;
    traffic = v.traffic;
    sids = v.sids;
  }

  -- Every server that any operations make of a valid one is valid: no key has two entries, only
  -- users have limiters and a quota state, and no connection set in the map is empty.
  pub perform_all-IsValid :
      (ops : List (Op e)) (s : Server e) → IsValid s → IsValid (perform_all ops s)
  unfolding perform_all
  perform_all-IsValid [] s v = v
  perform_all-IsValid (op ∷ ops) s v =
      perform_all-IsValid ops (perform op s) (perform-IsValid op s v)
