-- ===== src/Vless/System/Valid.antt =====
-- What holds of the server's maps after any sequence of operations.
use vgate_server.Base.{
  ℕ, ◌≡◌, ◌≢◌, refl, inl, inr, [], ◌∷◌, Option, none, arith, All, Option-cases, if_pos, if_neg,
}
use vgate_server.Base.Text.{Bytes, bytes_key, nat_key, pair_key, Bytes-discrete}
use vgate_server.Base.Dict.{
  Dict, get, put, remove, Distinct, put-Distinct, remove-Distinct, All-put, All-get,
}
use vgate_server.Model.{User}
use vgate_server.Vless.Server.{Externals, Server, ConnSet, QuotaState, RateBucket, new_server}
use vgate_server.Vless.Quota.{conns_or_none}
use vgate_server.Vless.User.{add_conn, remove_conn, remove_found}

-- A connection set in the map is not empty.
abbrev IsLive : Bytes × ConnSet → Type 0
IsLive p = (p.1 ≢ []) × Distinct p.1

pub record ConnsValid (conns : Dict Bytes ConnSet) : Type 0 where
  pub distinct : Distinct conns
  pub live : All IsLive conns

-- The limiters are those of the users, and no one else has a quota state.
pub record UsersValid (Limiter : Type 0) (users : Dict Bytes User)
    (u_limiters d_limiters : Dict Bytes (Option (RateBucket Limiter)))
    (quota : Dict Bytes QuotaState) : Type 0 where
  pub users_distinct : Distinct users
  pub u_distinct : Distinct u_limiters
  pub d_distinct : Distinct d_limiters
  pub quota_distinct : Distinct quota
  pub strangers :
      (uuid : Bytes)
      → get users uuid ≡ none
      → (get u_limiters uuid ≡ none) × (get d_limiters uuid ≡ none) × (get quota uuid ≡ none)

pub record IsValid {e : Externals} (s : Server e) : Type 0 where
  pub users : UsersValid e.Limiter s.users s.user_u_limiters s.user_d_limiters s.user_quota
  pub conns : ConnsValid s.user_conns
  pub traffic : Distinct s.user_traffic
  pub sids : Distinct s.sid_node

pub new_server-IsValid : (e : Externals) → IsValid (new_server e)
new_server-IsValid e = record {
  users = record {
    users_distinct = tt;
    u_distinct = tt;
    d_distinct = tt;
    quota_distinct = tt;
    strangers = λ uuid h. unfold get in (refl, refl, refl);
  };
  conns = record { distinct = tt; live = tt };
  traffic = tt;
  sids = tt;
}

put_not_empty : (m : ConnSet) (k : ℕ) → put m k tt ≢ []
unfolding put
put_not_empty [] k h = cc
put_not_empty ((j, v) ∷ m) k h = ground (arith, h)

conns_or_none-Distinct :
    (m : Dict Bytes ConnSet) (uuid : Bytes) → ConnsValid m → Distinct (conns_or_none (get m uuid))
conns_or_none-Distinct m uuid v = elim (Option-cases (get m uuid)) [
  | inl absent ↦ rw absent tt
  | inr (set, found) ↦ rw found (All-get IsLive m uuid set v.live found).1
]

put-ConnsValid :
    (m : Dict Bytes ConnSet) (uuid : Bytes) (set : ConnSet)
    → ConnsValid m
    → IsLive (uuid, set)
    → ConnsValid (put m uuid set)
put-ConnsValid m uuid set v live = record {
  distinct = put-Distinct m uuid set v.distinct;
  live = All-put IsLive m uuid set v.live live;
}

pub All-remove :
    {V : Type 0} (P : Bytes × V → Type 0) (m : Dict Bytes V) (k : Bytes)
    → All P m
    → All P (remove m k)
unfolding remove
All-remove P [] k h = tt
All-remove P ((j, v) ∷ m) k h = elim (Bytes-discrete j k) [
  | yes hit ↦ rw (if_pos (Bytes-discrete j k) hit) (All-remove P m k h.1)
  | no miss ↦ rw (if_neg (Bytes-discrete j k) miss) (h.0, All-remove P m k h.1)
]

pub remove-ConnsValid :
    (m : Dict Bytes ConnSet) (uuid : Bytes) → ConnsValid m → ConnsValid (remove m uuid)
remove-ConnsValid m uuid v = record {
  distinct = remove-Distinct m uuid v.distinct;
  live = All-remove IsLive m uuid v.live;
}

module _ {e : Externals} where
  add_conn-ConnsValid :
      (uuid : Bytes) (conn : ℕ) (s : Server e)
      → ConnsValid s.user_conns
      → ConnsValid (add_conn uuid conn s).user_conns
  unfolding add_conn
  add_conn-ConnsValid uuid conn s v =
      let old = conns_or_none (get s.user_conns uuid) in
      put-ConnsValid s.user_conns uuid (put old conn tt) v (
        put_not_empty old conn,
        put-Distinct old conn tt (conns_or_none-Distinct s.user_conns uuid v),
      )

  pub add_conn-IsValid :
      (uuid : Bytes) (conn : ℕ) (s : Server e) → IsValid s → IsValid (add_conn uuid conn s)
  add_conn-IsValid uuid conn s v =
      let conns = add_conn-ConnsValid uuid conn s v.conns in
      unfold add_conn in
      record { users = v.users; conns = conns; traffic = v.traffic; sids = v.sids }

  remove_found-IsValid :
      (uuid : Bytes) (set : ConnSet) (s : Server e)
      → Distinct set
      → IsValid s
      → IsValid (remove_found uuid set s)
  unfolding remove_found
  remove_found-IsValid uuid [] s d v = record {
    users = v.users;
    conns = remove-ConnsValid s.user_conns uuid v.conns;
    traffic = v.traffic;
    sids = v.sids;
  }
  remove_found-IsValid uuid (c ∷ cs) s d v = record {
    users = v.users;
    conns = put-ConnsValid s.user_conns uuid (c ∷ cs) v.conns (λ h. cc, d);
    traffic = v.traffic;
    sids = v.sids;
  }

  pub remove_conn-IsValid :
      (uuid : Bytes) (conn : ℕ) (s : Server e) → IsValid s → IsValid (remove_conn uuid conn s)
  unfolding remove_conn
  remove_conn-IsValid uuid conn s v = elim (Option-cases (get s.user_conns uuid)) [
    | inl absent ↦ rw (absent, remove_conn) v
    | inr (set, found) ↦
        rw (found, remove_conn)
          (remove_found-IsValid uuid (remove set conn) s
            (remove-Distinct set conn (All-get IsLive s.user_conns uuid set v.conns.live found).1)
            v)
  ]
