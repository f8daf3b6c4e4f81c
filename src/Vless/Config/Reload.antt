-- ===== src/Vless/Config/Reload.antt =====
-- What a configuration changes, and what stays.
use vgate_server.Base.{
  List, [], ◌∷◌, Option, none, some, Bool, true, false, ◌≡◌, refl, ◌≢◌, ◌⊎◌, inl, inr, ◌∙◌, if_pos,
  if_neg, if◌then◌else◌, arith, Bool-cases, ap,
}
use vgate_server.Base.Int.{ℤ, eqb_ℤ}
use vgate_server.Base.Text.{Bytes, codes, bytes_eq, bytes_key, Bytes-discrete}
use vgate_server.Model.{Stream, TlsConfig, RealityConfig, Config}
use vgate_server.Vless.Server.{Externals, Server}
use vgate_server.Vless.Config.{
  transport_name, bool_eq, bytes_list_eq, option_eq, tls_equal, reality_equal, vless_equal,
  allowed_flow, stream_equal, update_vless, needs_rebind, update_config,
}

bytes_eq_refl : (a : Bytes) → bytes_eq a a ≡ true
bytes_eq_refl a = if_pos (Bytes-discrete a a) refl true false

bool_eq_refl : (b : Bool) → bool_eq b b ≡ true
bool_eq_refl true = refl
bool_eq_refl false = refl

bytes_list_eq_refl : (xs : List Bytes) → bytes_list_eq xs xs ≡ true
bytes_list_eq_refl [] = refl
bytes_list_eq_refl (x ∷ xs) = rw (bytes_eq_refl x, bytes_list_eq_refl xs)

option_eq_refl :
    {A : Type 0} (eq : A → A → Bool)
    → ((a : A) → eq a a ≡ true)
    → (o : Option A) → option_eq eq o o ≡ true
option_eq_refl eq h none = refl
option_eq_refl eq h (some a) = h a

eqb_ℤ_refl : (z : ℤ) → eqb_ℤ z z ≡ true
eqb_ℤ_refl z = ground arith

tls_equal_refl : (t : TlsConfig) → tls_equal t t ≡ true
unfolding tls_equal
tls_equal_refl t = rw (
  bytes_eq_refl t.server_name,
  bytes_eq_refl t.cert_file,
  bytes_eq_refl t.key_file,
  bytes_eq_refl t.cert_pem,
  bytes_eq_refl t.key_pem,
  option_eq_refl bytes_list_eq bytes_list_eq_refl t.alpn,
  bytes_eq_refl t.min_version,
  bytes_eq_refl t.max_version,
  bool_eq_refl t.reject_unknown_sni,
)

reality_equal_refl : (r : RealityConfig) → reality_equal r r ≡ true
unfolding reality_equal
reality_equal_refl r = rw (
  bool_eq_refl r.show,
  bytes_eq_refl r.target,
  eqb_ℤ_refl r.xver,
  bytes_eq_refl r.server_name,
  bytes_eq_refl r.private_key,
  option_eq_refl bytes_list_eq bytes_list_eq_refl r.short_ids,
  bytes_eq_refl r.min_client_ver,
  bytes_eq_refl r.max_client_ver,
  eqb_ℤ_refl r.max_time_diff,
)

stream_equal_refl : (e : Externals) (st : Stream e.Settings) → stream_equal e st st ≡ true
unfolding stream_equal
stream_equal_refl e st = rw (
  bytes_eq_refl (transport_name st),
  if_pos (e.settings_equal st.settings st.settings) refl true false,
  option_eq_refl tls_equal tls_equal_refl st.tls_config,
  option_eq_refl reality_equal reality_equal_refl st.reality_config,
)

-- A flow that handleConnection may let a client of this stream use.
abbrev pub FlowFits : {Settings : Type 0} → Stream Settings → Bytes → Type 0
FlowFits st flow =
    (flow ≡ []) ⊎ ((st.security ≢ codes "none") × ((st.network ≡ []) ⊎ (st.network ≡ codes "tcp")))

module _ {Settings : Type 0} where
  allowed_flow-FlowFits : (st : Stream Settings) (flow : Bytes) → FlowFits st (allowed_flow st flow)
  unfolding allowed_flow
  allowed_flow-FlowFits st flow = elim (Bytes-discrete st.security (codes "none")) [
    | yes plain ↦ inl (rw (if_pos (Bytes-discrete st.security _) plain true false))
    | no secure ↦ elim (Bytes-discrete flow []) [
      | yes empty ↦ inl (
          rw
            (
              if_neg (Bytes-discrete st.security _) secure true false,
              if_pos (Bytes-discrete flow []) empty true false,
            )
            empty)
      | no used ↦ elim (Bytes-discrete st.network []) [
        | yes unset ↦ inr (secure, inl unset)
        | no network ↦ elim (Bytes-discrete st.network (codes "tcp")) [
          | yes tcp ↦ inr (secure, inr tcp)
          | no other ↦ inl (
              rw (
                if_neg (Bytes-discrete st.security _) secure true false,
                if_neg (Bytes-discrete flow []) used true false,
                if_neg (Bytes-discrete st.network []) network true false,
                if_neg (Bytes-discrete st.network (codes "tcp")) other true false,
              ))
        ]
      ]
    ]
  ]

module _ {e : Externals} (cfg : Config e.Settings) where
  same_listener :
      (s : Server e)
      → eqb_ℤ s.port cfg.port ≡ true
      → stream_equal e s.stream cfg.stream ≡ true
      → (update_config cfg s).1 ≡ none
  unfolding update_config needs_rebind
  same_listener s port stream = rw (port, stream)

  pub bound_lem :
      (s : Server e)
      → let t = (update_config cfg s).0 in
        (t.port ≡ cfg.port)
        × (t.stream ≡ (if stream_equal e s.stream cfg.stream then s.stream else cfg.stream))
  unfolding update_config update_vless
  bound_lem s = elim (Bool-cases (vless_equal s.vless cfg.vless)) [
    | inl same ↦ rw same (refl, refl)
    | inr new ↦ rw new (refl, refl)
  ]

  stream_lem : (s : Server e) → stream_equal e (update_config cfg s).0.stream cfg.stream ≡ true
  stream_lem s =
      ap (λ st. stream_equal e st cfg.stream) (bound_lem s).1
      ∙ elim (Bool-cases (stream_equal e s.stream cfg.stream)) [
        | inl same ↦ rw same same
        | inr new ↦ rw new (stream_equal_refl e cfg.stream)
      ]

module _ {e : Externals} (cfg : Config e.Settings) (s : Server e) where
  -- After a configuration took effect, the same configuration does not close the listener.
  pub update_config_again : (update_config cfg (update_config cfg s).0).1 ≡ none
  update_config_again =
      same_listener cfg (update_config cfg s).0
        (ap (λ p. eqb_ℤ p cfg.port) (bound_lem cfg s).0 ∙ eqb_ℤ_refl cfg.port) (stream_lem cfg s)

  -- A configuration leaves the users, their connections, limiters, counters and quotas as they are,
  -- and closes no connection.
  pub update_config_keeps :
      let t = (update_config cfg s).0 in
      (t.users ≡ s.users)
      × (t.user_conns ≡ s.user_conns)
      × (t.user_traffic ≡ s.user_traffic)
      × (t.user_quota ≡ s.user_quota)
      × (t.user_u_limiters ≡ s.user_u_limiters)
      × (t.user_d_limiters ≡ s.user_d_limiters)
      × (t.closed ≡ s.closed)
  unfolding update_config update_vless
  update_config_keeps = elim (Bool-cases (vless_equal s.vless cfg.vless)) [
    | inl same ↦ rw same (refl, refl, refl, refl, refl, refl, refl)
    | inr new ↦ rw new (refl, refl, refl, refl, refl, refl, refl)
  ]

  -- If the VLESS part of the configuration differs from the server's, the flow that the server then
  -- has fits the configuration's stream.
  pub update_config-FlowFits :
      vless_equal s.vless cfg.vless ≡ false → FlowFits cfg.stream (update_config cfg s).0.vless.flow
  unfolding update_config update_vless
  update_config-FlowFits new = rw new (allowed_flow-FlowFits cfg.stream cfg.vless.flow)

  -- If only the stream of the configuration is new, and its security is none, then a server with a
  -- flow keeps that flow, which does not fit the stream that the server then has.
  pub stale_flow :
      vless_equal s.vless cfg.vless ≡ true
      → stream_equal e s.stream cfg.stream ≡ false
      → cfg.stream.security ≡ codes "none"
      → s.vless.flow ≢ []
      → let t = (update_config cfg s).0 in ¬ FlowFits t.stream t.vless.flow
  unfolding update_config update_vless
  stale_flow same new plain used =
      rw (same, new)
        (λ fits. elim fits [ inl empty ↦ used empty | inr (secure, network) ↦ secure plain ])
