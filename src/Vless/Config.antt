-- ===== src/Vless/Config.antt =====
-- proxy/vless/server.go: UpdateConfig, which takes a new configuration while the server runs.
-- Start, which binds the listener and accepts, is input and output.
pub mod Keys
pub mod Reload
pub mod EntryNode
pub mod ShortId
use vgate_server.Base.{
  ℕ, List, [], ◌∷◌, ◌++◌, Option, none, some, Bool, true, false, not, ◌&&◌, ◌||◌, ◌==◌,
  if◌then◌else◌, ◌>>=◌, ite,
}
use vgate_server.Base.Int.{ℤ, eqb_ℤ}
use vgate_server.Base.Text.{Bytes, codes, bytes_eq, bytes_key}
use vgate_server.Base.Dict.{Dict, put}
use vgate_server.Model.{Stream, Vless, TlsConfig, RealityConfig, TrafficSid, Config}
use vgate_server.Vless.Server.{Externals, Server}
use vgate_server.Vless.Ratelimit.{new_rate_bucket}
use Keys.{parse_nfs_keys, sid_key}

-- transportName
unfoldable pub transport_name : {Settings : Type 0} → Stream Settings → Bytes
transport_name s =
    (if bytes_eq s.network [] then codes "tcp" else s.network) ++ codes "+" ++ s.security

abbrev pub bool_eq : Bool → Bool → Bool
bool_eq true b = b
bool_eq false b = not b

abbrev pub bytes_list_eq : List Bytes → List Bytes → Bool
bytes_list_eq [] [] = true
bytes_list_eq [] (b ∷ bs) = false
bytes_list_eq (a ∷ xs) [] = false
bytes_list_eq (a ∷ xs) (b ∷ bs) = bytes_eq a b && bytes_list_eq xs bs

abbrev pub option_eq : {A : Type 0} → (A → A → Bool) → Option A → Option A → Bool
option_eq eq none none = true
option_eq eq none (some b) = false
option_eq eq (some a) none = false
option_eq eq (some a) (some b) = eq a b

-- reflect.DeepEqual on the security settings
unfoldable pub tls_equal : TlsConfig → TlsConfig → Bool
tls_equal a b =
    bytes_eq a.server_name b.server_name
    && bytes_eq a.cert_file b.cert_file
    && bytes_eq a.key_file b.key_file
    && bytes_eq a.cert_pem b.cert_pem
    && bytes_eq a.key_pem b.key_pem
    && option_eq bytes_list_eq a.alpn b.alpn
    && bytes_eq a.min_version b.min_version
    && bytes_eq a.max_version b.max_version
    && bool_eq a.reject_unknown_sni b.reject_unknown_sni

unfoldable pub reality_equal : RealityConfig → RealityConfig → Bool
reality_equal a b =
    bool_eq a.show b.show
    && bytes_eq a.target b.target
    && eqb_ℤ a.xver b.xver
    && bytes_eq a.server_name b.server_name
    && bytes_eq a.private_key b.private_key
    && option_eq bytes_list_eq a.short_ids b.short_ids
    && bytes_eq a.min_client_ver b.min_client_ver
    && bytes_eq a.max_client_ver b.max_client_ver
    && eqb_ℤ a.max_time_diff b.max_time_diff

-- vlessEqual
unfoldable pub vless_equal : Vless → Vless → Bool
vless_equal a b =
    bytes_eq a.decryption b.decryption
    && (a.xor_mode == b.xor_mode)
    && eqb_ℤ a.seconds_from b.seconds_from
    && eqb_ℤ a.seconds_to b.seconds_to
    && bytes_eq a.padding b.padding
    && bytes_eq a.flow b.flow

-- The checks on the flow of a configuration whose VLESS part is new.
unfoldable pub allowed_flow : {Settings : Type 0} → Stream Settings → Bytes → Bytes
allowed_flow st flow =
    if bytes_eq st.security (codes "none")
    then []
    else if not (bytes_eq flow [])
        && not (bytes_eq st.network [])
        && not (bytes_eq st.network (codes "tcp"))
    then []
    else flow

-- The map of short IDs; a later entry of the same key replaces an earlier one.
unfoldable pub sid_nodes : List TrafficSid → Dict Bytes Bytes → Dict Bytes Bytes
sid_nodes [] m = m
sid_nodes (t ∷ ts) m =
    sid_nodes ts (elim (sid_key t.sid) [ none ↦ m | some key ↦ put m key t.node_id ])

-- streamEqual
unfoldable pub stream_equal : (e : Externals) → Stream e.Settings → Stream e.Settings → Bool
stream_equal e a b =
    bytes_eq (transport_name a) (transport_name b)
    && ite (e.settings_equal a.settings b.settings) true false
    && option_eq tls_equal a.tls_config b.tls_config
    && option_eq reality_equal a.reality_config b.reality_config

-- rebuildDecryptionLocked: the new instance; the old one is closed
unfoldable pub rebuild_decryption : (e : Externals) → Vless → Option e.Instance
rebuild_decryption e v =
    if bytes_eq v.decryption [] || bytes_eq v.decryption (codes "none") then none else (do
      keys ← parse_nfs_keys v.decryption
      e.init_instance keys v.xor_mode v.seconds_from v.seconds_to v.padding)

module _ {e : Externals} where
  -- The part of UpdateConfig under `!vlessEqual`.
  unfoldable pub update_vless : Config e.Settings → Server e → Server e
  update_vless cfg s =
      let v = record cfg.vless { flow = allowed_flow cfg.stream cfg.vless.flow } in
      if vless_equal s.vless cfg.vless
      then s
      else record s { vless = v; decryption = rebuild_decryption e v }

  -- `changed`
  unfoldable pub needs_rebind : Config e.Settings → Server e → Bool
  needs_rebind cfg s = not (eqb_ℤ s.port cfg.port) || not (stream_equal e s.stream cfg.stream)

  -- UpdateConfig, with the listener that it closes
  unfoldable pub update_config : Config e.Settings → Server e → Server e × Option ℕ
  unfolding update_vless
  update_config cfg s =
      let bound = record s {
        port = cfg.port;
        stream = if stream_equal e s.stream cfg.stream then s.stream else cfg.stream;
      } in
      let t = update_vless cfg bound in
      (
        record t {
          global_u_limiter = new_rate_bucket e cfg.speed_limit_up_bps;
          global_d_limiter = new_rate_bucket e cfg.speed_limit_down_bps;
          sid_node = sid_nodes cfg.traffic_sids [];
        },
        if needs_rebind cfg s then s.ln else none,
      )
