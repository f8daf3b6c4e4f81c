-- ===== src/Transport/Registry/Dispatch.antt =====
-- Which transport a configuration reaches, and which security it may ask for.
use vgate_server.Base.{
  ◌≡◌, ◌≢◌, sym, ap, ◌∙◌, [], Option, none, some, Bool, true, false, ◌||◌, ite, if_neg,
  if◌then◌else◌, ◌⊎◌, inl, inr,
}
use vgate_server.Base.Text.{Bytes, codes, bytes_eq, bytes_key, Bytes-discrete}
use vgate_server.Base.Dict.{get, put, get-put}
use vgate_server.Transport.Settings.{
  Settings, Fault, unknown_network, unsupported_security, bad_address, listen_failed, Checked, ok,
  bad, ◌>>=◌,
}
use vgate_server.Transport.Security.{wrap}
use vgate_server.Transport.Address.{parse_addr_port}
use vgate_server.Transport.Bridge.{decode_settings}
use vgate_server.Transport.Registry.{
  StreamConfig, Net, Transport, tcp_listen, xray_listen, or_fault, xray_security, listen, bootstrap,
  get_transport, tcp_transport, ws_transport, xhttp_transport, register,
}

module _ {Listener V : Type 0} (n : Net Listener V) where
  bootstrap_entry :
      (name : Bytes)
      → get (bootstrap n) name
        ≡ ite (Bytes-discrete (codes "xhttp") name) (some (xhttp_transport n)) (
            ite
              (Bytes-discrete (codes "ws") name)
              (some (ws_transport n))
              (ite (Bytes-discrete (codes "tcp") name) (some (tcp_transport n)) none))
  unfolding bootstrap register get
  bootstrap_entry name = rw (
    get-put (put (put [] (codes "tcp") (tcp_transport n)) (codes "ws") (ws_transport n))
        (codes "xhttp") name (xhttp_transport n),
    get-put (put [] (codes "tcp") (tcp_transport n)) (codes "ws") name (ws_transport n),
    get-put {V = Transport Listener V} [] (codes "tcp") name (tcp_transport n),
  )

  -- With the imported transports, no network and "tcp" listen over TCP, "ws" and "xhttp" over
  -- xray-core in their own protocol, and every other network is refused.
  pub listen-bootstrap :
      (cfg : StreamConfig V) (addr : Bytes)
      → listen cfg addr (bootstrap n) ≡ (
          if bytes_eq cfg.network [] || bytes_eq cfg.network (codes "tcp")
          then tcp_listen n addr cfg
          else if bytes_eq cfg.network (codes "ws")
          then xray_listen n (codes "websocket") addr cfg
          else if bytes_eq cfg.network (codes "xhttp")
          then xray_listen n (codes "xhttp") addr cfg
          else bad unknown_network)
  unfolding listen get_transport Bytes-discrete get
  listen-bootstrap cfg addr = elim (Bytes-discrete cfg.network []) [
    | yes none_given ↦ rw (none_given, bootstrap_entry (codes "tcp"), Bytes-discrete)
    | no given ↦ elim (Bytes-discrete (codes "tcp") cfg.network) [
      | yes tcp ↦ rw (sym tcp, bootstrap_entry (codes "tcp"), Bytes-discrete)
      | no other ↦ elim (Bytes-discrete (codes "ws") cfg.network) [
        | yes ws ↦ rw (sym ws, bootstrap_entry (codes "ws"), Bytes-discrete)
        | no third ↦ elim (Bytes-discrete (codes "xhttp") cfg.network) [
          | yes xhttp ↦ rw (sym xhttp, bootstrap_entry (codes "xhttp"), Bytes-discrete)
          | no unknown ↦ rw (
            if_neg (Bytes-discrete cfg.network []) given true false,
            bootstrap_entry cfg.network,
            if_neg (Bytes-discrete (codes "xhttp") cfg.network) unknown _ _,
            if_neg (Bytes-discrete (codes "ws") cfg.network) third _ _,
            if_neg (Bytes-discrete (codes "tcp") cfg.network) other _ _,
            if_neg (Bytes-discrete cfg.network (codes "xhttp")) (λ h. unknown (sym h)) true false,
            if_neg (Bytes-discrete cfg.network (codes "ws")) (λ h. third (sym h)) true false,
            if_neg (Bytes-discrete cfg.network (codes "tcp")) (λ h. other (sym h)) true false,
          )
        ]
      ]
    ]
  ]

  -- The security names that the switch of tcp and the switch of ws and xhttp accept.
  abbrev pub IsSecurity : Bytes → Type 0
  IsSecurity s = (s ≡ []) ⊎ ((s ≡ codes "none") ⊎ ((s ≡ codes "tls") ⊎ (s ≡ codes "reality")))

  eq-refuted : (a b : Bytes) → a ≢ b → bytes_eq a b ≡ false
  eq-refuted a b ne = if_neg (Bytes-discrete a b) ne true false

  >>=-bad :
      {A B : Type 0} (m : Checked A) (f : A → Checked B) {b : B}
      → ((a : A) → f a ≢ ok b)
      → (m >>= f) ≢ ok b
  >>=-bad (ok a) f refused h = refused a h
  >>=-bad (bad x) f refused h = cc

  bad-refused : {A : Type 0} {m : Checked A} {x : Fault} → m ≡ bad x → {a : A} → m ≢ ok a
  bad-refused h e = cc

  bad->>= :
      {A B : Type 0} {m : Checked A} {x : Fault} (f : A → Checked B)
      → m ≡ bad x
      → {b : B} → (m >>= f) ≢ ok b
  bad->>= f h = bad-refused (ap (λ t. t >>= f) h)

  if-refused :
      {A : Type 0} (b : Bool) {x y : Checked A} {a : A}
      → x ≢ ok a
      → y ≢ ok a
      → (if b then x else y) ≢ ok a
  if-refused true p q = p
  if-refused false p q = q

  wrap-refused :
      (ln : Listener) (s : Bytes) (raw : Option Settings)
      → ¬ IsSecurity s
      → wrap n.layers ln s raw ≡ bad unsupported_security
  unfolding wrap
  wrap-refused ln s raw unknown = rw (
    eq-refuted s [] (λ h. unknown (inl h)),
    eq-refuted s (codes "none") (λ h. unknown (inr (inl h))),
    eq-refuted s (codes "tls") (λ h. unknown (inr (inr (inl h)))),
    eq-refuted s (codes "reality") (λ h. unknown (inr (inr (inr h)))),
  )

  xray_security-refused :
      (s : Bytes) (raw : Option Settings)
      → ¬ IsSecurity s
      → xray_security n.layers.floats n.read_file s raw ≡ bad unsupported_security
  unfolding xray_security
  xray_security-refused s raw unknown = rw (
    eq-refuted s [] (λ h. unknown (inl h)),
    eq-refuted s (codes "none") (λ h. unknown (inr (inl h))),
    eq-refuted s (codes "tls") (λ h. unknown (inr (inr (inl h)))),
    eq-refuted s (codes "reality") (λ h. unknown (inr (inr (inr h)))),
  )

  module _ (cfg : StreamConfig V) (addr : Bytes) (unknown : ¬ IsSecurity cfg.security) where
    tcp_listen-refused : (l : Listener) → tcp_listen n addr cfg ≢ ok l
    unfolding tcp_listen
    tcp_listen-refused l =
        >>=-bad (or_fault listen_failed (n.net_listen addr)) _
          (λ ln. bad-refused (wrap-refused ln cfg.security cfg.security_settings unknown))

    xray_listen-refused : (protocol : Bytes) (l : Listener) → xray_listen n protocol addr cfg ≢ ok l
    unfolding xray_listen
    xray_listen-refused protocol l =
        >>=-bad (or_fault bad_address (parse_addr_port n.xray_net addr)) _ (λ at.
          >>=-bad (decode_settings (n.unmarshal protocol) (n.empty_message protocol) cfg.settings) _
            (λ message.
              bad->>= _ (xray_security-refused cfg.security cfg.security_settings unknown)))

  -- With the imported transports, a configuration whose security is not empty, "none", "tls" or
  -- "reality" yields no listener, whatever its network.
  listen-bootstrap_refuses :
      (cfg : StreamConfig V) (addr : Bytes)
      → ¬ IsSecurity cfg.security
      → (l : Listener) → listen cfg addr (bootstrap n) ≢ ok l
  listen-bootstrap_refuses cfg addr unknown l h =
      if-refused (bytes_eq cfg.network [] || bytes_eq cfg.network (codes "tcp"))
        (tcp_listen-refused cfg addr unknown l)
        (if-refused (bytes_eq cfg.network (codes "ws"))
          (xray_listen-refused cfg addr unknown (codes "websocket") l)
          (if-refused (bytes_eq cfg.network (codes "xhttp"))
            (xray_listen-refused cfg addr unknown (codes "xhttp") l) (λ e. cc)))
        (sym (listen-bootstrap cfg addr) ∙ h)
