-- ===== src/Transport/Registry.antt =====
-- transport/transport.go, the transports tcp, ws and xhttp, and proxy/vless/bootstrap.go, which
-- brings them into the registry.
pub mod Dispatch
use vgate_server.Base.{ℕ, List, [], ◌∷◌, Option, none, some, Bool, ◌||◌, if◌then◌else◌}
use vgate_server.Base.Text.{Bytes, codes, bytes_eq, bytes_key}
use vgate_server.Base.Dict.{Dict, get, put}
use vgate_server.Transport.Settings.{
  Floats, Settings, unsupported_security, bad_address, listen_failed, unknown_network, Checked, ok,
  bad, ◌>>=◌,
}
use vgate_server.Transport.Security.{Layers, wrap}
use vgate_server.Transport.Address.{XrayAddress, XrayNet, parse_addr_port}
use vgate_server.Transport.Bridge.{
  XrayTls, XrayReality, decode_settings, build_xray_tls_config, build_xray_reality_config,
}

-- `settings` holds the decoded JSON values of the transport, which only xray-core reads.
pub record StreamConfig (V : Type 0) : Type 0 where
  pub network : Bytes
  pub settings : Dict Bytes V
  pub security : Bytes
  pub security_settings : Option Settings

-- The interface of a transport.
pub record Transport (Listener V : Type 0) : Type 0 where
  pub name : Bytes
  pub listen : Bytes → StreamConfig V → Checked Listener

-- SecurityType and SecuritySettings of xray-core's MemoryStreamConfig.
pub data XraySecurity : Type 0 where
  plain : XraySecurity
  with_tls : XrayTls → XraySecurity
  with_reality : XrayReality → XraySecurity

-- What the transports take from the network and from xray-core: net.Listen, file contents, and for
-- each protocol the message of its settings and the call that listens, whose listener goes into a
-- ChanListener.
pub record Net (Listener V : Type 0) : Type 1 where
  pub net_listen : Bytes → Option Listener
  pub layers : Layers Listener
  pub read_file : Bytes → Option Bytes
  pub xray_net : XrayNet
  pub Message : Bytes → Type 0
  pub empty_message : (protocol : Bytes) → Message protocol
  pub unmarshal : (protocol : Bytes) → Dict Bytes V → Option (Message protocol)
  pub listen_xray :
      (protocol : Bytes) → XrayAddress → ℕ → Message protocol → XraySecurity → Option Listener

abbrev pub or_fault {ℓ} :
    {A : Type ℓ} → vgate_server.Transport.Settings.Fault → Option A → Checked A
or_fault x none = bad x
or_fault x (some a) = ok a

-- The switch on the security of ws and xhttp.
unfoldable pub xray_security :
    Floats → (Bytes → Option Bytes) → Bytes → Option Settings → Checked XraySecurity
xray_security f read_file security raw =
    if bytes_eq security [] || bytes_eq security (codes "none")
    then ok plain
    else if bytes_eq security (codes "tls")
    then (do cfg ← build_xray_tls_config read_file raw; ok (with_tls cfg))
    else if bytes_eq security (codes "reality")
    then (do cfg ← build_xray_reality_config f raw; ok (with_reality cfg))
    else bad unsupported_security

module _ {Listener V : Type 0} (n : Net Listener V) where
  unfoldable pub tcp_listen : Bytes → StreamConfig V → Checked Listener
  tcp_listen addr cfg = do
    ln ← or_fault listen_failed (n.net_listen addr)
    wrap n.layers ln cfg.security cfg.security_settings

  -- Listen of ws and of xhttp, which differ in the protocol alone.
  unfoldable pub xray_listen : Bytes → Bytes → StreamConfig V → Checked Listener
  xray_listen protocol addr cfg = do
    (address, port) ← or_fault bad_address (parse_addr_port n.xray_net addr)
    message ← decode_settings (n.unmarshal protocol) (n.empty_message protocol) cfg.settings
    security ← xray_security n.layers.floats n.read_file cfg.security cfg.security_settings
    or_fault listen_failed (n.listen_xray protocol address port message security)

  abbrev pub tcp_transport : Transport Listener V
  tcp_transport = record { name = codes "tcp"; listen = tcp_listen }

  abbrev pub ws_transport : Transport Listener V
  ws_transport = record { name = codes "ws"; listen = xray_listen (codes "websocket") }

  abbrev pub xhttp_transport : Transport Listener V
  xhttp_transport = record { name = codes "xhttp"; listen = xray_listen (codes "xhttp") }

abbrev pub Registry : Type 0 → Type 0 → Type 0
Registry Listener V = Dict Bytes (Transport Listener V)

module _ {Listener V : Type 0} where
  -- Register
  unfoldable pub register : Transport Listener V → Registry Listener V → Registry Listener V
  register t registry = put registry t.name t

  -- Get
  unfoldable pub get_transport : Bytes → Registry Listener V → Checked (Transport Listener V)
  get_transport name registry = or_fault unknown_network (get registry name)

  -- Available
  abbrev pub available : Registry Listener V → List Bytes
  available [] = []
  available ((name, t) ∷ registry) = name ∷ available registry

  -- Listen
  unfoldable pub listen : StreamConfig V → Bytes → Registry Listener V → Checked Listener
  listen cfg addr registry = do
    t ← get_transport (if bytes_eq cfg.network [] then codes "tcp" else cfg.network) registry
    t.listen addr cfg

-- What the imports of bootstrap.go register.
unfoldable pub bootstrap : {Listener V : Type 0} → Net Listener V → Registry Listener V
unfolding register
bootstrap n =
    register (xhttp_transport n) (register (ws_transport n) (register (tcp_transport n) []))
