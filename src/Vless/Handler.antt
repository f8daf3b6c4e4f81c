-- ===== src/Vless/Handler.antt =====
-- proxy/vless/handler.go: the VLESS handshake of one connection, up to the choice of a forwarder.
-- A read, a write and the tunnel of v2 are answers of the environment, in `Incoming`.
pub mod Wire
pub mod Admission
pub mod Requests
pub mod Delivery
pub mod Opening
pub mod Truncation
pub mod Panic
use vgate_server.Base.{
  ℕ, ◌+◌, ◌-◌, List, [], ◌∷◌, ◌++◌, Option, none, some, Bool, true, false, not, ◌==◌, length,
  if◌then◌else◌, take, drop, get_or, ite,
}
use vgate_server.Base.Int.{ℤ, pos}
use vgate_server.Base.Text.{Bytes, codes, bytes_key, bytes_eq}
use vgate_server.Base.Dict.{get}
use vgate_server.Vless.Server.{Externals, Server}
use vgate_server.Vless.Protocol.{version, cmd_tcp, cmd_udp, cmd_mux}
use vgate_server.Vless.Quota.{user_over_quota}
use vgate_server.Vless.Traffic.{add_traffic, node_for_short_id}
use vgate_server.Vless.User.{add_conn, remove_conn}
use Wire.{
  Destination, Reason, bad_read, bad_version, bad_addons, short_header, vision_not_allowed,
  vision_with_decryption, mux_disabled, bad_command, vision_udp, write_failed, handshake_failed,
  unknown_user, over_quota, Step, ok, reject, panic, ◌>>=◌, Reading, read_at_least, buffer, byte_at,
  slice, parse_target, buffer_size, ◌>>◌,
}

-- xrayvless.XRV
abbrev pub xrv : Bytes
xrv = codes "xtls-rprx-vision"

-- The connection and what the environment does on it: the short ID of a Reality connection, the
-- bytes of each Read, the tunnel that a decryption instance makes of it, and the answer to the Write
-- of the response. A tunnel counts as the connection that it wraps: closing it closes that.
pub record Incoming (e : Externals) : Type 0 where
  pub conn : ℕ
  pub short_id : Option Bytes
  pub chunks : List Bytes
  pub tunnel : e.Instance → Option (List Bytes)
  pub written : ℕ
  pub write_ok : Bool

-- The forwarder that takes over, with the payload read together with the header.
pub data Forward : Type 0 where
  to_mux : Bytes → Bool → Forward
  to_tcp : Destination → Bytes → Forward
  to_udp : Destination → Bytes → Forward
  to_vision : Destination → Bytes → Forward

-- What is known before the response is written; the number is `curr`.
pub data Plan : Type 0 where
  mux_at : ℕ → Plan
  target_at : ℕ → Destination → ℕ → Plan

abbrev pub relay : Bool → ℕ → Destination → Bytes → Forward
relay vision cmd dest payload =
    if vision
    then to_vision dest payload
    else if cmd == cmd_tcp
    then to_tcp dest payload
    else to_udp dest payload

-- The payload `buf[curr:n]`, which panics if the header reaches past the bytes read.
unfoldable pub forward : Bool → Bytes → ℕ → Plan → Step Forward
forward vision buf n (mux_at curr) = do payload ← slice buf curr n; ok (to_mux payload vision)
forward vision buf n (target_at cmd dest curr) = do
  payload ← slice buf curr n
  ok (relay vision cmd dest payload)

-- The checks on the flow, before the command is looked at.
unfoldable pub check_flow : {e : Externals} → Bool → Server e → Step (Unit {0})
check_flow vision s =
    if vision
    then if bytes_eq s.vless.flow xrv
      then elim s.decryption [ none ↦ ok tt | some _ ↦ reject vision_with_decryption ]
      else reject vision_not_allowed
    else ok tt

-- The switch on the command, and the target of a TCP or UDP command.
unfoldable pub choose : Bool → Bool → Bytes → ℕ → ℕ → Step Plan
choose enable_mux vision buf cmd curr =
    if cmd == cmd_mux
    then if enable_mux then ok (mux_at curr) else reject mux_disabled
    else if cmd == cmd_tcp
    then (do (dest, curr') ← parse_target buf curr; ok (target_at cmd dest curr'))
    else if cmd == cmd_udp
    then (do
      (dest, curr') ← parse_target buf curr
      if vision then reject vision_udp else ok (target_at cmd dest curr'))
    else reject bad_command

-- The addons field, a protobuf message that `flow_of` decodes, and the place behind it.
unfoldable pub parse_flow : (Bytes → Option Bytes) → Bytes → Step (Bytes × ℕ)
parse_flow flow_of buf = do
  size ← byte_at buf 17
  if size == 0 then ok ([], 18) else (do
    addons ← slice buf 18 (18 + size)
    elim (flow_of addons) [ none ↦ reject bad_addons | some flow ↦ ok (flow, 18 + size) ])

-- The bytes of the second read, if there is one: `curr + 4` must be there.
abbrev pub missing : ℕ → ℕ → ℕ
missing curr n = curr + 4 - n

module _ {e : Externals} where
  -- One addTraffic for each Read of the counting connection.
  unfoldable pub count_reads : Bytes → Bytes → List ℕ → Server e → Server e
  count_reads uuid node [] s = s
  count_reads uuid node (n ∷ ns) s =
      count_reads uuid node ns (if n == 0 then s else add_traffic uuid node (pos n) (pos 0) s)

  unfoldable pub entry_node : Option Bytes → Server e → Bytes
  entry_node none s = []
  entry_node (some sid) s = node_for_short_id sid s

  -- The chunks that the handshake reads: the connection's, or the tunnel's if v2 is on.
  unfoldable pub opened : Incoming e → Option e.Instance → Option (List Bytes)
  opened c none = some c.chunks
  opened c (some instance') = c.tunnel instance'

  -- The user lookup and the quota gate.
  unfoldable pub authorise : Bytes → Reading → Server e → Step (Bytes × Reading)
  authorise uuid r s = elim (get s.users uuid) [
    | none ↦ reject unknown_user
    | some _ ↦ if user_over_quota uuid s then reject over_quota else ok (uuid, r)
  ]

  -- The version and the UUID of the first read.
  unfoldable pub first_read : Reading → Server e → Step (Bytes × Reading)
  first_read r s =
      if not r.enough
      then reject bad_read
      else if not (get_or r.got 0 0 == version)
      then reject bad_version
      else authorise (take 16 (drop 1 r.got)) r s

  unfoldable pub gate : Incoming e → Server e → Step (Bytes × Reading)
  gate c s = elim (opened c s.decryption) [
    | none ↦ reject handshake_failed
    | some chunks ↦ first_read (read_at_least 18 buffer_size chunks) s
  ]

  -- After the second read: the flow, the command and the target.
  unfoldable pub plan : Bytes → Bytes → ℕ → Server e → Step (Bool × Plan)
  plan flow buf curr s = do
    cmd ← byte_at buf curr
    let vision = bytes_eq flow xrv
    check_flow vision s
    p ← choose s.enable_mux vision buf cmd (curr + 1)
    ok (vision, p)

  -- The response is two bytes; what was written is counted also if the Write fails.
  abbrev pub count_response : Incoming e → Bytes → Bytes → Server e → Server e
  count_response c uuid node s =
      if c.written == 0 then s else add_traffic uuid node (pos 0) (pos c.written) s

  unfoldable pub respond :
      Incoming e → Bytes → Bytes → Bool → Bytes → ℕ → Plan → Server e → Step Forward × Server e
  respond c uuid node vision buf n p s = (
    if c.write_ok then forward vision buf n p else reject write_failed,
    count_response c uuid node s,
  )

  unfoldable pub choose_forwarder :
      Incoming e → Bytes → Bytes → Bytes → Bytes → ℕ → Server e → Step Forward × Server e
  choose_forwarder c uuid node flow got curr s = elim (plan flow (buffer got) curr s) [
    | reject r ↦ (reject r, s)
    | panic ↦ (panic, s)
    | ok (vision, p) ↦ respond c uuid node vision (buffer got) (length got) p s
  ]

  -- The second read, if the header is not there as far as the address type.
  unfoldable pub read_rest :
      Incoming e → Bytes → Bytes → Bytes → Reading → ℕ → Server e → Step Forward × Server e
  read_rest c uuid node flow r curr s =
      let n = length r.got in
      let more = read_at_least (missing curr n) (buffer_size - n) r.rest in
      let s' = count_reads uuid node more.sizes s in
      if more.enough
      then choose_forwarder c uuid node flow (r.got ++ more.got) curr s'
      else (reject short_header, s')

  -- From the registered connection to the forwarder.
  unfoldable pub admitted :
      (Bytes → Option Bytes)
      → Incoming e
      → Bytes
      → Bytes
      → Reading
      → Server e
      → Step Forward × Server e
  admitted flow_of c uuid node r s = elim (parse_flow flow_of (buffer r.got)) [
    | reject x ↦ (reject x, s)
    | panic ↦ (panic, s)
    | ok (flow, curr) ↦ read_rest c uuid node flow r curr s
  ]

  -- addConn, and the count of the first read.
  unfoldable pub register : Incoming e → Bytes → Bytes → ℕ → Server e → Server e
  register c uuid node n s = add_traffic uuid node (pos n) (pos 0) (add_conn uuid c.conn s)

  -- The deferred Close.
  unfoldable pub close_conn : ℕ → Server e → Server e
  close_conn conn s = record s { closed = conn ∷ s.closed }

  -- The deferred calls of a registered connection, in their order.
  unfoldable pub finish : Bytes → ℕ → Server e → Server e
  unfolding close_conn
  finish uuid conn s = close_conn conn (remove_conn uuid conn s)

  -- A forwarder runs before the deferred calls; without one they follow at once.
  unfoldable pub settle : Bytes → ℕ → Step Forward × Server e → Step Forward × Server e
  settle uuid conn (ok f, s) = (ok f, s)
  settle uuid conn (reject r, s) = (reject r, finish uuid conn s)
  settle uuid conn (panic, s) = (panic, finish uuid conn s)

  -- handleConnection up to the call of a forwarder, when nothing else runs in between.
  unfoldable pub handle_connection :
      (Bytes → Option Bytes) → Incoming e → Server e → Step Forward × Server e
  unfolding settle
  handle_connection flow_of c s =
      let node = entry_node c.short_id s in
      elim (gate c s) [
        | reject r ↦ (reject r, close_conn c.conn s)
        | panic ↦ (panic, close_conn c.conn s)
        | ok (uuid, r) ↦
            settle uuid c.conn
              (admitted flow_of c uuid node r (register c uuid node (length r.got) s))
      ]
