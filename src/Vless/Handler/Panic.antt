-- ===== src/Vless/Handler/Panic.antt =====
-- What a split header does to handler.go: the payload slice `buf[curr:n]` begins behind its end.
use vgate_server.Base.{
  ℕ, ◌+◌, ◌-◌, ◌*◌, ◌<◌, ◌≤◌, ◌≡◌, ◌≢◌, sym, ◌⊎◌, List, [], ◌∷◌, ◌++◌, Option, none, some, true,
  false, arith, length, length-append, append_assoc, append-nil, replicate, subst,
}
use vgate_server.Base.Text.{Bytes, bytes_key}
use vgate_server.Base.Dict.{get}
use vgate_server.Model.{User}
use vgate_server.Vless.Server.{Externals, Server}
use vgate_server.Vless.Protocol.{cmd_tcp, cmd_udp}
use vgate_server.Vless.Quota.{user_over_quota}
use vgate_server.Vless.Handler.Wire.{
  Step, ok, panic, reject, Address, ipv4, domain, ipv6, Destination, parse_address, parse_target,
  buffer, buffer_size,
}
use vgate_server.Vless.Handler.{
  Incoming, Forward, target_at, plan, check_flow, choose, forward, respond, choose_forwarder,
  read_rest, admitted, settle, entry_node, count_reads, handle_connection,
}
use vgate_server.Vless.Handler.Delivery.{no_vision}
use vgate_server.Vless.Handler.Opening.{opening, length-opening, flow_lem, command_lem, gate_lem}
use vgate_server.Vless.Handler.Requests.{Fits, address_type, address_body}
use vgate_server.Vless.Handler.Requests.Buffers.{slice_short, read_none}
use vgate_server.Vless.Handler.Truncation.{shorter, address_past, target_from_address}

length-address_body : (a : Address) → Fits a → length (address_body a) ≤ 256
length-address_body (ipv4 bytes) f = omega arith
length-address_body (domain name) f = omega arith
length-address_body (ipv6 bytes) f = omega arith

settle_panic :
    {e : Externals} (uuid : Bytes) (conn : ℕ) (x : Step Forward × Server e)
    → x.0 ≡ panic
    → (settle uuid conn x).0 ≡ panic
unfolding settle
settle_panic uuid conn (ok f, s) h = h
settle_panic uuid conn (reject r, s) h = h
settle_panic uuid conn (panic, s) h = h

module _ (uuid : Bytes) (cmd hi lo : ℕ) (a : Address) (part more : Bytes) (u16 : length uuid ≡ 16)
    (f : Fits a) (split : part ++ more ≡ address_body a) (rest : more ≢ []) where
  abbrev tail : Bytes
  tail = hi ∷ lo ∷ address_type a ∷ part

  abbrev got : Bytes
  got = opening uuid cmd tail

  abbrev before : Bytes
  before = (0 ∷ uuid) ++ 0 ∷ cmd ∷ hi ∷ lo ∷ address_type a ∷ []

  length-before : length before ≡ 22
  length-before = omega (arith, length-append uuid (0 ∷ cmd ∷ hi ∷ lo ∷ address_type a ∷ []))

  got-before : got ≡ before ++ part
  got-before = simp append_assoc

  -- The code reads some target, and its end is past the bytes read.
  past_lem :
      (b : Address) × (next : ℕ) × (parse_target (buffer got) 19
        ≡ ok (record { address = b; port = hi * 256 + lo }, next))
      × (length got < next)
  past_lem =
      let (b, next, e, past) =
        address_past before part more a f split rest (omega (arith, length-before)) in
      (
        b,
        next,
        target_from_address ((0 ∷ uuid) ++ 0 ∷ cmd ∷ []) hi lo (address_type a) (buffer got)
            (part ++ replicate (buffer_size - length got) 0) 19 b next
            (omega (arith, length-append uuid (0 ∷ cmd ∷ []))) (unfold buffer in simp append_assoc)
            (subst (λ n. parse_address (buffer got) (address_type a) n ≡ ok (b, next)) length-before
              (subst (λ g. parse_address (buffer g) (address_type a) (length before) ≡ ok (b, next))
                (sym got-before) e)),
        subst (λ g. length g < next) (sym got-before) past,
      )

  past_plan :
      {e : Externals} (s : Server e)
      → (cmd ≡ cmd_tcp) ⊎ (cmd ≡ cmd_udp)
      → (d : Destination) × (next : ℕ) × (plan [] (buffer got) 18 s
          ≡ ok (false, target_at cmd d next))
        × (length got < next)
  unfolding plan check_flow choose
  past_plan s kind =
      let (b, next, e, past) = past_lem in
      (
        record { address = b; port = hi * 256 + lo },
        next,
        rw (command_lem uuid cmd tail u16, no_vision) (ground (arith, e)),
        past,
      )

  past_panics :
      {e : Externals} (flow_of : Bytes → Option Bytes) (c : Incoming e) (node : Bytes)
      → (later : List Bytes) (t : Server e) → (cmd ≡ cmd_tcp) ⊎ (cmd ≡ cmd_udp)
      → c.write_ok ≡ true
      → (admitted flow_of c uuid node
          (record { got = got; sizes = length got ∷ []; enough = true; rest = later })
          t).0
        ≡ panic
  unfolding admitted read_rest choose_forwarder respond forward count_reads
  past_panics flow_of c node later t kind written =
      let enough : 18 + 4 - length got ≡ 0 = omega (arith, length-opening uuid cmd tail u16) in
      let (d, next, planned, past) = past_plan t kind in
      rw (flow_lem uuid cmd tail u16 flow_of, admitted, enough, read_none, append-nil)
        (rw (planned, choose_forwarder)
          (rw (written, slice_short (buffer got) next (length got) past)))

  -- A known user who is not cut makes the handler panic by a TCP or UDP request of which the first
  -- read brings the address type but not the whole address, whatever the client sends later.
  pub split_header_panics :
      {e : Externals} (flow_of : Bytes → Option Bytes) (c : Incoming e) (s : Server e) (u : User)
      → (later : List Bytes) → (cmd ≡ cmd_tcp) ⊎ (cmd ≡ cmd_udp)
      → s.decryption ≡ none
      → c.chunks ≡ got ∷ later
      → c.write_ok ≡ true
      → get s.users uuid ≡ some u
      → user_over_quota uuid s ≡ false
      → (handle_connection flow_of c s).0 ≡ panic
  unfolding handle_connection
  split_header_panics flow_of c s u later kind plain one written known free =
      let fits : length got ≤ buffer_size = omega (
        arith,
        length-opening uuid cmd tail u16,
        shorter part more (address_body a) split rest,
        length-address_body a f,
      ) in
      rw (gate_lem s uuid c cmd tail later u u16 fits plain one known free, handle_connection)
        (settle_panic uuid c.conn _
          (past_panics flow_of c (entry_node c.short_id s) later _ kind written))
