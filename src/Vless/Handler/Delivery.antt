-- ===== src/Vless/Handler/Delivery.antt =====
-- A TCP or UDP request that comes in one piece reaches its forwarder.
use vgate_server.Base.{
  ℕ, ◌+◌, ◌-◌, ◌≤◌, ◌≡◌, refl, ◌⊎◌, [], ◌∷◌, ◌++◌, Option, none, some, true, false, arith, length,
  length-append, append_assoc, append-nil, replicate,
}
use vgate_server.Base.Text.{Bytes, bytes_key, bytes_eq, Bytes-discrete}
use vgate_server.Base.Dict.{get}
use vgate_server.Model.{User}
use vgate_server.Vless.Server.{Externals, Server}
use vgate_server.Vless.Protocol.{cmd_tcp, cmd_udp}
use vgate_server.Vless.Quota.{user_over_quota}
use vgate_server.Vless.Handler.Wire.{
  ok, Destination, slice, parse_target, buffer, buffer_size, Reading,
}
use vgate_server.Vless.Handler.{
  Incoming, target_at, relay, plan, check_flow, choose, forward, respond, choose_forwarder,
  read_rest, admitted, register, entry_node, count_reads, count_response, handle_connection, xrv,
}
use vgate_server.Vless.Handler.Opening.{opening, length-opening, flow_lem, command_lem, gate_lem}
use vgate_server.Vless.Handler.Requests.{Fits, encode_target, parse_target_lem}
use vgate_server.Vless.Handler.Requests.Buffers.{slice_lem, read_none}

-- Version, UUID, no addons, command, target and payload.
abbrev pub request : Bytes → ℕ → Destination → Bytes → Bytes
request uuid cmd d payload = opening uuid cmd (encode_target d ++ payload)

abbrev whole : Bytes → Reading
whole got = record { got = got; sizes = length got ∷ []; enough = true; rest = [] }

-- An empty flow is not the Vision flow.
pub no_vision : bytes_eq [] xrv ≡ false
unfolding Bytes-discrete
no_vision = refl

module _ (uuid : Bytes) (cmd : ℕ) (d : Destination) (payload : Bytes) (u16 : length uuid ≡ 16) where
  abbrev got : Bytes
  got = request uuid cmd d payload

  abbrev zeros : Bytes
  zeros = replicate (buffer_size - length got) 0

  -- Where the payload begins.
  abbrev body_at : ℕ
  body_at = 19 + length (encode_target d)

  target_lem : Fits d.address → parse_target (buffer got) 19 ≡ ok (d, body_at)
  unfolding buffer
  target_lem f =
      parse_target_lem ((0 ∷ uuid) ++ 0 ∷ cmd ∷ []) (payload ++ zeros) (got ++ zeros) 19 d
        (omega (arith, length-append uuid (0 ∷ cmd ∷ []))) f (simp append_assoc)

  plan_lem :
      {e : Externals} (s : Server e)
      → Fits d.address
      → (cmd ≡ cmd_tcp) ⊎ (cmd ≡ cmd_udp)
      → plan [] (buffer got) 18 s ≡ ok (false, target_at cmd d body_at)
  unfolding plan check_flow choose
  plan_lem s f kind =
      rw (command_lem uuid cmd (encode_target d ++ payload) u16, no_vision)
        (ground (arith, target_lem f))

  -- The payload is what stands behind the header.
  payload_lem : slice (buffer got) body_at (length got) ≡ ok payload
  unfolding buffer
  payload_lem =
      let head = (0 ∷ uuid) ++ 0 ∷ cmd ∷ encode_target d in
      slice_lem (got ++ zeros) head payload zeros body_at (length got) (simp append_assoc)
        (omega (arith, length-append uuid (0 ∷ cmd ∷ encode_target d)))
        (omega (
          arith,
          length-opening uuid cmd (encode_target d ++ payload) u16,
          length-append (encode_target d) payload,
          length-append uuid (0 ∷ cmd ∷ encode_target d),
        ))

module _ {e : Externals} (uuid : Bytes) (cmd : ℕ) (d : Destination) (payload : Bytes)
    (c : Incoming e) (s : Server e) where
  admitted_lem :
      (flow_of : Bytes → Option Bytes) (node : Bytes) (t : Server e)
      → length uuid ≡ 16
      → Fits d.address
      → (cmd ≡ cmd_tcp) ⊎ (cmd ≡ cmd_udp)
      → c.write_ok ≡ true
      → admitted flow_of c uuid node (whole (request uuid cmd d payload)) t
        ≡ (ok (relay false cmd d payload), count_response c uuid node t)
  unfolding admitted read_rest choose_forwarder respond forward count_reads
  admitted_lem flow_of node t u16 f kind written =
      let tail = encode_target d ++ payload in
      let enough : 18 + 4 - length (opening uuid cmd tail) ≡ 0 =
        omega (arith, length-opening uuid cmd tail u16) in
      rw (flow_lem uuid cmd tail u16 flow_of, admitted, enough, read_none, append-nil)
        (rw (plan_lem uuid cmd d payload u16 t f kind, choose_forwarder)
          (rw (written, payload_lem uuid cmd d payload u16)))

  -- A TCP or UDP request of a known user who is not cut, without addons and with the payload that
  -- came along in the first 512 bytes, is registered and counted, and reaches its forwarder with the
  -- target and the payload that the client wrote. v2 is off and the response can be written.
  pub handle_connection_delivers :
      (flow_of : Bytes → Option Bytes) (u : User)
      → length uuid ≡ 16
      → Fits d.address
      → (cmd ≡ cmd_tcp) ⊎ (cmd ≡ cmd_udp)
      → length (request uuid cmd d payload) ≤ buffer_size
      → s.decryption ≡ none
      → c.chunks ≡ request uuid cmd d payload ∷ []
      → c.write_ok ≡ true
      → get s.users uuid ≡ some u
      → user_over_quota uuid s ≡ false
      → let node = entry_node c.short_id s in
        handle_connection flow_of c s ≡ (
          ok (relay false cmd d payload),
          count_response c uuid node (register c uuid node (length (request uuid cmd d payload)) s),
        )
  unfolding handle_connection
  handle_connection_delivers flow_of u u16 f kind fits plain one written known free =
      rw
        (
          gate_lem s uuid c cmd (encode_target d ++ payload) [] u u16 fits plain one known free,
          handle_connection,
        )
        (rw (admitted_lem flow_of (entry_node c.short_id s) _ u16 f kind written))
