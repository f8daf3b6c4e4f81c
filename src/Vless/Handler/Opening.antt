-- ===== src/Vless/Handler/Opening.antt =====
-- The start of a request without addons, whatever follows the command.
use vgate_server.Base.{
  ℕ, ◌+◌, ◌-◌, ◌≤◌, ◌≡◌, sym, ap, ◌∙◌, List, [], ◌∷◌, ◌++◌, Option, none, some, true, false, arith,
  length, length-append, append_assoc, take-append, replicate, take,
}
use vgate_server.Base.Text.{Bytes, bytes_key}
use vgate_server.Base.Dict.{get}
use vgate_server.Model.{User}
use vgate_server.Vless.Server.{Externals, Server}
use vgate_server.Vless.Quota.{user_over_quota}
use vgate_server.Vless.Handler.Wire.{ok, byte_at, buffer, buffer_size, Reading}
use vgate_server.Vless.Handler.{Incoming, opened, authorise, first_read, gate, parse_flow}
use vgate_server.Vless.Handler.Requests.Buffers.{byte_at_lem, read_whole}

-- Version, UUID, no addons and command.
abbrev pub opening : Bytes → ℕ → Bytes → Bytes
opening uuid cmd tail = 0 ∷ (uuid ++ (0 ∷ cmd ∷ tail))

module _ (uuid : Bytes) (cmd : ℕ) (tail : Bytes) (u16 : length uuid ≡ 16) where
  abbrev got : Bytes
  got = opening uuid cmd tail

  abbrev zeros : Bytes
  zeros = replicate (buffer_size - length got) 0

  spell : got ++ zeros ≡ (0 ∷ uuid) ++ (0 ∷ cmd ∷ (tail ++ zeros))
  spell = append_assoc (0 ∷ uuid) (0 ∷ cmd ∷ tail) zeros

  pub length-opening : length got ≡ 19 + length tail
  length-opening = omega (arith, length-append uuid (0 ∷ cmd ∷ tail))

  pub flow_lem : (flow_of : Bytes → Option Bytes) → parse_flow flow_of (buffer got) ≡ ok ([], 18)
  unfolding parse_flow buffer
  flow_lem flow_of = rw (byte_at_lem (got ++ zeros) (0 ∷ uuid) 0 _ 17 spell (omega arith))

  pub command_lem : byte_at (buffer got) 18 ≡ ok cmd
  unfolding buffer
  command_lem =
      byte_at_lem (got ++ zeros) ((0 ∷ uuid) ++ 0 ∷ []) cmd _ 18
        (spell ∙ sym (append_assoc (0 ∷ uuid) (0 ∷ []) _))
        (omega (arith, length-append uuid (0 ∷ [])))

  pub claimed_lem : take 16 (uuid ++ (0 ∷ cmd ∷ tail)) ≡ uuid
  claimed_lem = rw (← u16) (take-append uuid _)

module _ {e : Externals} (s : Server e) (uuid : Bytes) where
  authorise_lem :
      (u : User) (r : Reading)
      → get s.users uuid ≡ some u
      → user_over_quota uuid s ≡ false
      → authorise uuid r s ≡ ok (uuid, r)
  unfolding authorise
  authorise_lem u r known free = rw (known, authorise, free)

  opened_lem :
      (c : Incoming e) (chunks : List Bytes)
      → s.decryption ≡ none
      → c.chunks ≡ chunks
      → opened c s.decryption ≡ some chunks
  unfolding opened
  opened_lem c chunks plain one = ap (opened c) plain ∙ ap some one

  -- The gate opens for a known user who is not cut, and the first read is the first chunk.
  pub gate_lem :
      (c : Incoming e) (cmd : ℕ) (tail : Bytes) (later : List Bytes) (u : User)
      → length uuid ≡ 16
      → length (opening uuid cmd tail) ≤ buffer_size
      → s.decryption ≡ none
      → c.chunks ≡ opening uuid cmd tail ∷ later
      → get s.users uuid ≡ some u
      → user_over_quota uuid s ≡ false
      → gate c s
        ≡ ok (
          uuid,
          record {
            got = opening uuid cmd tail;
            sizes = length (opening uuid cmd tail) ∷ [];
            enough = true;
            rest = later;
          },
        )
  unfolding gate first_read
  gate_lem c cmd tail later u u16 fits plain one known free =
      rw
        (
          opened_lem c (opening uuid cmd tail ∷ later) plain one,
          gate,
          read_whole 18 buffer_size (opening uuid cmd tail) later (omega arith)
              (omega (arith, length-opening uuid cmd tail u16)) fits,
        )
        (rw (claimed_lem uuid cmd tail u16) (authorise_lem u _ known free))
