-- ===== src/Tests/Handler.antt =====
-- Connections of users and of strangers.
use vgate_server.Base.{
  ◌≡◌, refl, ap, inl, List, [], ◌∷◌, Option, some, none, true, false, arith, length,
}
use vgate_server.Base.Text.{Bytes, codes, Bytes-discrete, bytes_key}
use vgate_server.Base.Dict.{get}
use vgate_server.Model.{User}
use vgate_server.Vless.Quota.{user_over_quota}
use vgate_server.Vless.Handler.Wire.{ok, reject, panic, Reason, Destination, domain, read_at_least}
use vgate_server.Vless.Handler.{
  Incoming, relay, handle_connection, entry_node, count_response, register, opened, close_conn,
}
use vgate_server.Vless.Handler.Admission.{forwards_only_users, refused_leaves_no_trace}
use vgate_server.Vless.Handler.Delivery.{request, handle_connection_delivers}
use vgate_server.Vless.Handler.Opening.{opening}
use vgate_server.Vless.Handler.Panic.{split_header_panics}
use vgate_server.Tests.Fixture.{ext, alice, alice_uuid, served}

abbrev no_addons : Bytes → Option Bytes
no_addons b = none

abbrev web : Destination
web = record { address = domain (codes "a.b"); port = 443 }

abbrev hello : Bytes
hello = codes "hello"

abbrev incoming : List Bytes → Incoming ext
incoming chunks = record {
  conn = 9;
  short_id = none;
  chunks = chunks;
  tunnel = λ i. none;
  written = 2;
  write_ok = true;
}

abbrev asked : Incoming ext
asked = incoming (request alice_uuid 1 web hello ∷ [])

free : user_over_quota alice_uuid served ≡ false
unfolding user_over_quota get
free = refl

known : get served.users alice_uuid ≡ some alice
unfolding get Bytes-discrete
known = refl

delivered : handle_connection no_addons asked served ≡ (
  ok (relay false 1 web hello),
  count_response asked alice_uuid (entry_node none served) (
      register asked alice_uuid
        (entry_node none served)
        (length (request alice_uuid 1 web hello))
        served),
)
delivered =
    handle_connection_delivers alice_uuid 1 web hello asked served no_addons alice refl
      (omega arith) (inl refl) (omega arith) refl refl refl known free

handle_connection_delivers_example : handle_connection no_addons asked served ≡ (
  ok (relay false 1 web hello),
  count_response asked alice_uuid (entry_node none served) (
      register asked alice_uuid
        (entry_node none served)
        (length (request alice_uuid 1 web hello))
        served),
)
handle_connection_delivers_example =
    handle_connection_delivers alice_uuid 1 web hello asked served no_addons alice refl
      (omega arith) (inl refl) (omega arith) refl refl refl known free

forwards_only_users_example :
    ((u : User) × (get served.users alice_uuid ≡ some u))
    × (user_over_quota alice_uuid served ≡ false)
unfolding read_at_least
forwards_only_users_example =
    forwards_only_users no_addons asked served asked.chunks (relay false 1 web hello)
      (unfold opened in refl) (ap (λ x. x.0) delivered)

-- A stranger's connection 9 is closed.
refused_leaves_no_trace_example :
    (x : Reason) × (handle_connection no_addons
        (incoming (opening (codes "0123456789abcdef") 1 hello ∷ []))
        served
      ≡ (reject x, close_conn 9 served))
unfolding read_at_least get Bytes-discrete
refused_leaves_no_trace_example =
    refused_leaves_no_trace no_addons (incoming (opening (codes "0123456789abcdef") 1 hello ∷ []))
      served (opening (codes "0123456789abcdef") 1 hello ∷ []) (unfold opened in refl) (inl refl)

-- The name of three bytes has one byte in the first read.
split_header_panics_example :
    (handle_connection no_addons
      (incoming (opening alice_uuid 1 (1 ∷ 187 ∷ 2 ∷ 3 ∷ b'a' ∷ []) ∷ codes ".b" ∷ []))
      served).0
    ≡ panic
split_header_panics_example =
    split_header_panics alice_uuid 1 1 187 (domain (codes "a.b")) (3 ∷ b'a' ∷ []) (codes ".b") refl
      (omega arith) refl (ground arith) no_addons
      (incoming (opening alice_uuid 1 (1 ∷ 187 ∷ 2 ∷ 3 ∷ b'a' ∷ []) ∷ codes ".b" ∷ [])) served alice
      (codes ".b" ∷ []) (inl refl) refl refl refl known free
