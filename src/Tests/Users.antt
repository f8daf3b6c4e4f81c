-- ===== src/Tests/Users.antt =====
-- User sets.
use mathlib.Core.List.{Mem}
use vgate_server.Base.{ℕ, ◌≡◌, refl, [], ◌∷◌, some, none}
use vgate_server.Base.Text.{Bytes-discrete, bytes_key}
use vgate_server.Base.Dict.{get}
use vgate_server.Vless.Protocol.{parse_uuid, hex_digit}
use vgate_server.Vless.Quota.Cut.{conns_of}
use vgate_server.Vless.User.{update_users, add_conn}
use vgate_server.Vless.User.Revoke.{IsForgotten}
use vgate_server.Vless.User.Access.{update_users_revokes, late_conn_survives}
use vgate_server.Tests.Fixture.{alice, bob, alice_uuid, served}

update_users_revokes_example :
    let t = update_users (bob ∷ []) served in
    (get t.users alice_uuid ≡ none)
    × IsForgotten alice_uuid t
    × ((conn : ℕ) → Mem conn (conns_of alice_uuid served) → Mem conn t.closed)
unfolding get Bytes-discrete parse_uuid hex_digit
update_users_revokes_example = update_users_revokes (bob ∷ []) served alice_uuid alice refl refl

late_conn_survives_example :
    let t = add_conn alice_uuid 8 (update_users (bob ∷ []) served) in
    (get t.users alice_uuid ≡ none)
    × (get (update_users [] t).user_conns alice_uuid ≡ some ((8, tt) ∷ []))
unfolding get Bytes-discrete parse_uuid hex_digit
late_conn_survives_example = late_conn_survives (bob ∷ []) served alice_uuid 8 alice [] refl refl
