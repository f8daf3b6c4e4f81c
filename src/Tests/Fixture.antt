-- ===== src/Tests/Fixture.antt =====
-- A server with two users, one of them with an open connection.
use vgate_server.Base.{ℕ, ◌%◌, List, [], ◌∷◌, some, refl, replicate}
use vgate_server.Base.Int.{ℤ, pos, pos_part}
use vgate_server.Transport.Settings.{Floats}
use vgate_server.Base.Text.{Bytes, codes}
use vgate_server.Model.{User, UserUsage}
use vgate_server.Vless.Server.{Externals, Server, new_server}

-- Conversions that are exact, and that cut an int to a byte.
abbrev pub exact_floats : Floats
exact_floats = record { of_int = λ z. z; to_byte = λ z. pos_part z % 256; to_int64 = λ z. z }

abbrev pub ext : Externals
ext = record {
  Limiter = ℤ × ℤ;
  new_limiter = λ r b. (r, b);
  burst = λ l. l.1;
  burst-new_limiter = λ r b. refl;
  Instance = List Bytes;
  init_instance = λ keys x f t p. some keys;
  Settings = Unit {0};
  no_settings = tt;
  settings_equal = λ a b. yes refl;
  floats = exact_floats;
}

abbrev pub alice_id : Bytes
alice_id = codes "11111111-1111-1111-1111-111111111111"

abbrev pub alice_uuid : Bytes
alice_uuid = replicate 16 0x11

abbrev pub bob_uuid : Bytes
bob_uuid = replicate 16 0x22

abbrev pub alice : User
alice = record {
  id = alice_id;
  email = codes "a@x";
  level = pos 0;
  expire_at = pos 0;
  speed_limit_up_bps = pos 0;
  speed_limit_down_bps = pos 5000;
}

abbrev pub bob : User
bob = record {
  id = codes "22222222222222222222222222222222";
  email = codes "b@x";
  level = pos 0;
  expire_at = pos 0;
  speed_limit_up_bps = pos 0;
  speed_limit_down_bps = pos 0;
}

abbrev pub served : Server ext
served = record (new_server ext) {
  users = (alice_uuid, alice) ∷ (bob_uuid, bob) ∷ [];
  user_conns = (alice_uuid, (7, tt) ∷ []) ∷ [];
}

abbrev pub usage_for_alice : ℕ → ℕ → UserUsage
usage_for_alice cap used = record {
  email = codes "a@x";
  quota_bytes = pos cap;
  used_bytes = pos used;
}
