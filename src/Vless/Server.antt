-- ===== src/Vless/Server.antt =====
-- The `Server` struct of proxy/vless/server.go and the structs that its maps hold.
-- Every method takes the server's mutex, so a method is one step from a server to the next one.
-- `closed` is not a field of the struct: it lists the connections on which `Close` was called.
use vgate_server.Base.{ℕ, List, [], Option, none, Bool, true, ◌≡◌}
use vgate_server.Base.Int.{ℤ, pos}
use vgate_server.Base.Text.{Bytes}
use vgate_server.Base.Dict.{Dict}
use vgate_server.Model.{User, Stream, Vless}
use vgate_server.Transport.Settings.{Floats}

-- What the package takes from other modules: golang.org/x/time/rate, xray-core's `encryption`, the
-- values that encoding/json decodes into `map[string]any`, and the conversions of Go.
pub record Externals : Type 1 where
  pub Limiter : Type 0
  pub new_limiter : ℤ → ℤ → Limiter
  pub burst : Limiter → ℤ
  pub burst-new_limiter : (rate burst' : ℤ) → burst (new_limiter rate burst') ≡ burst'
  pub Instance : Type 0
  pub init_instance : List Bytes → ℕ → ℤ → ℤ → Bytes → Option Instance
  pub Settings : Type 0
  pub no_settings : Settings
  pub settings_equal : Discrete Settings
  pub floats : Floats

-- `b` is never nil in a bucket that `newRateBucket` builds.
pub record RateBucket (Limiter : Type 0) : Type 0 where
  pub b : Limiter
  pub rate : ℤ

pub record TrafficStat : Type 0 where
  pub email : Bytes
  pub up : ℤ
  pub down : ℤ

pub record QuotaState : Type 0 where
  pub quota : ℤ
  pub base : ℤ
  pub accrual : ℤ
  pub cut : Bool

-- A connection is a number; a `map[net.Conn]struct{}` is a map into `Unit`.
abbrev pub ConnSet : Type 0
ConnSet = Dict ℕ (Unit {0})

pub record Server (e : Externals) : Type 0 where
  pub users : Dict Bytes User
  pub port : ℤ
  pub stream : Stream e.Settings
  pub vless : Vless
  pub ln : Option ℕ
  pub decryption : Option e.Instance
  pub enable_mux : Bool
  pub user_conns : Dict Bytes ConnSet
  pub user_traffic : Dict (Bytes × Bytes) TrafficStat
  pub user_quota : Dict Bytes QuotaState
  pub node_id : Bytes
  pub sid_node : Dict Bytes Bytes
  pub global_u_limiter : Option (RateBucket e.Limiter)
  pub global_d_limiter : Option (RateBucket e.Limiter)
  pub user_u_limiters : Dict Bytes (Option (RateBucket e.Limiter))
  pub user_d_limiters : Dict Bytes (Option (RateBucket e.Limiter))
  pub closed : List ℕ

abbrev pub no_vless : Vless
no_vless = record {
  decryption = [];
  xor_mode = 0;
  seconds_from = pos 0;
  seconds_to = pos 0;
  padding = [];
  flow = [];
}

-- NewServer
abbrev pub new_server : (e : Externals) → Server e
new_server e = record {
  users = [];
  port = pos 0;
  stream = record {
    network = [];
    settings = e.no_settings;
    security = [];
    tls_config = none;
    reality_config = none;
  };
  vless = no_vless;
  ln = none;
  decryption = none;
  enable_mux = true;
  user_conns = [];
  user_traffic = [];
  user_quota = [];
  node_id = [];
  sid_node = [];
  global_u_limiter = none;
  global_d_limiter = none;
  user_u_limiters = [];
  user_d_limiters = [];
  closed = [];
}

module _ {e : Externals} where
  -- SetNodeID
  unfoldable pub set_node_id : Bytes → Server e → Server e
  set_node_id id s = record s { node_id = id }
