-- ===== src/Model.antt =====
-- model/user.go, model/stream.go and model/config.go: what the manager sends and receives.
-- A string is its bytes, an int an integer. `Settings` stands for the decoded JSON values of
-- `map[string]any`, which this package passes on unread.
-- In `alpn` and `short_ids`, `none` is a nil slice.
use vgate_server.Base.{ℕ, List, Option, Bool}
use vgate_server.Base.Int.{ℤ}
use vgate_server.Base.Text.{Bytes}

-- `expire_at` is an instant; no code of the server reads it.
pub record User : Type 0 where
  pub id : Bytes
  pub email : Bytes
  pub level : ℤ
  pub expire_at : ℤ
  pub speed_limit_up_bps : ℤ
  pub speed_limit_down_bps : ℤ

pub record UserTraffic : Type 0 where
  pub email : Bytes
  pub node_id : Bytes
  pub up : ℤ
  pub down : ℤ

pub record UserUsage : Type 0 where
  pub email : Bytes
  pub quota_bytes : ℤ
  pub used_bytes : ℤ

pub record TlsConfig : Type 0 where
  pub server_name : Bytes
  pub cert_file : Bytes
  pub key_file : Bytes
  pub cert_pem : Bytes
  pub key_pem : Bytes
  pub alpn : Option (List Bytes)
  pub min_version : Bytes
  pub max_version : Bytes
  pub reject_unknown_sni : Bool

pub record RealityConfig : Type 0 where
  pub show : Bool
  pub target : Bytes
  pub xver : ℤ
  pub server_name : Bytes
  pub private_key : Bytes
  pub short_ids : Option (List Bytes)
  pub min_client_ver : Bytes
  pub max_client_ver : Bytes
  pub max_time_diff : ℤ

pub record Stream (Settings : Type 0) : Type 0 where
  pub network : Bytes
  pub settings : Settings
  pub security : Bytes
  pub tls_config : Option TlsConfig
  pub reality_config : Option RealityConfig

-- `xor_mode` is a uint32.
pub record Vless : Type 0 where
  pub decryption : Bytes
  pub xor_mode : ℕ
  pub seconds_from : ℤ
  pub seconds_to : ℤ
  pub padding : Bytes
  pub flow : Bytes

pub record TrafficSid : Type 0 where
  pub node_id : Bytes
  pub sid : Bytes

pub record Config (Settings : Type 0) : Type 0 where
  pub port : ℤ
  pub stream : Stream Settings
  pub vless : Vless
  pub speed_limit_up_bps : ℤ
  pub speed_limit_down_bps : ℤ
  pub traffic_sids : List TrafficSid
