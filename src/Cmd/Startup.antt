-- ===== src/Cmd/Startup.antt =====
-- cmd/root.go: run from its start to the first tick, with LoadLocalConfig of config/config.go and
-- the log levels of transport/xraybridge/log.go. White space and letters outside ASCII are not
-- trimmed or lowered.
use vgate_server.Base.{
  ◌+◌, ◌-◌, ◌*◌, [], ◌∷◌, ◌++◌, Option, none, some, Bool, true, false, ◌||◌, if◌then◌else◌, ◌==◌,
}
use vgate_server.Base.Int.{ℤ, pos, negsuc, wrap64, leb_ℤ}
use vgate_server.Base.Text.{Bytes, codes, bytes_eq, bytes_key}
use vgate_server.Base.Dict.{Dict, put}
use vgate_server.Vless.Config.Keys.{trim_left, trim_right, to_lower}
use vgate_server.Vless.Server.{Externals, Server, new_server, set_node_id}
use vgate_server.Api.{new_client}
use vgate_server.Cmd.{alone, Answers, Node, sync, vless_inbound}

pub record LocalConfig : Type 0 where
  pub admin_api : Bytes
  pub node_id : Bytes
  pub node_token : Bytes
  pub sync_interval : ℤ
  pub log_level : Bytes

-- What is told to viper: where the file is, the defaults, and that the environment counts.
pub data Setting : Type 0 where
  text : Bytes → Setting
  number : ℤ → Setting

pub data Source : Type 0 where
  config_file : Bytes → Source
  config_name : Bytes → Bytes → Bytes → Source

pub record Viper : Type 0 where
  pub source : Source
  pub defaults : Dict Bytes Setting
  pub automatic_env : Bool

-- What ReadInConfig returns: no error, ConfigFileNotFoundError or another error.
pub data ReadResult : Type 0 where
  read_ok file_not_found read_error : ReadResult

-- What the program takes from viper and logrus, on the machine that it runs on.
pub record Host : Type 1 where
  pub read_in_config : Viper → ReadResult
  pub unmarshal : Viper → ReadResult → Option LocalConfig
  pub Level : Type 0
  pub parse_level : Bytes → Option Level

unfoldable viper_for : Bytes → Viper
viper_for path = record {
  source =
      if bytes_eq path []
      then config_name (codes "config") (codes "yml") (codes ".")
      else config_file path;
  defaults =
      put
        (put
          (put
            (put (put [] (codes "admin_api") (text (codes "http://localhost:8081")))
              (codes "node_id") (text []))
            (codes "node_token") (text (codes "default_token")))
          (codes "sync_interval") (number (pos 60)))
        (codes "log_level") (text (codes "info"));
  automatic_env = true;
}

-- LoadLocalConfig; `none` is an error
unfoldable pub load_local_config : Host → Bytes → Option LocalConfig
unfolding viper_for
load_local_config h path =
    let v = viper_for path in
    let result = h.read_in_config v in
    elim result [
      | read_ok ↦ h.unmarshal v read_ok
      | file_not_found ↦ h.unmarshal v file_not_found
      | read_error ↦ none
    ]

-- xray-core's Severity, from the coarsest on
pub data Severity : Type 0 where
  severity_unknown severity_error severity_warning severity_info severity_debug : Severity

-- parseXrayLogLevel: the severity, and whether there is no error
unfoldable parse_xray_log_level : Bytes → Severity × Bool
unfolding trim_left trim_right to_lower
parse_xray_log_level s =
    let level = to_lower (trim_right (trim_left s)) in
    if bytes_eq level (codes "trace") || bytes_eq level (codes "debug")
    then (severity_debug, true)
    else if bytes_eq level (codes "info")
    then (severity_info, true)
    else if bytes_eq level (codes "warn") || bytes_eq level (codes "warning")
    then (severity_warning, true)
    else if bytes_eq level (codes "error")
        || bytes_eq level (codes "fatal")
        || bytes_eq level (codes "panic")
    then (severity_error, true)
    else if bytes_eq level (codes "none")
    then (severity_unknown, true)
    else (severity_warning, false)

-- InitLogger: the severity filter in force then, and whether there is no error
unfoldable init_logger : Bytes → Option Severity → Option Severity × Bool
unfolding parse_xray_log_level
init_logger level old =
    let (severity, valid) = parse_xray_log_level level in
    if valid then (some severity, true) else (old, false)

-- The two loggers: logrus with its level, and xray-core's, which filters nothing until it is set.
pub record Logging (Level : Type 0) : Type 0 where
  pub level : Level
  pub severity : Option Severity

module _ (h : Host) where
  unfoldable set_level : Bytes → h.Level → h.Level
  set_level s old =
      if bytes_eq s [] then old else elim (h.parse_level s) [ none ↦ old | some l ↦ l ]

  -- The levels that run sets up.
  unfoldable pub setup_logging : LocalConfig → Logging h.Level → Logging h.Level
  unfolding set_level init_logger
  setup_logging cfg log =
      let (severity, valid) = init_logger cfg.log_level log.severity in
      record {
        level = set_level cfg.log_level log.level;
        severity = if valid then severity else (init_logger (codes "warning") severity).0;
      }

-- strings.TrimRight(s, "/")
unfoldable trim_slashes : Bytes → Bytes
trim_slashes [] = []
trim_slashes (c ∷ s) =
    let rest = trim_slashes s in
    if bytes_eq rest [] then (if c == b'/' then [] else c ∷ []) else c ∷ rest

unfoldable pub base_url : LocalConfig → Bytes
unfolding trim_slashes
base_url cfg = trim_slashes cfg.admin_api ++ codes "/api/v1/server"

-- `time.Duration(n) * time.Second`, in nanoseconds
unfoldable pub seconds : ℤ → ℤ
seconds (pos n) = wrap64 (pos (n * 1000000000))
seconds (negsuc n) = wrap64 (negsuc ((n + 1) * 1000000000 - 1))

-- How run goes on: the process exits, NewTicker panics, or the loop over the ticks begins.
pub data Started (e : Externals) (Level : Type 0) : Type 0 where
  exit_1 : Started e Level
  ticker_panic : Logging Level → Node (Server e) → Started e Level
  ticking : Logging Level → Node (Server e) → Started e Level

-- The node before its first sync.
unfoldable pub fresh_node : (e : Externals) → LocalConfig → Node (Server e)
unfolding base_url set_node_id
fresh_node e cfg = record {
  client = new_client (base_url cfg) cfg.node_id cfg.node_token;
  server = set_node_id cfg.node_id (new_server e);
  pending = [];
}

-- run up to its loop: the path of the option `config`, the loggers, and the first answers
unfoldable pub run :
    (e : Externals) (h : Host) → Bytes → Logging h.Level → Answers e.Settings → Started e h.Level
run e h path log first = elim (load_local_config h path) [
  | none ↦ exit_1
  | some cfg ↦
      let log' = setup_logging h cfg log in
      let n = (sync (vless_inbound e) alone first (fresh_node e cfg)).0 in
      if leb_ℤ (seconds cfg.sync_interval) (pos 0) then ticker_panic log' n else ticking log' n
]
