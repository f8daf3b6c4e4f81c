-- ===== src/Vless/Traffic.antt =====
-- proxy/vless/traffic.go: the counters of each user on each entry point, and their reports.
pub mod Ledger
pub mod Conservation
pub mod Reset
use vgate_server.Base.{List, [], ◌∷◌, ◌++◌, Option, none, some, Bool, ◌||◌, if◌then◌else◌}
use vgate_server.Base.Int.{ℤ, pos, add64, ltb_ℤ}
use vgate_server.Base.Text.{Bytes, bytes_key, pair_key}
use vgate_server.Base.Dict.{Dict, get, put, update}
use vgate_server.Model.{User, UserTraffic}
use vgate_server.Vless.Server.{Externals, Server, TrafficStat}
use vgate_server.Vless.Quota.{accrue_quota_locked}

-- `user.Email` if the user is known, and "" otherwise
abbrev pub email_of : Option User → Bytes
email_of none = []
email_of (some u) = u.email

-- The counter that a key has, or a new one.
abbrev pub stat_or_new : Bytes → Option TrafficStat → TrafficStat
stat_or_new email none = record { email = email; up = pos 0; down = pos 0 }
stat_or_new email (some stat) = stat

-- The email that a report of this counter carries: the recorded one, or the user's if it is "".
abbrev pub report_email : Bytes → Bytes → Bytes
report_email [] found = found
report_email (c ∷ cs) found = c ∷ cs

-- `up > 0 || down > 0`
abbrev pub has_traffic : TrafficStat → Bool
has_traffic stat = ltb_ℤ (pos 0) stat.up || ltb_ℤ (pos 0) stat.down

-- The entry that one round of GetAndResetTraffic leaves: `none` deletes it.
unfoldable pub reset_stat : Dict Bytes User → Bytes × Bytes → TrafficStat → Option TrafficStat
reset_stat users key stat =
    if has_traffic stat
    then some (record {
      email = report_email stat.email (email_of (get users key.0));
      up = pos 0;
      down = pos 0;
    })
    else elim (get users key.0) [
      | none ↦ none
      | some _ ↦ some (record stat { up = pos 0; down = pos 0 })
    ]

-- What one round appends to the report.
unfoldable pub report_stat : Dict Bytes User → Bytes × Bytes → TrafficStat → List UserTraffic
report_stat users key stat = elim (report_email stat.email (email_of (get users key.0))) [
  | [] ↦ []
  | c ∷ cs ↦
      if has_traffic stat
      then record { email = c ∷ cs; node_id = key.1; up = stat.up; down = stat.down } ∷ []
      else []
]

unfoldable pub report : Dict Bytes User → Dict (Bytes × Bytes) TrafficStat → List UserTraffic
unfolding report_stat
report users [] = []
report users ((key, stat) ∷ m) = report_stat users key stat ++ report users m

module _ {e : Externals} where
  -- addTraffic
  unfoldable pub add_traffic : Bytes → Bytes → ℤ → ℤ → Server e → Server e
  add_traffic uuid node up down s =
      let stat = stat_or_new (email_of (get s.users uuid)) (get s.user_traffic (uuid, node)) in
      let counted = record stat { up = add64 stat.up up; down = add64 stat.down down } in
      let s' = record s { user_traffic = put s.user_traffic (uuid, node) counted } in
      let n = add64 up down in
      if ltb_ℤ (pos 0) n then accrue_quota_locked uuid stat.email n s' else s'

  -- nodeForShortID
  unfoldable pub node_for_short_id : Bytes → Server e → Bytes
  node_for_short_id sid s = elim (get s.sid_node sid) [ none ↦ [] | some node ↦ node ]

  -- GetAndResetTraffic: the server with its counters reset, and the report
  unfoldable pub get_and_reset_traffic : Server e → Server e × List UserTraffic
  unfolding reset_stat report
  get_and_reset_traffic s = (
    record s { user_traffic = update (reset_stat s.users) s.user_traffic },
    report s.users s.user_traffic,
  )
