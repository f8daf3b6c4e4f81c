-- ===== src/Vless/Traffic/Reset.antt =====
-- GetAndResetTraffic reports deltas: what it has reported is not reported again.
use vgate_server.Base.{◌≡◌, refl, inl, inr, [], ◌∷◌, some, arith, Option-cases}
use vgate_server.Base.Text.{Bytes, bytes_key, pair_key}
use vgate_server.Base.Dict.{Dict, update}
use vgate_server.Model.{User}
use vgate_server.Vless.Server.{Externals, Server, TrafficStat}
use vgate_server.Vless.Traffic.{reset_stat, report_stat, report, get_and_reset_traffic}

report_stat-reset_stat :
    (users : Dict Bytes User) (key : Bytes × Bytes) (stat w : TrafficStat)
    → reset_stat users key stat ≡ some w
    → report_stat users key w ≡ []
unfolding reset_stat report_stat
report_stat-reset_stat users key stat w h = ground arith

report-update :
    (users : Dict Bytes User) (m : Dict (Bytes × Bytes) TrafficStat)
    → report users (update (reset_stat users) m) ≡ []
unfolding report update
report-update users [] = refl
report-update users ((key, stat) ∷ m) = elim (Option-cases (reset_stat users key stat)) [
  | inl gone ↦ rw (gone, update) (report-update users m)
  | inr (w, kept) ↦
      rw (kept, update, report_stat-reset_stat users key stat w kept) (report-update users m)
]

-- A collection right after a collection reports nothing, whatever the counters held.
pub get_and_reset_twice :
    {e : Externals} (s : Server e) → (get_and_reset_traffic (get_and_reset_traffic s).0).1 ≡ []
unfolding get_and_reset_traffic
get_and_reset_twice s = report-update s.users s.user_traffic
