-- ===== src/Tests/Quota.antt =====
-- Quotas and traffic counters.
use vgate_server.Base.{◌≡◌, refl, [], ◌∷◌, some, arith}
use vgate_server.Base.Int.{pos, add64, sub64, wrap64, ◌+ℤ◌, ◌-ℤ◌}
use vgate_server.Base.Text.{Bytes-discrete, bytes_key}
use vgate_server.Base.Dict.{get, put, Distinct}
use vgate_server.Vless.Quota.{user_over_quota, apply_usage, accrue_quota_locked}
use vgate_server.Vless.Quota.Cut.{closed-add_traffic}
use vgate_server.Vless.Quota.Limits.{late_cut_closes_nothing, count_all}
use vgate_server.Vless.Quota.Snapshot.{Apart}
use vgate_server.Vless.Traffic.{add_traffic}
use vgate_server.Tests.Fixture.{alice, alice_uuid, served, usage_for_alice}

served-Distinct : Distinct served.users
unfolding get Bytes-discrete
served-Distinct = (refl, (refl, tt))

served-Apart : Apart served.users
served-Apart = ground arith

served-alice : get served.users alice_uuid ≡ some alice
unfolding get Bytes-discrete
served-alice = refl

-- The chunk that crosses the cap closes connection 7.
closed-add_traffic_example :
    (add_traffic alice_uuid []
      (pos 20)
      (pos 0)
      (apply_usage (usage_for_alice 100 90 ∷ []) served)).closed
    ≡ 7 ∷ []
unfolding add_traffic apply_usage user_over_quota accrue_quota_locked get put Bytes-discrete add64
    sub64 wrap64 ◌+ℤ◌ ◌-ℤ◌
closed-add_traffic_example =
    closed-add_traffic alice_uuid [] (pos 20) (pos 0)
      (apply_usage (usage_for_alice 100 90 ∷ []) served)

-- A snapshot over the cap leaves connection 7 open, and so does what is counted after it.
late_cut_closes_nothing_example :
    let t =
      count_all alice_uuid
        (record { node = []; up = 50; down = 0 } ∷ [])
        (apply_usage (usage_for_alice 100 500 ∷ []) served) in
    (t.closed ≡ []) × (t.user_conns ≡ served.user_conns)
unfolding apply_usage user_over_quota get put Bytes-discrete sub64 wrap64 ◌-ℤ◌
late_cut_closes_nothing_example =
    late_cut_closes_nothing alice_uuid (record { node = []; up = 50; down = 0 } ∷ [])
      (usage_for_alice 100 500 ∷ []) served refl
