-- ===== src/Tests/Ratelimit.antt =====
-- Waits of transfers.
use vgate_server.Base.{All}
use vgate_server.Base.Int.{pos}
use vgate_server.Vless.Server.{Server}
use vgate_server.Vless.Ratelimit.{new_rate_bucket, apply_limits}
use vgate_server.Vless.Ratelimit.Waits.{FitsBurst, apply_limits-FitsBurst}
use vgate_server.Tests.Fixture.{ext, alice_uuid, served}

abbrev limited : Server ext
limited = record served { global_u_limiter = new_rate_bucket ext (pos 1000) }

apply_limits-FitsBurst_example :
    All (FitsBurst ext) (apply_limits alice_uuid (pos 4096) (pos 0) limited)
apply_limits-FitsBurst_example =
    apply_limits-FitsBurst {e = ext} alice_uuid (pos 4096) (pos 0) limited
