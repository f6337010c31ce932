-- ===== src/Headers/Wait.antt =====
-- The waiting times of pkg/headers/headers.go, in seconds.
use valve.Common.{◌+◌, ◌*◌, ◌≤◌, ◌<◌, arith}
use valve.Bucket.{second}
use valve.Api.{Duration}
use valve.Headers.{seconds}

-- Rounding to seconds is off by half a second at most, where it does not reach the largest
-- `Duration`.
pub seconds_near :
    (d : Duration)
    → d < 9223372036500000000
    → (seconds d * second ≤ d + 500000000) × (d ≤ seconds d * second + 500000000)
unfolding seconds
seconds_near d h = ground arith
