-- ===== src/Limiter/Remembered.antt =====
-- The deny cache on the fast path of pkg/limiter/limiter.go.
use valve.Common.{◌==◌, if◌then◌else◌}
use valve.Api.{Duration}
use valve.Bucket.{second}
use valve.Store.{BorrowResult}
use valve.Lease.Pool.{Pool}
use valve.Lease.DenyCache
use valve.Limiter.Backend.{Backend, Limiter}

-- How long a refused loan is remembered.
abbrev pub wait : BorrowResult → Duration
wait br = if br.retry_after == 0 then second else br.retry_after
