-- ===== src/Headers/Tests.antt =====
-- Runs of pkg/headers/headers.go.
use valve.Common.{ℕ, ◌≤◌, ◌+◌, ◌*◌, pos, arith, codes, some, ◌≡◌, refl}
use valve.Api.{Decision, zero_decision, LimitType}
use valve.Bucket.{second}
use valve.Headers.{
  limit_requests, remaining_requests, limit_tokens, remaining_tokens, retry_after, format_reset,
  write,
}
use valve.Headers.Shown.{Shows, write-Shows, write-Shows_retry}

-- A refusal with a wait of a second and a half.
abbrev refused : Decision
refused = record zero_decision {
  limit_type = LimitType.requests;
  limit_rpm = pos 60;
  remaining_rpm = pos 0;
  limit_tpm = pos 90000;
  remaining_tpm = pos 1234;
  reset_rpm = some 61000000000;
  retry_after = 1500000000;
}

abbrev clock : ℕ → ℕ
clock i = 1000000000

reset_shown : format_reset 61000000000 1000000000 ≡ codes "60s"
unfolding format_reset valve.Strconv.format_int valve.Headers.seconds
reset_shown = refl

write-Shows_example :
    Shows (write refused clock) limit_requests (pos 60)
    × Shows (write refused clock) remaining_requests (pos 0)
    × Shows (write refused clock) limit_tokens (pos 90000)
    × Shows (write refused clock) remaining_tokens (pos 1234)
write-Shows_example =
    write-Shows refused clock (omega arith) (omega arith) (omega arith) (omega arith)

write-Shows_retry_example :
    (n : ℕ) × Shows (write refused clock) retry_after (pos n)
    × (1 ≤ n)
    × (1500000000 ≤ n * second + 500000000)
    × (n * second ≤ 1500000000 + second)
write-Shows_retry_example = write-Shows_retry refused clock (omega arith) (omega arith)
