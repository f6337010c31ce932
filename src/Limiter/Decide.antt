-- ===== src/Limiter/Decide.antt =====
-- The decisions that the limiter makes up itself.
use valve.Common.{true, if◌then◌else◌}
use valve.Api.{
  Limits, Decision, zero_decision, LimitType, FailMode, fail_open, fail_closed, Duration, split,
}
use valve.Bucket.{second}
use valve.Store.{BorrowResult}

-- `denyDecision`
unfoldable pub deny_decision : Limits → LimitType → Duration → Decision
deny_decision limits lt retry =
    let d : Decision = record zero_decision {
      limit_type = lt;
      retry_after = retry;
      limit_rpm = limits.requests_per_minute;
    } in
    if split limits
    then record d {
      limit_itpm = limits.input_tokens_per_minute;
      limit_otpm = limits.output_tokens_per_minute;
      limit_tpm = limits.output_tokens_per_minute;
    }
    else record d { limit_tpm = limits.tokens_per_minute }

-- `borrowDenyDecision`
unfoldable pub borrow_deny_decision : Limits → BorrowResult → Decision
borrow_deny_decision limits br =
    let d : Decision = record zero_decision {
      limit_type = br.limit_type;
      remaining_rpm = br.remaining_rpm;
      remaining_tpm = br.remaining_tpm;
      remaining_itpm = br.remaining_itpm;
      remaining_otpm = br.remaining_otpm;
      limit_rpm = limits.requests_per_minute;
      retry_after = br.retry_after;
    } in
    if split limits
    then record d {
      limit_itpm = limits.input_tokens_per_minute;
      limit_otpm = limits.output_tokens_per_minute;
      limit_tpm = limits.output_tokens_per_minute;
      remaining_tpm = br.remaining_otpm;
    }
    else record d { limit_tpm = limits.tokens_per_minute }

-- The decision of `onStoreErr` in the open mode.
unfoldable pub open_decision : Limits → Decision
open_decision limits =
    let d : Decision = record zero_decision {
      allowed = true;
      remaining_rpm = limits.requests_per_minute;
      limit_rpm = limits.requests_per_minute;
    } in
    if split limits
    then record d {
      remaining_itpm = limits.input_tokens_per_minute;
      remaining_otpm = limits.output_tokens_per_minute;
      remaining_tpm = limits.output_tokens_per_minute;
      limit_itpm = limits.input_tokens_per_minute;
      limit_otpm = limits.output_tokens_per_minute;
      limit_tpm = limits.output_tokens_per_minute;
    }
    else record d { remaining_tpm = limits.tokens_per_minute; limit_tpm = limits.tokens_per_minute }

-- `onStoreErr`, which drops the error.
unfoldable pub on_store_err : FailMode → Limits → Decision
on_store_err fail_open limits = open_decision limits
on_store_err fail_closed limits = deny_decision limits LimitType.backend second
