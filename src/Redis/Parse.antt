-- ===== src/Redis/Parse.antt =====
-- What pkg/store/redis/redis.go makes of the replies of its scripts.
use valve.Common.{ℤ, pos, ltb, ◌==◌, Bool, if◌then◌else◌, Bytes, codes}
use valve.Api.{Limits, Decision, zero_decision, LimitType, limit_type_of, Result, ok, err, Error}
use valve.Store.{BorrowResult}
use valve.Memory.Borrow.{zero_borrow}
use valve.Redis.Server.{Reply, array, single}
use valve.Redis.Reply.{to_string, length, at, int_at, milliseconds, unix_milli}

abbrev pub is_one : ℤ → Bool
is_one (pos n) = n == 1
is_one _ = Bool.false

-- `if allowed { … }` at the end of `parseDecision` and `parseDecisionIO`.
unfoldable pub with_reservation : Decision → Bytes → Decision
with_reservation dec reservation_id =
    if dec.allowed
    then record dec { reservation_id = reservation_id; limit_type = LimitType.unlimited }
    else dec

-- `parseDecision`
unfoldable pub parse_decision : Reply → Limits → Bytes → Result Decision
unfolding with_reservation
parse_decision (single v) limits reservation_id = err (Error.unexpected_reply (codes "check"))
parse_decision (array arr) limits reservation_id =
    if ltb (length arr) 7
    then err (Error.unexpected_reply (codes "check"))
    else ok (
        with_reservation
          (record zero_decision {
            allowed = is_one (int_at arr 0);
            limit_type = limit_type_of (to_string (at arr 1));
            remaining_rpm = int_at arr 2;
            remaining_tpm = int_at arr 3;
            retry_after = milliseconds (int_at arr 4);
            reset_rpm = unix_milli (int_at arr 5);
            reset_tpm = unix_milli (int_at arr 6);
            limit_rpm = limits.requests_per_minute;
            limit_tpm = limits.tokens_per_minute;
          })
          reservation_id)

-- `parseDecisionIO`
unfoldable pub parse_decision_io : Reply → Limits → Bytes → Result Decision
unfolding with_reservation
parse_decision_io (single v) limits reservation_id = err (Error.unexpected_reply (codes "check_io"))
parse_decision_io (array arr) limits reservation_id =
    if ltb (length arr) 9
    then err (Error.unexpected_reply (codes "check_io"))
    else ok (
        with_reservation
          (record zero_decision {
            allowed = is_one (int_at arr 0);
            limit_type = limit_type_of (to_string (at arr 1));
            remaining_rpm = int_at arr 2;
            remaining_itpm = int_at arr 3;
            remaining_otpm = int_at arr 4;
            remaining_tpm = int_at arr 4;
            retry_after = milliseconds (int_at arr 5);
            reset_rpm = unix_milli (int_at arr 6);
            reset_itpm = unix_milli (int_at arr 7);
            reset_otpm = unix_milli (int_at arr 8);
            reset_tpm = unix_milli (int_at arr 8);
            limit_rpm = limits.requests_per_minute;
            limit_itpm = limits.input_tokens_per_minute;
            limit_otpm = limits.output_tokens_per_minute;
            limit_tpm = limits.output_tokens_per_minute;
          })
          reservation_id)

-- `parseSettle`
unfoldable pub parse_settle : Reply → Bytes → Result Decision
parse_settle (single v) reservation_id = err (Error.unexpected_reply (codes "settle"))
parse_settle (array arr) reservation_id =
    if ltb (length arr) 8
    then err (Error.unexpected_reply (codes "settle"))
    else let dec : Decision = record zero_decision {
      allowed = is_one (int_at arr 0);
      limit_type = limit_type_of (to_string (at arr 1));
      remaining_rpm = int_at arr 2;
      remaining_tpm = int_at arr 3;
      retry_after = milliseconds (int_at arr 4);
      reset_rpm = unix_milli (int_at arr 5);
      reset_tpm = unix_milli (int_at arr 6);
      overshoot_tpm = int_at arr 7;
      reservation_id = reservation_id;
    } in
      ok (
        if ltb (length arr) 10
        then dec
        else record dec { limit_rpm = int_at arr 8; limit_tpm = int_at arr 9 })

-- `parseSettleIO`
unfoldable pub parse_settle_io : Reply → Bytes → Result Decision
parse_settle_io (single v) reservation_id = err (Error.unexpected_reply (codes "settle_io"))
parse_settle_io (array arr) reservation_id =
    if ltb (length arr) 11
    then err (Error.unexpected_reply (codes "settle_io"))
    else let dec : Decision = record zero_decision {
      allowed = is_one (int_at arr 0);
      limit_type = limit_type_of (to_string (at arr 1));
      remaining_rpm = int_at arr 2;
      remaining_itpm = int_at arr 3;
      remaining_otpm = int_at arr 4;
      remaining_tpm = int_at arr 4;
      retry_after = milliseconds (int_at arr 5);
      reset_rpm = unix_milli (int_at arr 6);
      reset_itpm = unix_milli (int_at arr 7);
      reset_otpm = unix_milli (int_at arr 8);
      reset_tpm = unix_milli (int_at arr 8);
      overshoot_itpm = int_at arr 9;
      overshoot_otpm = int_at arr 10;
      reservation_id = reservation_id;
    } in
      ok (
        if ltb (length arr) 14 then dec else record dec {
          limit_rpm = int_at arr 11;
          limit_itpm = int_at arr 12;
          limit_otpm = int_at arr 13;
          limit_tpm = int_at arr 13;
        })

-- The reply to `borrow`, in `Borrow`.
unfoldable pub parse_borrow : Reply → Limits → Result BorrowResult
parse_borrow (single v) limits = err (Error.unexpected_reply (codes "borrow"))
parse_borrow (array arr) limits =
    if ltb (length arr) 7
    then err (Error.unexpected_reply (codes "borrow"))
    else ok (record zero_borrow {
      allowed = is_one (int_at arr 0);
      limit_type = limit_type_of (to_string (at arr 1));
      got_rpm = int_at arr 2;
      got_tpm = int_at arr 3;
      remaining_rpm = int_at arr 4;
      remaining_tpm = int_at arr 5;
      retry_after = milliseconds (int_at arr 6);
      limit_rpm = limits.requests_per_minute;
      limit_tpm = limits.tokens_per_minute;
    })

-- The reply to `borrow_io`, in `Borrow`.
unfoldable pub parse_borrow_io : Reply → Limits → Result BorrowResult
parse_borrow_io (single v) limits = err (Error.unexpected_reply (codes "borrow_io"))
parse_borrow_io (array arr) limits =
    if ltb (length arr) 9
    then err (Error.unexpected_reply (codes "borrow_io"))
    else ok (record zero_borrow {
      allowed = is_one (int_at arr 0);
      limit_type = limit_type_of (to_string (at arr 1));
      got_rpm = int_at arr 2;
      got_itpm = int_at arr 3;
      got_otpm = int_at arr 4;
      remaining_rpm = int_at arr 5;
      remaining_itpm = int_at arr 6;
      remaining_otpm = int_at arr 7;
      remaining_tpm = int_at arr 7;
      retry_after = milliseconds (int_at arr 8);
      limit_rpm = limits.requests_per_minute;
      limit_itpm = limits.input_tokens_per_minute;
      limit_otpm = limits.output_tokens_per_minute;
      limit_tpm = limits.output_tokens_per_minute;
    })
