-- ===== src/Memory/Check.antt =====
-- `Check` of the memory store.
use valve.Common.{ℕ, ◌+◌, pos, true, false, not, if◌then◌else◌, Bytes, insert}
use valve.Api.{
  Key, Limits, Cost, Decision, zero_decision, LimitType, ok, err, Error, split, is_partial,
}
use valve.Bucket.{try_consume, remaining_int, reset_at, clamp_cost}
use valve.Store.{reservation_ttl}
use valve.Memory.State.{
  Store, Status, Outcome, unix_milli, is_empty, bucket_key, purge_expired, load_bucket, save_bucket,
}

-- `checkClassicLocked`
unfoldable pub check_classic_locked : Store → Key → Limits → Cost → Bytes → ℕ → ℕ → Outcome Decision
check_classic_locked s key limits cost reservation_id now now_ms =
    let bk = bucket_key key in
    let rpm = load_bucket s.rpm bk limits.requests_per_minute now_ms in
    let tpm = load_bucket s.tpm bk limits.tokens_per_minute now_ms in
    let dec : Decision = record zero_decision {
      limit_rpm = limits.requests_per_minute;
      limit_tpm = limits.tokens_per_minute;
    } in
    let (rpm2, rpm_res) = try_consume rpm now_ms cost.requests in
    let (tpm2, tpm_res) = try_consume tpm now_ms cost.tokens in
    if not rpm_res.allowed
    then (
      s,
      ok (record dec {
        limit_type = LimitType.requests;
        remaining_rpm = rpm_res.remaining;
        remaining_tpm = remaining_int tpm.tokens;
        reset_rpm = rpm_res.reset_at;
        reset_tpm = reset_at tpm now_ms;
        retry_after = rpm_res.retry_after;
      }),
    )
    else if not tpm_res.allowed
    then (
      s,
      ok (record dec {
        limit_type = LimitType.tokens;
        remaining_rpm = remaining_int rpm.tokens;
        remaining_tpm = tpm_res.remaining;
        reset_rpm = reset_at rpm now_ms;
        reset_tpm = tpm_res.reset_at;
        retry_after = tpm_res.retry_after;
      }),
    )
    else (
      record s {
        rpm = save_bucket s.rpm bk rpm2;
        tpm = save_bucket s.tpm bk tpm2;
        res =
            insert reservation_id
              (record {
                subject = key.subject;
                model = key.model;
                is_split = false;
                rpm_cost = cost.requests;
                tpm_reserved = cost.tokens;
                itpm_reserved = pos 0;
                otpm_reserved = pos 0;
                limit_rpm = limits.requests_per_minute;
                limit_tpm = limits.tokens_per_minute;
                limit_itpm = pos 0;
                limit_otpm = pos 0;
                status = Status.pending;
                created_ms = now_ms;
                expires_at = now + reservation_ttl;
                last_decision = zero_decision;
              })
              s.res;
      },
      ok (record dec {
        allowed = true;
        remaining_rpm = rpm_res.remaining;
        remaining_tpm = tpm_res.remaining;
        reset_rpm = rpm_res.reset_at;
        reset_tpm = tpm_res.reset_at;
        reservation_id = reservation_id;
      }),
    )

-- `checkSplitLocked`
unfoldable pub check_split_locked : Store → Key → Limits → Cost → Bytes → ℕ → ℕ → Outcome Decision
check_split_locked s key limits cost reservation_id now now_ms =
    let bk = bucket_key key in
    let rpm = load_bucket s.rpm bk limits.requests_per_minute now_ms in
    let itpm = load_bucket s.itpm bk limits.input_tokens_per_minute now_ms in
    let otpm = load_bucket s.otpm bk limits.output_tokens_per_minute now_ms in
    let dec : Decision = record zero_decision {
      limit_rpm = limits.requests_per_minute;
      limit_itpm = limits.input_tokens_per_minute;
      limit_otpm = limits.output_tokens_per_minute;
      limit_tpm = limits.output_tokens_per_minute;
    } in
    let (rpm2, rpm_res) = try_consume rpm now_ms cost.requests in
    let (itpm2, itpm_res) = try_consume itpm now_ms cost.input_tokens in
    let (otpm2, otpm_res) = try_consume otpm now_ms cost.output_tokens in
    if not rpm_res.allowed
    then (
      s,
      ok (record dec {
        limit_type = LimitType.requests;
        remaining_rpm = rpm_res.remaining;
        remaining_itpm = remaining_int itpm.tokens;
        remaining_otpm = remaining_int otpm.tokens;
        remaining_tpm = remaining_int otpm.tokens;
        reset_rpm = rpm_res.reset_at;
        reset_itpm = reset_at itpm now_ms;
        reset_otpm = reset_at otpm now_ms;
        reset_tpm = reset_at otpm now_ms;
        retry_after = rpm_res.retry_after;
      }),
    )
    else if not itpm_res.allowed
    then (
      s,
      ok (record dec {
        limit_type = LimitType.input_tokens;
        remaining_rpm = remaining_int rpm.tokens;
        remaining_itpm = itpm_res.remaining;
        remaining_otpm = remaining_int otpm.tokens;
        remaining_tpm = remaining_int otpm.tokens;
        reset_rpm = reset_at rpm now_ms;
        reset_itpm = itpm_res.reset_at;
        reset_otpm = reset_at otpm now_ms;
        reset_tpm = reset_at otpm now_ms;
        retry_after = itpm_res.retry_after;
      }),
    )
    else if not otpm_res.allowed
    then (
      s,
      ok (record dec {
        limit_type = LimitType.output_tokens;
        remaining_rpm = remaining_int rpm.tokens;
        remaining_itpm = remaining_int itpm.tokens;
        remaining_otpm = otpm_res.remaining;
        remaining_tpm = otpm_res.remaining;
        reset_rpm = reset_at rpm now_ms;
        reset_itpm = reset_at itpm now_ms;
        reset_otpm = otpm_res.reset_at;
        reset_tpm = otpm_res.reset_at;
        retry_after = otpm_res.retry_after;
      }),
    )
    else (
      record s {
        rpm = save_bucket s.rpm bk rpm2;
        itpm = save_bucket s.itpm bk itpm2;
        otpm = save_bucket s.otpm bk otpm2;
        res =
            insert reservation_id
              (record {
                subject = key.subject;
                model = key.model;
                is_split = true;
                rpm_cost = cost.requests;
                tpm_reserved = pos 0;
                itpm_reserved = cost.input_tokens;
                otpm_reserved = cost.output_tokens;
                limit_rpm = limits.requests_per_minute;
                limit_tpm = pos 0;
                limit_itpm = limits.input_tokens_per_minute;
                limit_otpm = limits.output_tokens_per_minute;
                status = Status.pending;
                created_ms = now_ms;
                expires_at = now + reservation_ttl;
                last_decision = zero_decision;
              })
              s.res;
      },
      ok (record dec {
        allowed = true;
        remaining_rpm = rpm_res.remaining;
        remaining_itpm = itpm_res.remaining;
        remaining_otpm = otpm_res.remaining;
        remaining_tpm = otpm_res.remaining;
        reset_rpm = rpm_res.reset_at;
        reset_itpm = itpm_res.reset_at;
        reset_otpm = otpm_res.reset_at;
        reset_tpm = otpm_res.reset_at;
        reservation_id = reservation_id;
      }),
    )

abbrev pub clamp_all : Cost → Cost
clamp_all cost = record {
  requests = clamp_cost cost.requests;
  tokens = clamp_cost cost.tokens;
  input_tokens = clamp_cost cost.input_tokens;
  output_tokens = clamp_cost cost.output_tokens;
}

-- `Check`
unfoldable pub check : Store → ℕ → Key → Limits → Cost → Bytes → Outcome Decision
check s now key limits cost reservation_id =
    if is_partial limits
    then (s, err Error.partial_split)
    else let now_ms = unix_milli now in
      let s = purge_expired s now in
      if is_empty key.subject
      then (s, err Error.subject_required)
      else if is_empty reservation_id
      then (s, err Error.reservation_id_required)
      else let cost = clamp_all cost in
        if split limits
        then check_split_locked s key limits cost reservation_id now now_ms
        else check_classic_locked s key limits cost reservation_id now now_ms
