-- ===== src/Memory/Borrow.antt =====
-- `Borrow` and `Return` of the memory store, which lend to the leases of pkg/lease.
use valve.Common.{ℕ, ℤ, pos, ltb_ℤ, true, false, if◌then◌else◌}
use valve.Api.{Key, Limits, LimitType, ok, err, Error, split, is_partial}
use valve.Bucket.{try_consume, remaining_int, clamp_cost}
use valve.Store.{BorrowSpec, BorrowResult}
use valve.Memory.State.{Store, Outcome, unix_milli, is_empty, bucket_key, load_bucket, save_bucket}

-- `wantGot`
unfoldable pub want_got : ℤ → ℤ → ℤ → ℤ
want_got avail min chunk =
    let want = if ltb_ℤ min chunk then chunk else min in if ltb_ℤ avail want then avail else want

-- `store.BorrowResult{}`
abbrev pub zero_borrow : BorrowResult
zero_borrow = record {
  allowed = false;
  limit_type = LimitType.unlimited;
  got_rpm = pos 0;
  got_tpm = pos 0;
  got_itpm = pos 0;
  got_otpm = pos 0;
  remaining_rpm = pos 0;
  remaining_tpm = pos 0;
  remaining_itpm = pos 0;
  remaining_otpm = pos 0;
  retry_after = 0;
  limit_rpm = pos 0;
  limit_tpm = pos 0;
  limit_itpm = pos 0;
  limit_otpm = pos 0;
}

-- `borrowClassicLocked`
unfoldable pub borrow_classic_locked : Store → Key → Limits → BorrowSpec → ℕ → Outcome BorrowResult
borrow_classic_locked s key limits spec now_ms =
    let bk = bucket_key key in
    let rpm = load_bucket s.rpm bk limits.requests_per_minute now_ms in
    let tpm = load_bucket s.tpm bk limits.tokens_per_minute now_ms in
    let avail_rpm = remaining_int rpm.tokens in
    let avail_tpm = remaining_int tpm.tokens in
    let out : BorrowResult = record zero_borrow {
      limit_rpm = limits.requests_per_minute;
      limit_tpm = limits.tokens_per_minute;
      remaining_rpm = avail_rpm;
      remaining_tpm = avail_tpm;
    } in
    if ltb_ℤ avail_rpm spec.min_rpm
    then (
      s,
      ok (record out {
        limit_type = LimitType.requests;
        retry_after = (try_consume rpm now_ms spec.min_rpm).1.retry_after;
      }),
    )
    else if ltb_ℤ avail_tpm spec.min_tpm
    then (
      s,
      ok (record out {
        limit_type = LimitType.tokens;
        retry_after = (try_consume tpm now_ms spec.min_tpm).1.retry_after;
      }),
    )
    else let got_rpm = want_got avail_rpm spec.min_rpm spec.chunk_rpm in
      let got_tpm = want_got avail_tpm spec.min_tpm spec.chunk_tpm in
      let rpm2 = (try_consume rpm now_ms got_rpm).0 in
      let tpm2 = (try_consume tpm now_ms got_tpm).0 in
      (
        record s { rpm = save_bucket s.rpm bk rpm2; tpm = save_bucket s.tpm bk tpm2 },
        ok (record out {
          allowed = true;
          got_rpm = got_rpm;
          got_tpm = got_tpm;
          remaining_rpm = remaining_int rpm2.tokens;
          remaining_tpm = remaining_int tpm2.tokens;
        }),
      )

-- `borrowSplitLocked`
unfoldable pub borrow_split_locked : Store → Key → Limits → BorrowSpec → ℕ → Outcome BorrowResult
borrow_split_locked s key limits spec now_ms =
    let bk = bucket_key key in
    let rpm = load_bucket s.rpm bk limits.requests_per_minute now_ms in
    let itpm = load_bucket s.itpm bk limits.input_tokens_per_minute now_ms in
    let otpm = load_bucket s.otpm bk limits.output_tokens_per_minute now_ms in
    let avail_rpm = remaining_int rpm.tokens in
    let avail_itpm = remaining_int itpm.tokens in
    let avail_otpm = remaining_int otpm.tokens in
    let out : BorrowResult = record zero_borrow {
      limit_rpm = limits.requests_per_minute;
      limit_itpm = limits.input_tokens_per_minute;
      limit_otpm = limits.output_tokens_per_minute;
      limit_tpm = limits.output_tokens_per_minute;
      remaining_rpm = avail_rpm;
      remaining_itpm = avail_itpm;
      remaining_otpm = avail_otpm;
      remaining_tpm = avail_otpm;
    } in
    if ltb_ℤ avail_rpm spec.min_rpm
    then (
      s,
      ok (record out {
        limit_type = LimitType.requests;
        retry_after = (try_consume rpm now_ms spec.min_rpm).1.retry_after;
      }),
    )
    else if ltb_ℤ avail_itpm spec.min_itpm
    then (
      s,
      ok (record out {
        limit_type = LimitType.input_tokens;
        retry_after = (try_consume itpm now_ms spec.min_itpm).1.retry_after;
      }),
    )
    else if ltb_ℤ avail_otpm spec.min_otpm
    then (
      s,
      ok (record out {
        limit_type = LimitType.output_tokens;
        retry_after = (try_consume otpm now_ms spec.min_otpm).1.retry_after;
      }),
    )
    else let got_rpm = want_got avail_rpm spec.min_rpm spec.chunk_rpm in
      let got_itpm = want_got avail_itpm spec.min_itpm spec.chunk_itpm in
      let got_otpm = want_got avail_otpm spec.min_otpm spec.chunk_otpm in
      let rpm2 = (try_consume rpm now_ms got_rpm).0 in
      let itpm2 = (try_consume itpm now_ms got_itpm).0 in
      let otpm2 = (try_consume otpm now_ms got_otpm).0 in
      (
        record s {
          rpm = save_bucket s.rpm bk rpm2;
          itpm = save_bucket s.itpm bk itpm2;
          otpm = save_bucket s.otpm bk otpm2;
        },
        ok (record out {
          allowed = true;
          got_rpm = got_rpm;
          got_itpm = got_itpm;
          got_otpm = got_otpm;
          remaining_rpm = remaining_int rpm2.tokens;
          remaining_itpm = remaining_int itpm2.tokens;
          remaining_otpm = remaining_int otpm2.tokens;
          remaining_tpm = remaining_int otpm2.tokens;
        }),
      )

abbrev pub clamp_spec : BorrowSpec → BorrowSpec
clamp_spec spec = record {
  min_rpm = clamp_cost spec.min_rpm;
  min_tpm = clamp_cost spec.min_tpm;
  min_itpm = clamp_cost spec.min_itpm;
  min_otpm = clamp_cost spec.min_otpm;
  chunk_rpm = clamp_cost spec.chunk_rpm;
  chunk_tpm = clamp_cost spec.chunk_tpm;
  chunk_itpm = clamp_cost spec.chunk_itpm;
  chunk_otpm = clamp_cost spec.chunk_otpm;
}

-- `Borrow`. It does not purge the reservations.
unfoldable pub borrow : Store → ℕ → Key → Limits → BorrowSpec → Outcome BorrowResult
borrow s now key limits spec =
    if is_partial limits
    then (s, err Error.partial_split)
    else if is_empty key.subject
    then (s, err Error.subject_required)
    else if split limits
    then borrow_split_locked s key limits (clamp_spec spec) (unix_milli now)
    else borrow_classic_locked s key limits (clamp_spec spec) (unix_milli now)
