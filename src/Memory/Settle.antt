-- ===== src/Memory/Settle.antt =====
-- `Settle`, `SettleIO` and `Refund` of the memory store.
use valve.Common.{ℕ, ◌+◌, ℤ, pos, ◌-ℤ◌, ltb_ℤ, true, not, if◌then◌else◌, Bytes, none, some, insert}
use valve.Api.{Key, Decision, zero_decision, ok, err, Error}
use valve.Bucket
use valve.Bucket.{remaining_int, reset_at, clamp_cost, credit, debit_floor}
use valve.Store.{reservation_ttl}
use valve.Memory.State.{
  Store, Reservation, Status, Outcome, unix_milli, bucket_key, purge_expired, load_bucket,
  save_bucket,
}

-- `settleAxis`, and the same `switch` in the body of `Settle`: the bucket and the overshoot. Neither
-- amount is negative, so that neither difference leaves the range of an `int64`.
unfoldable pub settle_axis : Bucket.State → ℕ → ℤ → ℤ → Bucket.State × ℤ
settle_axis st now_ms reserved actual =
    let delta = reserved -ℤ actual in
    if ltb_ℤ (pos 0) delta
    then (credit st now_ms delta, pos 0)
    else if ltb_ℤ delta (pos 0)
    then (let (st', debited, overshoot) = debit_floor st now_ms (pos 0 -ℤ delta) in
        (st', overshoot))
    else (st, pos 0)

abbrev pub key_of : Reservation → Key
key_of r = record { subject = r.subject; model = r.model }

-- The reservation as `Settle` and `SettleIO` write it back.
abbrev pub settled_with : Reservation → ℕ → Decision → Reservation
settled_with r now dec = record r {
  status = Status.settled;
  last_decision = dec;
  expires_at = now + reservation_ttl;
}

-- `Settle` on a pending classic reservation.
unfoldable pub settle_pending : Store → ℕ → Bytes → ℤ → Reservation → Outcome Decision
settle_pending s now reservation_id actual_tokens r =
    let now_ms = unix_milli now in
    let bk = bucket_key (key_of r) in
    let tpm = load_bucket s.tpm bk r.limit_tpm now_ms in
    let rpm = load_bucket s.rpm bk r.limit_rpm now_ms in
    let (tpm', overshoot) = settle_axis tpm now_ms r.tpm_reserved (clamp_cost actual_tokens) in
    let dec : Decision = record zero_decision {
      allowed = true;
      remaining_rpm = remaining_int rpm.tokens;
      remaining_tpm = remaining_int tpm'.tokens;
      limit_rpm = r.limit_rpm;
      limit_tpm = r.limit_tpm;
      reset_rpm = reset_at rpm now_ms;
      reset_tpm = reset_at tpm' now_ms;
      reservation_id = reservation_id;
      overshoot_tpm = overshoot;
    } in
    (
      record s {
        tpm = save_bucket s.tpm bk tpm';
        res = insert reservation_id (settled_with r now dec) s.res;
      },
      ok dec,
    )

-- `Settle` once the reservation is found: its mode and its status decide.
unfoldable pub settle_found : Store → ℕ → Bytes → ℤ → Reservation → Outcome Decision
settle_found s now reservation_id actual_tokens r =
    if r.is_split then (s, err Error.wrong_settle_mode) else elim r.status [
      | Status.settled ↦ (s, ok r.last_decision)
      | Status.refunded ↦ (s, err Error.reservation_refunded)
      | Status.pending ↦ settle_pending s now reservation_id actual_tokens r
    ]

-- `Settle`
unfoldable pub settle : Store → ℕ → Bytes → ℤ → Outcome Decision
settle s now reservation_id actual_tokens =
    let s' = purge_expired s now in
    elim (s'.res reservation_id) [
      | none ↦ (s', err Error.reservation_not_found)
      | some r ↦ settle_found s' now reservation_id actual_tokens r
    ]

-- `SettleIO` on a pending split reservation.
unfoldable pub settle_io_pending : Store → ℕ → Bytes → ℤ → ℤ → Reservation → Outcome Decision
settle_io_pending s now reservation_id actual_input actual_output r =
    let now_ms = unix_milli now in
    let bk = bucket_key (key_of r) in
    let rpm = load_bucket s.rpm bk r.limit_rpm now_ms in
    let itpm = load_bucket s.itpm bk r.limit_itpm now_ms in
    let otpm = load_bucket s.otpm bk r.limit_otpm now_ms in
    let (itpm', over_in) = settle_axis itpm now_ms r.itpm_reserved (clamp_cost actual_input) in
    let (otpm', over_out) = settle_axis otpm now_ms r.otpm_reserved (clamp_cost actual_output) in
    let dec : Decision = record zero_decision {
      allowed = true;
      remaining_rpm = remaining_int rpm.tokens;
      remaining_itpm = remaining_int itpm'.tokens;
      remaining_otpm = remaining_int otpm'.tokens;
      remaining_tpm = remaining_int otpm'.tokens;
      limit_rpm = r.limit_rpm;
      limit_itpm = r.limit_itpm;
      limit_otpm = r.limit_otpm;
      limit_tpm = r.limit_otpm;
      reset_rpm = reset_at rpm now_ms;
      reset_itpm = reset_at itpm' now_ms;
      reset_otpm = reset_at otpm' now_ms;
      reset_tpm = reset_at otpm' now_ms;
      reservation_id = reservation_id;
      overshoot_itpm = over_in;
      overshoot_otpm = over_out;
    } in
    (
      record s {
        itpm = save_bucket s.itpm bk itpm';
        otpm = save_bucket s.otpm bk otpm';
        res = insert reservation_id (settled_with r now dec) s.res;
      },
      ok dec,
    )

-- `SettleIO` once the reservation is found.
unfoldable pub settle_io_found : Store → ℕ → Bytes → ℤ → ℤ → Reservation → Outcome Decision
settle_io_found s now reservation_id actual_input actual_output r =
    if not r.is_split then (s, err Error.wrong_settle_mode) else elim r.status [
      | Status.settled ↦ (s, ok r.last_decision)
      | Status.refunded ↦ (s, err Error.reservation_refunded)
      | Status.pending ↦ settle_io_pending s now reservation_id actual_input actual_output r
    ]

-- `SettleIO`
unfoldable pub settle_io : Store → ℕ → Bytes → ℤ → ℤ → Outcome Decision
settle_io s now reservation_id actual_input actual_output =
    let s' = purge_expired s now in
    elim (s'.res reservation_id) [
      | none ↦ (s', err Error.reservation_not_found)
      | some r ↦ settle_io_found s' now reservation_id actual_input actual_output r
    ]
