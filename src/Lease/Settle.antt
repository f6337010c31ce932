-- ===== src/Lease/Settle.antt =====
-- Settling and refunding local reservations, in pkg/lease/lease.go.
use valve.Common.{
  ℕ, ◌+◌, ℤ, pos, ltb_ℤ, leb_ℤ, add64, sub64, Bool, true, false, ◌||◌, not, if◌then◌else◌, Bytes,
  insert, Option, none, some,
}
use valve.Api.{Key, Limits, Decision, zero_decision, Result, ok, err, Error, split}
use valve.Bucket.{clamp_cost}
use valve.Store.{Status, reservation_ttl}
use valve.Lease.DenyCache.{cache_key, clear}
use valve.Lease.Pool.{Pool, LocalBucket, Reservation, empty_bucket, purge_res, get_lease, lease_end}

-- `applyLocalDelta`, and the same `switch` in `SettleLocal`: the balance, the overshoot, and whether
-- credit came back.
unfoldable pub apply_local_delta : ℤ → ℤ → ℤ → ℤ × ℤ × Bool
apply_local_delta bal reserved actual =
    let delta = sub64 reserved actual in
    if ltb_ℤ (pos 0) delta
    then (add64 bal delta, pos 0, true)
    else if ltb_ℤ delta (pos 0)
    then (let need = sub64 (pos 0) delta in
        if leb_ℤ need bal then (sub64 bal need, pos 0, false) else (pos 0, sub64 need bal, false))
    else (bal, pos 0, false)

-- The lease that a settlement works on: the live one, or a new one for the reservation's limits.
unfoldable pub lease_or_new : Option LocalBucket → Limits → LocalBucket
lease_or_new none limits = record empty_bucket { limits = limits }
lease_or_new (some b) limits = b

abbrev pub settled_with : Reservation → ℕ → Decision → Reservation
settled_with r now dec = record r {
  status = Status.settled;
  last_decision = dec;
  expires_at = now + reservation_ttl;
}

-- `p.deny.Clear`, if credit came back.
abbrev pub clear_if : Bool → Pool → Key → Pool
clear_if restored p key = if restored then record p { deny = clear p.deny key } else p

-- `SettleLocal` on a pending classic reservation.
unfoldable pub settle_local_pending : Pool → Bytes → ℤ → Reservation → ℕ → Pool × Result Decision
settle_local_pending p id actual_tokens r now =
    let (p', found) = get_lease p r.key now in
    let b = lease_or_new found r.limits in
    let (tpm, overshoot, restored) =
      apply_local_delta b.tpm r.tpm_reserved (clamp_cost actual_tokens) in
    let dec : Decision = record zero_decision {
      allowed = true;
      remaining_rpm = b.rpm;
      remaining_tpm = tpm;
      limit_rpm = r.limits.requests_per_minute;
      limit_tpm = r.limits.tokens_per_minute;
      reservation_id = id;
      overshoot_tpm = overshoot;
    } in
    (
      clear_if restored
          (record p' {
            lease =
                insert (cache_key r.key) (record b { tpm = tpm; expires_at = lease_end p now })
                  p'.lease;
            res = insert id (settled_with r now dec) p'.res;
          })
          r.key,
      ok dec,
    )

-- `SettleLocal` once the reservation is found.
unfoldable pub settle_local_found : Pool → Bytes → ℤ → Reservation → ℕ → Pool × Result Decision
settle_local_found p id actual_tokens r now =
    if split r.limits then (p, err Error.wrong_settle_mode) else elim r.status [
      | Status.settled ↦ (p, ok r.last_decision)
      | Status.refunded ↦ (p, err Error.reservation_refunded)
      | Status.pending ↦ settle_local_pending p id actual_tokens r now
    ]

-- `SettleLocal`
unfoldable pub settle_local : Pool → Bytes → ℤ → ℕ → Pool × Result Decision
settle_local p id actual_tokens now =
    let p' = purge_res p now in
    elim (p'.res id) [
      | none ↦ (p', err Error.reservation_not_found)
      | some r ↦ settle_local_found p' id actual_tokens r now
    ]

-- `SettleLocalIO` on a pending split reservation.
unfoldable pub settle_local_io_pending :
    Pool → Bytes → ℤ → ℤ → Reservation → ℕ → Pool × Result Decision
settle_local_io_pending p id actual_input actual_output r now =
    let (p', found) = get_lease p r.key now in
    let b = lease_or_new found r.limits in
    let (itpm, over_in, rest_in) =
      apply_local_delta b.itpm r.itpm_reserved (clamp_cost actual_input) in
    let (otpm, over_out, rest_out) =
      apply_local_delta b.otpm r.otpm_reserved (clamp_cost actual_output) in
    let dec : Decision = record zero_decision {
      allowed = true;
      remaining_rpm = b.rpm;
      remaining_itpm = itpm;
      remaining_otpm = otpm;
      remaining_tpm = otpm;
      limit_rpm = r.limits.requests_per_minute;
      limit_itpm = r.limits.input_tokens_per_minute;
      limit_otpm = r.limits.output_tokens_per_minute;
      limit_tpm = r.limits.output_tokens_per_minute;
      reservation_id = id;
      overshoot_itpm = over_in;
      overshoot_otpm = over_out;
    } in
    (
      clear_if (rest_in || rest_out)
          (record p' {
            lease =
                insert (cache_key r.key)
                  (record b { itpm = itpm; otpm = otpm; expires_at = lease_end p now }) p'.lease;
            res = insert id (settled_with r now dec) p'.res;
          })
          r.key,
      ok dec,
    )

-- `SettleLocalIO` once the reservation is found.
unfoldable pub settle_local_io_found :
    Pool → Bytes → ℤ → ℤ → Reservation → ℕ → Pool × Result Decision
settle_local_io_found p id actual_input actual_output r now =
    if not (split r.limits) then (p, err Error.wrong_settle_mode) else elim r.status [
      | Status.settled ↦ (p, ok r.last_decision)
      | Status.refunded ↦ (p, err Error.reservation_refunded)
      | Status.pending ↦ settle_local_io_pending p id actual_input actual_output r now
    ]

-- `SettleLocalIO`
unfoldable pub settle_local_io : Pool → Bytes → ℤ → ℤ → ℕ → Pool × Result Decision
settle_local_io p id actual_input actual_output now =
    let p' = purge_res p now in
    elim (p'.res id) [
      | none ↦ (p', err Error.reservation_not_found)
      | some r ↦ settle_local_io_found p' id actual_input actual_output r now
    ]
