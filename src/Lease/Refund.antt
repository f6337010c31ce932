-- ===== src/Lease/Refund.antt =====
-- Refunds, and the deficits that are made good by a later loan, in pkg/lease/lease.go.
use valve.Common.{
  ℕ, ◌+◌, ℤ, pos, ltb_ℤ, leb_ℤ, add64, sub64, if◌then◌else◌, Bytes, insert, none, some,
}
use valve.Api.{Decision, Result, ok, err, Error, split}
use valve.Store.{Status, reservation_ttl}
use valve.Lease.DenyCache.{cache_key, clear}
use valve.Lease.Pool.{Pool, LocalBucket, Reservation, purge_res, get_lease, lease_end}
use valve.Lease.Settle.{lease_or_new}

-- The lease with the credits of a reservation back.
unfoldable pub restored : LocalBucket → Reservation → ℕ → LocalBucket
restored b r until =
    if split r.limits
    then record b {
      rpm = add64 b.rpm r.rpm_cost;
      itpm = add64 b.itpm r.itpm_reserved;
      otpm = add64 b.otpm r.otpm_reserved;
      expires_at = until;
    }
    else record b {
      rpm = add64 b.rpm r.rpm_cost;
      tpm = add64 b.tpm r.tpm_reserved;
      expires_at = until;
    }

-- `RefundLocal` on a pending reservation.
unfoldable pub refund_local_pending : Pool → Bytes → Reservation → ℕ → Pool × Result (Unit {0})
refund_local_pending p id r now =
    let (p', found) = get_lease p r.key now in
    let b = restored (lease_or_new found r.limits) r (lease_end p now) in
    (
      record p' {
        lease = insert (cache_key r.key) b p'.lease;
        res =
            insert id (record r { status = Status.refunded; expires_at = now + reservation_ttl })
              p'.res;
        deny = clear p'.deny r.key;
      },
      ok tt,
    )

-- `RefundLocal` once the reservation is found.
unfoldable pub refund_local_found : Pool → Bytes → Reservation → ℕ → Pool × Result (Unit {0})
refund_local_found p id r now = elim r.status [
  | Status.refunded ↦ (p, ok tt)
  | Status.settled ↦ (p, err Error.reservation_settled)
  | Status.pending ↦ refund_local_pending p id r now
]

-- `RefundLocal`
unfoldable pub refund_local : Pool → Bytes → ℕ → Pool × Result (Unit {0})
refund_local p id now =
    let p' = purge_res p now in
    elim (p'.res id) [
      | none ↦ (p', err Error.reservation_not_found)
      | some r ↦ refund_local_found p' id r now
    ]

-- Paying an overshoot from a balance: the balance and what is still owed.
unfoldable pub pay_overshoot : ℤ → ℤ → ℤ × ℤ
pay_overshoot bal over =
    if ltb_ℤ (pos 0) over
    then (if leb_ℤ over bal then (sub64 bal over, pos 0) else (pos 0, sub64 over bal))
    else (bal, over)

-- `ApplyBorrowedDeficit` on a reservation whose lease is live.
unfoldable pub apply_deficit : Pool → Bytes → Reservation → LocalBucket → ℤ → Pool
apply_deficit p id r b got_tpm =
    let (tpm, over) = pay_overshoot (add64 b.tpm got_tpm) r.last_decision.overshoot_tpm in
    let dec : Decision = record r.last_decision {
      overshoot_tpm = over;
      remaining_tpm = tpm;
      remaining_rpm = b.rpm;
    } in
    record p {
      lease = insert (cache_key r.key) (record b { tpm = tpm }) p.lease;
      res = insert id (record r { last_decision = dec }) p.res;
    }

-- `ApplyBorrowedDeficit`. It does not purge the reservations.
unfoldable pub apply_borrowed_deficit : Pool → Bytes → ℤ → ℕ → Pool
apply_borrowed_deficit p id got_tpm now = elim (p.res id) [
  | none ↦ p
  | some r ↦
      let (p', found) = get_lease p r.key now in
      elim found [ none ↦ p' | some b ↦ apply_deficit p' id r b got_tpm ]
]

-- `ApplyBorrowedDeficitIO` on a reservation whose lease is live.
unfoldable pub apply_deficit_io : Pool → Bytes → Reservation → LocalBucket → ℤ → ℤ → Pool
apply_deficit_io p id r b got_itpm got_otpm =
    let (itpm, over_in) = pay_overshoot (add64 b.itpm got_itpm) r.last_decision.overshoot_itpm in
    let (otpm, over_out) = pay_overshoot (add64 b.otpm got_otpm) r.last_decision.overshoot_otpm in
    let dec : Decision = record r.last_decision {
      overshoot_itpm = over_in;
      overshoot_otpm = over_out;
      remaining_itpm = itpm;
      remaining_otpm = otpm;
      remaining_tpm = otpm;
      remaining_rpm = b.rpm;
    } in
    record p {
      lease = insert (cache_key r.key) (record b { itpm = itpm; otpm = otpm }) p.lease;
      res = insert id (record r { last_decision = dec }) p.res;
    }

-- `ApplyBorrowedDeficitIO`
unfoldable pub apply_borrowed_deficit_io : Pool → Bytes → ℤ → ℤ → ℕ → Pool
apply_borrowed_deficit_io p id got_itpm got_otpm now = elim (p.res id) [
  | none ↦ p
  | some r ↦
      let (p', found) = get_lease p r.key now in
      elim found [ none ↦ p' | some b ↦ apply_deficit_io p' id r b got_itpm got_otpm ]
]
