-- ===== src/Lease/Lifecycle.antt =====
-- The life of a local reservation in pkg/lease/lease.go: it is settled or refunded once.
use valve.Common.{
  ℕ, ◌+◌, ◌≤◌, ℤ, ◌≡◌, refl, ◌∙◌, ap, arith, false, Bytes, none, some, bytes_eq_refl,
}
use valve.Api.{Decision, Result, ok, err, Error, split, zero_decision}
use valve.Store.{Status, reservation_ttl}
use valve.Lease.Pool.{Pool, Reservation, purge_res}
use valve.Lease.Settle.{settle_local, settle_local_found, settle_local_pending, settled_with}
use valve.Lease.Refund.{refund_local, refund_local_found}
use valve.Lease.Restore.{purge_res_kept}

module _ (p : Pool) (id : Bytes) (r : Reservation) (now : ℕ)
    (here : (purge_res p now).res id ≡ some r) where
  settle_local_finds :
      (actual : ℤ)
      → settle_local p id actual now ≡ settle_local_found (purge_res p now) id actual r now
  unfolding settle_local
  settle_local_finds actual =
      ap
        (λ o. elim o [
          | none ↦ (purge_res p now, err Error.reservation_not_found)
          | some r ↦ settle_local_found (purge_res p now) id actual r now
        ])
        here

  refund_local_finds : refund_local p id now ≡ refund_local_found (purge_res p now) id r now
  unfolding refund_local
  refund_local_finds =
      ap
        (λ o. elim o [
          | none ↦ (purge_res p now, err Error.reservation_not_found)
          | some r ↦ refund_local_found (purge_res p now) id r now
        ])
        here

abbrev decision_of : Result Decision → Decision
decision_of (ok d) = d
decision_of (err e) = zero_decision

module _ (p : Pool) (id : Bytes) (actual : ℤ) (r : Reservation) (now : ℕ) where
  settle_local_settles :
      (d : Decision) × ((settle_local_pending p id actual r now).0.res id
        ≡ some (settled_with r now d))
      × ((settle_local_pending p id actual r now).1 ≡ ok d)
  unfolding settle_local_pending
  settle_local_settles = (
    decision_of (settle_local_pending p id actual r now).1,
    ground (arith, bytes_eq_refl id),
    refl,
  )

  classic_pending :
      split r.limits ≡ false
      → r.status ≡ Status.pending
      → settle_local_found p id actual r now ≡ settle_local_pending p id actual r now
  unfolding settle_local_found settle_local_pending
  classic_pending classic pending = rw classic (rw pending refl)

  classic_settled :
      split r.limits ≡ false
      → r.status ≡ Status.settled
      → settle_local_found p id actual r now ≡ (p, ok r.last_decision)
  unfolding settle_local_found
  classic_settled classic settled = rw classic (rw settled refl)

refund_settled :
    (p : Pool) (id : Bytes) (r : Reservation) (now : ℕ)
    → r.status ≡ Status.settled
    → refund_local_found p id r now ≡ (p, err Error.reservation_settled)
unfolding refund_local_found
refund_settled p id r now settled = rw settled refl

-- Once a local classic reservation is settled, every `SettleLocal` in the next 15 minutes returns
-- the same decision, whatever the amount, and a `RefundLocal` is an error; neither changes the
-- pool, beyond the removal of reservations that have run out.
pub settle_local_final :
    (p : Pool) (id : Bytes) (actual again : ℤ) (r : Reservation) (now later : ℕ)
    → (purge_res p now).res id ≡ some r
    → split r.limits ≡ false
    → r.status ≡ Status.pending
    → later ≤ now + reservation_ttl
    → let (p', result) = settle_local p id actual now in
      (settle_local p' id again later ≡ (purge_res p' later, result))
      × (refund_local p' id later ≡ (purge_res p' later, err Error.reservation_settled))
settle_local_final p id actual again r now later here classic pending kept =
    let once =
      settle_local_finds p id r now here actual
      ∙ classic_pending (purge_res p now) id actual r now classic pending in
    let (d, res, result) = settle_local_settles (purge_res p now) id actual r now in
    let p' = (settle_local_pending (purge_res p now) id actual r now).0 in
    let r' = settled_with r now d in
    let still = purge_res_kept p' id r' later res (ground arith) in
    rw once (
      rw result (
        settle_local_finds p' id r' later still again
            ∙ classic_settled (purge_res p' later) id again r' later classic refl,
        refund_local_finds p' id r' later still
            ∙ refund_settled (purge_res p' later) id r' later refl,
      ))
