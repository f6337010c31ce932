-- ===== src/Memory/Refund.antt =====
-- `Refund` of the memory store.
use valve.Common.{ℕ, ◌+◌, if◌then◌else◌, Bytes, none, some, insert}
use valve.Api.{ok, err, Error}
use valve.Bucket.{credit}
use valve.Store.{reservation_ttl}
use valve.Memory.State.{
  Store, Reservation, Status, Outcome, unix_milli, bucket_key, purge_expired, load_bucket,
  save_bucket,
}
use valve.Memory.Settle.{key_of}

-- The buckets after a refund: the requests, and the tokens of the reservation's mode.
unfoldable pub refund_buckets : Store → ℕ → Reservation → Store
refund_buckets s now_ms r =
    let bk = bucket_key (key_of r) in
    let rpm = credit (load_bucket s.rpm bk r.limit_rpm now_ms) now_ms r.rpm_cost in
    let s1 : Store = record s { rpm = save_bucket s.rpm bk rpm } in
    if r.is_split
    then (let itpm = credit (load_bucket s.itpm bk r.limit_itpm now_ms) now_ms r.itpm_reserved in
        let otpm = credit (load_bucket s.otpm bk r.limit_otpm now_ms) now_ms r.otpm_reserved in
        record s1 { itpm = save_bucket s.itpm bk itpm; otpm = save_bucket s.otpm bk otpm })
    else let tpm = credit (load_bucket s.tpm bk r.limit_tpm now_ms) now_ms r.tpm_reserved in
      record s1 { tpm = save_bucket s.tpm bk tpm }

-- `Refund` on a pending reservation.
unfoldable pub refund_pending : Store → ℕ → Bytes → Reservation → Outcome (Unit {0})
refund_pending s now reservation_id r =
    let s' = refund_buckets s (unix_milli now) r in
    (
      record s' {
        res =
            insert reservation_id
              (record r { status = Status.refunded; expires_at = now + reservation_ttl }) s.res;
      },
      ok tt,
    )

-- `Refund` once the reservation is found.
unfoldable pub refund_found : Store → ℕ → Bytes → Reservation → Outcome (Unit {0})
refund_found s now reservation_id r = elim r.status [
  | Status.refunded ↦ (s, ok tt)
  | Status.settled ↦ (s, err Error.reservation_settled)
  | Status.pending ↦ refund_pending s now reservation_id r
]

-- `Refund`
unfoldable pub refund : Store → ℕ → Bytes → Outcome (Unit {0})
refund s now reservation_id =
    let s' = purge_expired s now in
    elim (s'.res reservation_id) [
      | none ↦ (s', err Error.reservation_not_found)
      | some r ↦ refund_found s' now reservation_id r
    ]
