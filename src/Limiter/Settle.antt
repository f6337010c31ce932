-- ===== src/Limiter/Settle.antt =====
-- `Settle`, `SettleIO` and `Refund` of the limiter.
use valve.Common.{ℕ, ℤ, pos, ltb_ℤ, ◌||◌, not, if◌then◌else◌, Bytes, Option, none, some}
use valve.Api.{Decision, Result, ok, err, Error, split}
use valve.Store.{BorrowSpec, BorrowResult}
use valve.Lease.Pool.{Pool, Reservation, credit_lease, note_borrow, get_reservation}
use valve.Lease.Settle.{settle_local, settle_local_io}
use valve.Lease.Refund.{refund_local, apply_borrowed_deficit, apply_borrowed_deficit_io}
use valve.Limiter.Backend.{Backend, Limiter}
use valve.Limiter.Check.{from}

abbrev pub no_spec : BorrowSpec
no_spec = record {
  min_rpm = pos 0;
  min_tpm = pos 0;
  min_itpm = pos 0;
  min_otpm = pos 0;
  chunk_rpm = pos 0;
  chunk_tpm = pos 0;
  chunk_itpm = pos 0;
  chunk_otpm = pos 0;
}

-- The decision that the reservation holds in the end, or the one at hand.
unfoldable pub last_decision : Option Reservation → Decision → Decision
last_decision none dec = dec
last_decision (some r) dec = r.last_decision

unfoldable pub updated : Pool → Bytes → Decision → ℕ → Pool × Decision
updated p id dec now = let (p', r) = get_reservation p id now in (p', last_decision r dec)

-- What `Settle` does with the answer to its loan.
unfoldable pub cover :
    Pool → Bytes → Reservation → Decision → Result BorrowResult → (ℕ → ℕ) → Pool × Decision
cover p id r dec (err e) clock = (p, dec)
cover p id r dec (ok br) clock =
    if br.allowed
    then (let p1 = credit_lease p r.key r.limits br.got_rpm br.got_tpm (pos 0) (pos 0) (clock 0) in
        updated (apply_borrowed_deficit p1 id br.got_tpm (clock 1)) id dec (clock 2))
    else (p, dec)

-- What `SettleIO` does with the answer to its loan.
unfoldable pub cover_io :
    Pool → Bytes → Reservation → Decision → Result BorrowResult → (ℕ → ℕ) → Pool × Decision
cover_io p id r dec (err e) clock = (p, dec)
cover_io p id r dec (ok br) clock =
    if br.allowed
    then (let p1 =
          credit_lease p r.key r.limits br.got_rpm (pos 0) br.got_itpm br.got_otpm (clock 0) in
        updated (apply_borrowed_deficit_io p1 id br.got_itpm br.got_otpm (clock 1)) id dec
          (clock 2))
    else (p, dec)

module _ (B : Backend) where
  open B use {Store}

  -- `Settle` once the local reservation is settled.
  unfoldable pub settle_overshoot :
      Limiter Store → Pool → Bytes → Reservation → Decision → (ℕ → ℕ) → Limiter Store × Decision
  settle_overshoot l p id r dec clock =
      if ltb_ℤ (pos 0) dec.overshoot_tpm
      then (let need = dec.overshoot_tpm in
          let spec : BorrowSpec = record no_spec { min_tpm = need; chunk_tpm = need } in
          let (s, br) = B.borrow l.store (clock 0) r.key r.limits spec in
          let (p', d) = cover (note_borrow p) id r dec br (from 1 clock) in
          (record l { store = s; pool = some p' }, d))
      else (record l { pool = some p }, dec)

  -- `Settle` on a local reservation.
  unfoldable pub settle_fast :
      Limiter Store → Pool → Bytes → ℤ → Reservation → (ℕ → ℕ) → Limiter Store × Result Decision
  settle_fast l p id actual r clock =
      if split r.limits
      then (record l { pool = some p }, err Error.wrong_settle_mode)
      else let (p', result) = settle_local p id actual (clock 0) in
        elim result [
          | err e ↦ (record l { pool = some p' }, err e)
          | ok dec ↦ let (l', d) = settle_overshoot l p' id r dec (from 1 clock) in (l', ok d)
        ]

  unfoldable pub settle_store : Limiter Store → Bytes → ℤ → ℕ → Limiter Store × Result Decision
  settle_store l id actual now =
      let (s, result) = B.settle l.store now id actual in (record l { store = s }, result)

  -- `Settle`
  unfoldable pub settle : Limiter Store → Bytes → ℤ → (ℕ → ℕ) → Limiter Store × Result Decision
  settle l id actual clock = elim l.pool [
    | none ↦ settle_store l id actual (clock 0)
    | some p ↦
        let (p', r) = get_reservation p id (clock 0) in
        elim r [
          | none ↦ settle_store (record l { pool = some p' }) id actual (clock 1)
          | some r ↦ settle_fast l p' id actual r (from 1 clock)
        ]
  ]

  -- `SettleIO` once the local reservation is settled.
  unfoldable pub settle_io_overshoot :
      Limiter Store → Pool → Bytes → Reservation → Decision → (ℕ → ℕ) → Limiter Store × Decision
  settle_io_overshoot l p id r dec clock =
      if ltb_ℤ (pos 0) dec.overshoot_itpm || ltb_ℤ (pos 0) dec.overshoot_otpm
      then (let spec : BorrowSpec = record no_spec {
        min_itpm = dec.overshoot_itpm;
        chunk_itpm = dec.overshoot_itpm;
        min_otpm = dec.overshoot_otpm;
        chunk_otpm = dec.overshoot_otpm;
      } in
          let (s, br) = B.borrow l.store (clock 0) r.key r.limits spec in
          let (p', d) = cover_io (note_borrow p) id r dec br (from 1 clock) in
          (record l { store = s; pool = some p' }, d))
      else (record l { pool = some p }, dec)

  -- `SettleIO` on a local reservation.
  unfoldable pub settle_io_fast :
      Limiter Store → Pool → Bytes → ℤ → ℤ → Reservation → (ℕ → ℕ) → Limiter Store × Result Decision
  settle_io_fast l p id actual_in actual_out r clock =
      if not (split r.limits)
      then (record l { pool = some p }, err Error.wrong_settle_mode)
      else let (p', result) = settle_local_io p id actual_in actual_out (clock 0) in
        elim result [
          | err e ↦ (record l { pool = some p' }, err e)
          | ok dec ↦ let (l', d) = settle_io_overshoot l p' id r dec (from 1 clock) in (l', ok d)
        ]

  unfoldable pub settle_io_store :
      Limiter Store → Bytes → ℤ → ℤ → ℕ → Limiter Store × Result Decision
  settle_io_store l id actual_in actual_out now =
      let (s, result) = B.settle_io l.store now id actual_in actual_out in
      (record l { store = s }, result)

  -- `SettleIO`
  unfoldable pub settle_io :
      Limiter Store → Bytes → ℤ → ℤ → (ℕ → ℕ) → Limiter Store × Result Decision
  settle_io l id actual_in actual_out clock = elim l.pool [
    | none ↦ settle_io_store l id actual_in actual_out (clock 0)
    | some p ↦
        let (p', r) = get_reservation p id (clock 0) in
        elim r [
          | none ↦ settle_io_store (record l { pool = some p' }) id actual_in actual_out (clock 1)
          | some r ↦ settle_io_fast l p' id actual_in actual_out r (from 1 clock)
        ]
  ]

  unfoldable pub refund_store : Limiter Store → Bytes → ℕ → Limiter Store × Result (Unit {0})
  refund_store l id now =
      let (s, result) = B.refund l.store now id in (record l { store = s }, result)

  -- `Refund`
  unfoldable pub refund : Limiter Store → Bytes → (ℕ → ℕ) → Limiter Store × Result (Unit {0})
  refund l id clock = elim l.pool [
    | none ↦ refund_store l id (clock 0)
    | some p ↦
        let (p', r) = get_reservation p id (clock 0) in
        elim r [
          | none ↦ refund_store (record l { pool = some p' }) id (clock 1)
          | some _ ↦
              let (p'', result) = refund_local p' id (clock 1) in
              (record l { pool = some p'' }, result)
        ]
  ]
