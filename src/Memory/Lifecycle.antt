-- ===== src/Memory/Lifecycle.antt =====
-- The life of a reservation of the memory store: pending, then settled or refunded, and never both.
use valve.Common.{
  ℕ, ◌+◌, ◌≤◌, ℤ, ◌≡◌, refl, ap, ◌∙◌, arith, true, false, Bytes, Map, Option, none, some, insert,
  bytes_eq_refl, if◌then◌else◌,
}
use valve.Api.{Decision, ok, err, Error}
use valve.Store.{reservation_ttl}
use valve.Memory.State.{Store, Reservation, Status, purge_expired, unexpired}
use valve.Memory.Settle.{
  settle, settle_found, settle_pending, settle_io, settle_io_found, settle_io_pending, settled_with,
}
use valve.Memory.Refund.{refund, refund_found, refund_pending}

-- The reservation that a call under this identifier finds.
abbrev pub live : Store → ℕ → Bytes → Option Reservation
live s now id = (purge_expired s now).res id

settle_pending_lem :
    (s : Store) (now : ℕ) (id : Bytes) (actual : ℤ) (r : Reservation)
    → (d : Decision) × ((settle_pending s now id actual r).1 ≡ ok d)
      × ((settle_pending s now id actual r).0.res ≡ insert id (settled_with r now d) s.res)
unfolding settle_pending
settle_pending_lem s now id actual r = (_, refl, refl)

settle_io_pending_lem :
    (s : Store) (now : ℕ) (id : Bytes) (actual_in actual_out : ℤ) (r : Reservation)
    → (d : Decision) × ((settle_io_pending s now id actual_in actual_out r).1 ≡ ok d)
      × ((settle_io_pending s now id actual_in actual_out r).0.res
          ≡ insert id (settled_with r now d) s.res)
unfolding settle_io_pending
settle_io_pending_lem s now id x y r = (_, refl, refl)

pub live-insert :
    (s : Store) (later : ℕ) (id : Bytes) (r : Reservation) (m : Map Reservation)
    → s.res ≡ insert id r m
    → later ≤ r.expires_at
    → live s later id ≡ some r
unfolding purge_expired unexpired
live-insert s later id r m e le =
    ap (λ n. unexpired later (n id)) e ∙ ground (arith, bytes_eq_refl id)

-- What each call does with the reservation that it finds.
module _ (s : Store) (now : ℕ) (id : Bytes) (r : Reservation) (found : live s now id ≡ some r) where
  pub settle-found : (a : ℤ) → settle s now id a ≡ settle_found (purge_expired s now) now id a r
  unfolding settle
  settle-found a = rw (found, settle)

  pub settle_io-found :
      (a b : ℤ) → settle_io s now id a b ≡ settle_io_found (purge_expired s now) now id a b r
  unfolding settle_io
  settle_io-found a b = rw (found, settle_io)

  pub refund-found : refund s now id ≡ refund_found (purge_expired s now) now id r
  unfolding refund
  refund-found = rw (found, refund)

module _ (s : Store) (now : ℕ) (id : Bytes) (missing : live s now id ≡ none) where
  pub settle-missing :
      (a : ℤ) → settle s now id a ≡ (purge_expired s now, err Error.reservation_not_found)
  unfolding settle
  settle-missing a = rw (missing, settle)

  pub settle_io-missing :
      (a b : ℤ) → settle_io s now id a b ≡ (purge_expired s now, err Error.reservation_not_found)
  unfolding settle_io
  settle_io-missing a b = rw (missing, settle_io)

  pub refund-missing : refund s now id ≡ (purge_expired s now, err Error.reservation_not_found)
  unfolding refund
  refund-missing = rw (missing, refund)

-- Once a classic reservation is settled, every `Settle` in the next 15 minutes returns the same
-- decision, whatever the amount, and a `Refund` and a `SettleIO` are errors; none of them changes
-- the store, beyond the removal of reservations that have run out.
pub settle_final :
    (s : Store) (now later : ℕ) (id : Bytes) (actual again x y : ℤ) (r : Reservation)
    → live s now id ≡ some r
    → r.is_split ≡ false
    → r.status ≡ Status.pending
    → later ≤ now + reservation_ttl
    → let (s', result) = settle s now id actual in
      (settle s' later id again ≡ (purge_expired s' later, result))
      × (refund s' later id ≡ (purge_expired s' later, err Error.reservation_settled))
      × (settle_io s' later id x y ≡ (purge_expired s' later, err Error.wrong_settle_mode))
unfolding settle_found settle_io_found refund_found
settle_final s now later id actual again x y r found classic unsettled le =
    let t = purge_expired s now in
    let (d, e, m) = settle_pending_lem t now id actual r in
    let s' = (settle_pending t now id actual r).0 in
    let l : live s' later id ≡ some (settled_with r now d) = live-insert s' later id _ t.res m le in
    let once : settle s now id actual ≡ settle_pending t now id actual r =
      settle-found s now id r found actual ∙ ground arith in
    rw once (
      settle-found s' later id _ l again ∙ ground arith,
      refund-found s' later id _ l,
      settle_io-found s' later id _ l x y ∙ ground arith,
    )

-- Once a split reservation is settled, every `SettleIO` in the next 15 minutes returns the same
-- decision, whatever the amounts, and a `Refund` and a `Settle` are errors; none of them changes
-- the store, beyond the removal of reservations that have run out.
pub settle_io_final :
    (s : Store) (now later : ℕ) (id : Bytes) (actual_in actual_out x y again : ℤ) (r : Reservation)
    → live s now id ≡ some r
    → r.is_split ≡ true
    → r.status ≡ Status.pending
    → later ≤ now + reservation_ttl
    → let (s', result) = settle_io s now id actual_in actual_out in
      (settle_io s' later id x y ≡ (purge_expired s' later, result))
      × (refund s' later id ≡ (purge_expired s' later, err Error.reservation_settled))
      × (settle s' later id again ≡ (purge_expired s' later, err Error.wrong_settle_mode))
unfolding settle_found settle_io_found refund_found
settle_io_final s now later id a b x y again r found two unsettled le =
    let t = purge_expired s now in
    let (d, e, m) = settle_io_pending_lem t now id a b r in
    let s' = (settle_io_pending t now id a b r).0 in
    let l : live s' later id ≡ some (settled_with r now d) = live-insert s' later id _ t.res m le in
    let once : settle_io s now id a b ≡ settle_io_pending t now id a b r =
      settle_io-found s now id r found a b ∙ ground arith in
    rw once (
      settle_io-found s' later id _ l x y ∙ ground arith,
      refund-found s' later id _ l,
      settle-found s' later id _ l again ∙ ground arith,
    )

-- The reservation as `Refund` writes it back.
abbrev refunded_at : Reservation → ℕ → Reservation
refunded_at r now = record r { status = Status.refunded; expires_at = now + reservation_ttl }

-- Once a pending reservation is refunded, every `Refund` in the next 15 minutes succeeds and credits
-- nothing again, and both settling calls are errors that change no bucket: the one of its mode says
-- that it was refunded, the other that the mode is wrong.
pub refund_final :
    (s : Store) (now later : ℕ) (id : Bytes) (a b : ℤ) (r : Reservation)
    → live s now id ≡ some r
    → r.status ≡ Status.pending
    → later ≤ now + reservation_ttl
    → let s' = (refund s now id).0 in
      ((refund s now id).1 ≡ ok tt)
      × (refund s' later id ≡ (purge_expired s' later, ok tt))
      × (settle s' later id a ≡ (
        purge_expired s' later,
        err (if r.is_split then Error.wrong_settle_mode else Error.reservation_refunded),
      ))
      × (settle_io s' later id a b ≡ (
        purge_expired s' later,
        err (if r.is_split then Error.reservation_refunded else Error.wrong_settle_mode),
      ))
unfolding settle_found settle_io_found refund_found refund_pending
refund_final s now later id a b r found unsettled le =
    let t = purge_expired s now in
    let s' = (refund_pending t now id r).0 in
    let l : live s' later id ≡ some (refunded_at r now) = live-insert s' later id _ t.res refl le in
    let once : refund s now id ≡ refund_pending t now id r =
      refund-found s now id r found ∙ ground arith in
    rw once (
      refl,
      refund-found s' later id _ l,
      settle-found s' later id _ l a ∙ ground arith,
      settle_io-found s' later id _ l a b ∙ ground arith,
    )
