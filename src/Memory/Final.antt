-- ===== src/Memory/Final.antt =====
-- No call of any client moves a reservation of the memory store out of a final status.
use valve.Common.{
  ℕ, ◌<◌, ℤ, pos, ◌≡◌, ap, ◌∙◌, ◌≢◌, ◌⊎◌, inl, inr, arith, false, Bytes, Option, none, some,
  Bool-cases, Option-cases, bytes_eq_iff, bytes_eq,
}
use valve.Api.{Key, Limits, Cost}
use valve.Store.{BorrowSpec}
use valve.Memory.State.{Store, Reservation, Status, purge_expired, unexpired, unix_milli}
use valve.Memory.Check.{check, check_classic_locked, check_split_locked, clamp_all}
use valve.Memory.Settle.{
  settle, settle_found, settle_pending, settle_io, settle_io_found, settle_io_pending,
}
use valve.Memory.Refund.{refund, refund_found, refund_pending, refund_buckets}
use valve.Memory.Borrow.{borrow, borrow_classic_locked, borrow_split_locked}
use valve.Memory.Return.{return_credits, return_buckets}
use valve.Memory.Lifecycle.{
  live, settle-found, settle_io-found, refund-found, settle-missing, settle_io-missing,
  refund-missing,
}
use valve.Memory.History.{Call, step}

-- The reservation is as it was, or it has run out and is gone.
abbrev pub Keeps : ℕ → Option Reservation → Reservation → Type 0
Keeps now o r = ((o ≡ none) × (r.expires_at < now)) ⊎ (o ≡ some r)

module _ (s : Store) (now : ℕ) (id : Bytes) (r : Reservation) (has : s.res id ≡ some r) where
  purge-Keeps : Keeps now ((purge_expired s now).res id) r
  unfolding purge_expired unexpired
  purge-Keeps = ground arith

-- A call records a reservation under its own identifier only.
module _ (s : Store) (now now_ms : ℕ) (key : Key) (limits : Limits) (cost : Cost) (id j : Bytes)
    (other : bytes_eq id j ≡ false) where
  classic_res : (check_classic_locked s key limits cost id now now_ms).0.res j ≡ s.res j
  unfolding check_classic_locked
  classic_res = ground arith

  split_res : (check_split_locked s key limits cost id now now_ms).0.res j ≡ s.res j
  unfolding check_split_locked
  split_res = ground arith

module _ (now : ℕ) (id j : Bytes) (r found : Reservation) (t u : Store) where
  -- A call that leaves the store alone where it finds a final reservation, and the reservations of
  -- other identifiers in any case, keeps a final reservation.
  found-Keeps :
      r.status ≢ Status.pending
      → t.res j ≡ some found
      → (found.status ≢ Status.pending → u ≡ t)
      → (bytes_eq j id ≡ false → u.res id ≡ t.res id)
      → Keeps now (t.res id) r
      → Keeps now (u.res id) r
  found-Keeps final e same others k = elim (Bool-cases (bytes_eq j id)) [
    | inl hit ↦ ground (arith, bytes_eq_iff j id)
    | inr miss ↦ rw (others miss) k
  ]

module _ (t : Store) (now : ℕ) (j id : Bytes) (x y : ℤ) (found : Reservation) where
  settle_found_final : found.status ≢ Status.pending → (settle_found t now j x found).0 ≡ t
  unfolding settle_found
  settle_found_final h = ground arith

  settle_found_others : bytes_eq j id ≡ false → (settle_found t now j x found).0.res id ≡ t.res id
  unfolding settle_found settle_pending
  settle_found_others h = ground arith

  settle_io_found_final : found.status ≢ Status.pending → (settle_io_found t now j x y found).0 ≡ t
  unfolding settle_io_found
  settle_io_found_final h = ground arith

  settle_io_found_others :
      bytes_eq j id ≡ false → (settle_io_found t now j x y found).0.res id ≡ t.res id
  unfolding settle_io_found settle_io_pending
  settle_io_found_others h = ground arith

  refund_found_final : found.status ≢ Status.pending → (refund_found t now j found).0 ≡ t
  unfolding refund_found
  refund_found_final h = ground arith

  refund_found_others : bytes_eq j id ≡ false → (refund_found t now j found).0.res id ≡ t.res id
  unfolding refund_found refund_pending refund_buckets
  refund_found_others h = ground arith

module _ (s : Store) (now : ℕ) (key : Key) (limits : Limits) where
  borrow_res : (spec : BorrowSpec) → (borrow s now key limits spec).0.res ≡ s.res
  unfolding borrow borrow_classic_locked borrow_split_locked
  borrow_res spec = ground arith

  return_res : (a b c d : ℤ) → (return_credits s now key limits a b c d).0.res ≡ s.res
  unfolding return_credits return_buckets
  return_res a b c d = ground arith

  check_res :
      (cost : Cost) (j id : Bytes)
      → bytes_eq j id ≡ false
      → ((check s now key limits cost j).0.res id ≡ s.res id)
        ⊎ ((check s now key limits cost j).0.res id ≡ (purge_expired s now).res id)
  unfolding check
  check_res cost j id other = ground (
    arith,
    classic_res (purge_expired s now) now (unix_milli now) key limits (clamp_all cost) j id other,
    split_res (purge_expired s now) now (unix_milli now) key limits (clamp_all cost) j id other,
  )

module _ (s : Store) (now : ℕ) (j id : Bytes) (r : Reservation) (has : s.res id ≡ some r)
    (final : r.status ≢ Status.pending) where
  abbrev t : Store
  t = purge_expired s now

  settle-Keeps : (x : ℤ) → Keeps now ((settle s now j x).0.res id) r
  settle-Keeps x = elim (Option-cases (live s now j)) [
    | inl e ↦ rw (settle-missing s now j e x) (purge-Keeps s now id r has)
    | inr (f, e) ↦ rw (settle-found s now j f e x) (
        found-Keeps now id j r f t _ final e (settle_found_final t now j id x x f)
          (settle_found_others t now j id x x f) (purge-Keeps s now id r has))
  ]

  settle_io-Keeps : (x y : ℤ) → Keeps now ((settle_io s now j x y).0.res id) r
  settle_io-Keeps x y = elim (Option-cases (live s now j)) [
    | inl e ↦ rw (settle_io-missing s now j e x y) (purge-Keeps s now id r has)
    | inr (f, e) ↦ rw (settle_io-found s now j f e x y) (
        found-Keeps now id j r f t _ final e (settle_io_found_final t now j id x y f)
          (settle_io_found_others t now j id x y f) (purge-Keeps s now id r has))
  ]

  refund-Keeps : Keeps now ((refund s now j).0.res id) r
  refund-Keeps = elim (Option-cases (live s now j)) [
    | inl e ↦ rw (refund-missing s now j e) (purge-Keeps s now id r has)
    | inr (f, e) ↦ rw (refund-found s now j f e) (
        found-Keeps now id j r f t _ final e (refund_found_final t now j id (pos 0) (pos 0) f)
          (refund_found_others t now j id (pos 0) (pos 0) f) (purge-Keeps s now id r has))
  ]

-- The call does not ask for a new reservation under the identifier.
abbrev pub IsOther : Bytes → Call → Type 0
IsOther id (Call.checks key limits cost j) = bytes_eq j id ≡ false
IsOther id c = Unit {0}

-- A settled or refunded reservation stays exactly as it is through every call of every client, and
-- it is removed only by a call that comes after the time at which it runs out; only a new `Check` under the same identifier would replace it.
pub step_keeps_final :
    (s : Store) (now : ℕ) (c : Call) (id : Bytes) (r : Reservation)
    → s.res id ≡ some r
    → r.status ≢ Status.pending
    → IsOther id c
    → (((step s now c).res id ≡ none) × (r.expires_at < now)) ⊎ ((step s now c).res id ≡ some r)
unfolding step
step_keeps_final s now (Call.checks key limits cost j) id r has final other =
    ground (arith, check_res s now key limits cost j id other, purge-Keeps s now id r has)
step_keeps_final s now (Call.settles j x) id r has final other =
    settle-Keeps s now j id r has final x
step_keeps_final s now (Call.settles_io j x y) id r has final other =
    settle_io-Keeps s now j id r has final x y
step_keeps_final s now (Call.refunds j) id r has final other = refund-Keeps s now j id r has final
step_keeps_final s now (Call.borrows key limits spec) id r has final other =
    inr (ap (λ m. m id) (borrow_res s now key limits spec) ∙ has)
step_keeps_final s now (Call.returns key limits a b x y) id r has final other =
    inr (ap (λ m. m id) (return_res s now key limits a b x y) ∙ has)
