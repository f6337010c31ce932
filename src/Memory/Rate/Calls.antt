-- ===== src/Memory/Rate/Calls.antt =====
-- What the calls of pkg/store/memory/memory.go do to the buckets of requests.
use valve.Common.{
  ℕ, ◌<◌, ℤ, ◌≡◌, refl, ap, arith, true, false, Bool-cases, Option-cases, inl, inr, Bytes,
}
use valve.Api.{Key, Limits, Cost, split}
use valve.Bucket.Consume.{Fits}
use valve.Memory.State.{Store, bucket_key, save_bucket, purge_expired, unix_milli}
use valve.Memory.Check.{check}
use valve.Memory.Settle.{
  settle, settle_io, settle_found, settle_pending, settle_io_found, settle_io_pending,
}
use valve.Memory.Admission.{was_allowed, taken, check_refused}
use valve.Memory.Exact.{
  IsWellFormed, IsSoundStore, rpm_bucket, classic_admission, classic_effect, split_admission,
  split_effect,
}
use valve.Memory.Lifecycle.{live, settle-missing, settle-found, settle_io-missing, settle_io-found}

-- Settling leaves the buckets of requests alone.
pub settle-rpm : (s : Store) (now : ℕ) (id : Bytes) (x : ℤ) → (settle s now id x).0.rpm ≡ s.rpm
unfolding settle_found settle_pending purge_expired
settle-rpm s now id x = elim (Option-cases (live s now id)) [
  | inl e ↦ rw (settle-missing s now id e x) refl
  | inr (r, e) ↦ rw (settle-found s now id r e x) (ground arith)
]

pub settle_io-rpm :
    (s : Store) (now : ℕ) (id : Bytes) (x y : ℤ) → (settle_io s now id x y).0.rpm ≡ s.rpm
unfolding settle_io_found settle_io_pending purge_expired
settle_io-rpm s now id x y = elim (Option-cases (live s now id)) [
  | inl e ↦ rw (settle_io-missing s now id e x y) refl
  | inr (r, e) ↦ rw (settle_io-found s now id r e x y) (ground arith)
]

module _ (s : Store) (now : ℕ) (key : Key) (limits : Limits) (cost : Cost) (id : Bytes) where
  pub refused-rpm :
      was_allowed (check s now key limits cost id).1 ≡ false
      → (check s now key limits cost id).0.rpm ≡ s.rpm
  unfolding purge_expired
  refused-rpm h = rw (check_refused s now key limits cost id h) (ground arith)

  allowed-IsWellFormed :
      was_allowed (check s now key limits cost id).1 ≡ true → IsWellFormed key limits id
  unfolding check
  allowed-IsWellFormed h = record {
    whole = ground arith;
    named = ground arith;
    numbered = ground arith;
  }

  -- An allowed request fits the bucket of requests and pays from it, in either mode.
  pub allowed-rpm :
      0 < unix_milli now
      → IsSoundStore (unix_milli now) s
      → was_allowed (check s now key limits cost id).1 ≡ true
      → Fits (rpm_bucket s now key limits) cost.requests
        × ((check s now key limits cost id).0.rpm
            ≡ save_bucket s.rpm
                (bucket_key key)
                (taken (rpm_bucket s now key limits) cost.requests))
  allowed-rpm p sound h =
      let w = allowed-IsWellFormed h in
      elim (Bool-cases (split limits)) [
        | inl two ↦ (
          ((split_admission s now key limits cost id p sound w two).0 h).0,
          ap Store.rpm (split_effect s now key limits cost id p sound w two h),
        )
        | inr classic ↦ (
          ((classic_admission s now key limits cost id p sound w classic).0 h).0,
          ap Store.rpm (classic_effect s now key limits cost id p sound w classic h),
        )
      ]
