-- ===== src/Memory/Admission.antt =====
-- `Check` of the memory store: what it admits, and that it debits every bucket or none.
use valve.Common.{
  ℕ, ◌<◌, ℤ, ◌-ℤ◌, ◌≡◌, ◌∙◌, ◌↔◌, arith, Bool, true, false, Bytes, Map, if◌then◌else◌,
}
use valve.Api.{Key, Limits, Cost, Decision, Result, ok, err, is_partial}
use valve.Bucket
use valve.Bucket.{scale, try_consume, clamp_cost, refill}
use valve.Bucket.Consume.{Fits, try_consume_allowed, try_consume_state}
use valve.Memory.State.{Store, BucketState, purge_expired, load_bucket, unix_milli}
use valve.Memory.Buckets.{AllSound, refill-load_bucket}
use valve.Memory.Check.{check, check_classic_locked, check_split_locked, clamp_all}

abbrev pub was_allowed : Result Decision → Bool
was_allowed (ok d) = d.allowed
was_allowed (err e) = false

module _ (s : Store) (key : Key) (limits : Limits) (cost : Cost) (id : Bytes) (now now_ms : ℕ) where
  pub classic_refused :
      was_allowed (check_classic_locked s key limits cost id now now_ms).1 ≡ false
      → (check_classic_locked s key limits cost id now now_ms).0 ≡ s
  unfolding check_classic_locked
  classic_refused h = ground arith

  pub split_refused :
      was_allowed (check_split_locked s key limits cost id now now_ms).1 ≡ false
      → (check_split_locked s key limits cost id now now_ms).0 ≡ s
  unfolding check_split_locked
  split_refused h = ground arith

-- A `Check` that is not allowed, by a bucket or by an error, changes no bucket and records nothing:
-- the store is as before but for the reservations that had run out, and for a request with a partial
-- split even these are left.
pub check_refused :
    (s : Store) (now : ℕ) (key : Key) (limits : Limits) (cost : Cost) (id : Bytes)
    → was_allowed (check s now key limits cost id).1 ≡ false
    → (check s now key limits cost id).0 ≡ (if is_partial limits then s else purge_expired s now)
unfolding check
check_refused s now key limits cost id h = ground (
  arith,
  classic_refused (purge_expired s now) key limits (clamp_all cost) id now (unix_milli now),
  split_refused (purge_expired s now) key limits (clamp_all cost) id now (unix_milli now),
)

-- A bucket after a cost was taken from it.
abbrev pub taken : Bucket.State → ℤ → Bucket.State
taken b cost = record b { tokens = b.tokens -ℤ scale (clamp_cost cost) }

pub clamp_cost_twice : (n : ℤ) → clamp_cost (clamp_cost n) ≡ clamp_cost n
unfolding clamp_cost
clamp_cost_twice n = ground arith

module _ (m : Map BucketState) (k : Bytes) (capacity : ℤ) (now_ms : ℕ) (cost : ℤ)
    (sound : AllSound now_ms m) (p : 0 < now_ms) where
  abbrev b : Bucket.State
  b = load_bucket m k capacity now_ms

  pub loaded_allowed : ((try_consume b now_ms (clamp_cost cost)).1.allowed ≡ true) ↔ Fits b cost
  loaded_allowed =
      rw (clamp_cost_twice cost, refill-load_bucket m k capacity now_ms sound p) at
        (try_consume_allowed b now_ms (clamp_cost cost))

  pub loaded_taken :
      (try_consume b now_ms (clamp_cost cost)).1.allowed ≡ true
      → (try_consume b now_ms (clamp_cost cost)).0 ≡ taken b cost
  loaded_taken h =
      try_consume_state b now_ms (clamp_cost cost)
      ∙ rw (h, refill-load_bucket m k capacity now_ms sound p, clamp_cost_twice cost)
