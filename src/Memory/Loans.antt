-- ===== src/Memory/Loans.antt =====
-- `Borrow` and `Return` of the memory store: how much is lent, and that it can be given back.
use valve.Common.{
  ℕ, ◌<◌, ℤ, pos, ◌≤ℤ◌, ◌-ℤ◌, ◌≡◌, ◌↔◌, ◌⊎◌, arith, Bool, true, false, Bytes, Map, if◌then◌else◌,
  ltb_ℤ,
}
use valve.Api.{Key, Limits, Result, ok, err, split, is_partial}
use valve.Bucket
use valve.Bucket.{scale, remaining_int, clamp_cost, try_consume}
use valve.Bucket.Arith.{token_laws, clamp_cost_parts}
use valve.Bucket.Consume.{Fits}
use valve.Store.{BorrowSpec, BorrowResult}
use valve.Memory.State.{
  Store, BucketState, load_bucket, save_bucket, bucket_key, is_empty, unix_milli,
}
use valve.Memory.Buckets.{AllSound, load_bucket-IsBounded}
use valve.Memory.Borrow.{borrow, borrow_classic_locked, borrow_split_locked, want_got}
use valve.Memory.Admission.{loaded_allowed, loaded_taken}
use valve.Memory.Exact.{IsSoundStore, rpm_bucket, tpm_bucket}

-- What is lent is at least the need and at most what is there, and it is all that is there unless it
-- is the larger of the need and the chunk.
pub want_got_bounds :
    (avail min chunk : ℤ)
    → min ≤ℤ avail
    → (min ≤ℤ want_got avail min chunk)
      × (want_got avail min chunk ≤ℤ avail)
      × ((want_got avail min chunk ≡ avail)
          ⊎ (want_got avail min chunk ≡ (if ltb_ℤ min chunk then chunk else min)))
unfolding want_got
want_got_bounds avail min chunk h = ground arith

-- A bucket after a loan.
abbrev pub less : Bucket.State → ℤ → Bucket.State
less b got = record b { tokens = b.tokens -ℤ scale got }

module _ (m : Map BucketState) (k : Bytes) (capacity : ℤ) (now_ms : ℕ) (sound : AllSound now_ms m)
    (p : 0 < now_ms) (c : pos 0 ≤ℤ capacity) (got : ℤ) (n : pos 0 ≤ℤ got) where
  abbrev b : Bucket.State
  b = load_bucket m k capacity now_ms

  -- Whole tokens that are there can be taken.
  whole-Fits : got ≤ℤ remaining_int b.tokens → Fits b got
  whole-Fits le =
      let v = load_bucket-IsBounded m k capacity now_ms sound c in
      grind (token_laws, v, clamp_cost_parts got)

  clamp_got : clamp_cost got ≡ got
  unfolding clamp_cost
  clamp_got = ground arith

  lent : got ≤ℤ remaining_int b.tokens → (try_consume b now_ms got).0 ≡ less b got
  lent le = rw clamp_got at (
      loaded_taken m k capacity now_ms got sound p
        ((loaded_allowed m k capacity now_ms got sound p).1 (whole-Fits le)))

abbrev pub was_granted : Result BorrowResult → Bool
was_granted (ok out) = out.allowed
was_granted (err e) = false

granted_of :
    {r : Result BorrowResult} (out : BorrowResult)
    → r ≡ ok out
    → out.allowed ≡ true
    → was_granted r ≡ true
granted_of out e h = rw e h

-- A classic loan: what is asked for, and what the buckets hold.
module _ (s : Store) (now : ℕ) (key : Key) (limits : Limits) (spec : BorrowSpec)
    (p : 0 < unix_milli now) (sound : IsSoundStore (unix_milli now) s)
    (whole : is_partial limits ≡ false) (named : is_empty key.subject ≡ false)
    (classic : split limits ≡ false) (cr : pos 0 ≤ℤ limits.requests_per_minute)
    (ct : pos 0 ≤ℤ limits.tokens_per_minute) where
  abbrev rpm : Bucket.State
  rpm = rpm_bucket s now key limits

  abbrev tpm : Bucket.State
  tpm = tpm_bucket s now key limits

  abbrev got_rpm : ℤ
  got_rpm =
      want_got (remaining_int rpm.tokens) (clamp_cost spec.min_rpm) (clamp_cost spec.chunk_rpm)

  abbrev got_tpm : ℤ
  got_tpm =
      want_got (remaining_int tpm.tokens) (clamp_cost spec.min_tpm) (clamp_cost spec.chunk_tpm)

  abbrev CanLend : Type 0
  CanLend =
      (clamp_cost spec.min_rpm ≤ℤ remaining_int rpm.tokens)
      × (clamp_cost spec.min_tpm ≤ℤ remaining_int tpm.tokens)

  -- For a named subject and limits that are not negative, on a store whose buckets are sound, a
  -- classic loan is granted exactly when both needs are there as whole tokens.
  pub borrow_granted : (was_granted (borrow s now key limits spec).1 ≡ true) ↔ CanLend
  unfolding borrow borrow_classic_locked
  borrow_granted = ground arith

  -- For a named subject and limits that are not negative, on a store whose buckets are sound, a
  -- classic loan that is granted is at least the need and at most what is there, and exactly what
  -- is lent is taken from the two buckets.
  pub borrow_lends :
      (out : BorrowResult)
      → (borrow s now key limits spec).1 ≡ ok out
      → out.allowed ≡ true
      → (clamp_cost spec.min_rpm ≤ℤ out.got_rpm)
        × (out.got_rpm ≤ℤ remaining_int rpm.tokens)
        × (clamp_cost spec.min_tpm ≤ℤ out.got_tpm)
        × (out.got_tpm ≤ℤ remaining_int tpm.tokens)
        × ((borrow s now key limits spec).0 ≡ record s {
          rpm = save_bucket s.rpm (bucket_key key) (less rpm out.got_rpm);
          tpm = save_bucket s.tpm (bucket_key key) (less tpm out.got_tpm);
        })
  unfolding borrow borrow_classic_locked
  borrow_lends out e yes_it_is =
      let (hr, ht) = borrow_granted.0 (granted_of out e yes_it_is) in
      let (ra, rb, _) =
        want_got_bounds (remaining_int rpm.tokens) (clamp_cost spec.min_rpm)
          (clamp_cost spec.chunk_rpm) hr in
      let (ta, tb, _) =
        want_got_bounds (remaining_int tpm.tokens) (clamp_cost spec.min_tpm)
          (clamp_cost spec.chunk_tpm) ht in
      let lr =
        lent s.rpm (bucket_key key) limits.requests_per_minute (unix_milli now) sound.rpm p cr
          got_rpm (omega (arith, clamp_cost_parts spec.min_rpm)) rb in
      let lt =
        lent s.tpm (bucket_key key) limits.tokens_per_minute (unix_milli now) sound.tpm p ct got_tpm
          (omega (arith, clamp_cost_parts spec.min_tpm)) tb in
      ground (arith, ra, rb, ta, tb, lr, lt)

-- A loan that is refused, by a bucket or by an error, takes nothing, in either mode.
pub borrow_refused :
    (s : Store) (now : ℕ) (key : Key) (limits : Limits) (spec : BorrowSpec)
    → was_granted (borrow s now key limits spec).1 ≡ false
    → (borrow s now key limits spec).0 ≡ s
unfolding borrow borrow_classic_locked borrow_split_locked
borrow_refused s now key limits spec h = ground arith
