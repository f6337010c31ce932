-- ===== src/Memory/Rate/Loads.antt =====
-- What loading a bucket of pkg/store/memory/memory.go finds, by the time and by what was paid.
use valve.Common.{
  ℕ, ◌+◌, ◌-◌, ◌*◌, ◌≤◌, ◌<◌, ℤ, pos, pos_part, neg_part, ◌≤ℤ◌, ◌<ℤ◌, ◌-ℤ◌, ◌≡◌, refl, arith, Bytes,
  Map,
}
use valve.Bucket.{State, refill, scale, clamp_cost}
use valve.Bucket.Arith.{token_laws}
use valve.Bucket.Consume.{Fits}
use valve.Bucket.Refill.{refill_later, refill-refill}
use valve.Bucket.Rate.{IsRunning}
use valve.Memory.State.{BucketState, load_bucket, save_bucket}
use valve.Memory.Buckets.{
  AllSound, stored_sound, load_bucket-capacity, load_bucket-last_ms, load_bucket-IsBounded,
  load_bucket-save_bucket,
}
use valve.Memory.Admission.{taken}

-- A refill gains no more than the time brings.
refill_gain :
    (st : State) (u : ℕ)
    → IsRunning st
    → st.last_ms ≤ u
    → pos_part (refill st u).tokens ≤ pos_part st.tokens + (u - st.last_ms) * pos_part st.capacity
refill_gain st u v le = rw (refill_later st u v.on v.started le) (grind token_laws)

no_gain : (a n d r : ℕ) → d ≡ 0 → a ≤ n + d * r → a ≤ n
no_gain a n d r e h = grind arith

left_nonneg :
    (x cost : ℤ) → scale (clamp_cost cost) ≤ℤ x → neg_part (x -ℤ scale (clamp_cost cost)) ≡ 0
left_nonneg x cost h = grind token_laws

paid_less :
    (x cost : ℤ) (n : ℕ)
    → scale (clamp_cost cost) ≤ℤ x
    → neg_part x ≡ 0
    → n ≤ pos_part (x -ℤ scale (clamp_cost cost))
    → n + 60000 * pos_part cost ≤ pos_part x
paid_less x cost n h nonneg le = grind token_laws

module _ (k : Bytes) (capacity : ℤ) (c : pos 0 <ℤ capacity) where
  load_bucket-IsRunning :
      (m : Map BucketState) (t : ℕ) → 0 < t → AllSound t m → IsRunning (load_bucket m k capacity t)
  load_bucket-IsRunning m t p sound = record {
    on = rw (load_bucket-capacity m k capacity t) c;
    started = rw (load_bucket-last_ms m k capacity t) p;
    nonneg = (load_bucket-IsBounded m k capacity t sound (omega arith)).nonneg;
  }

  reload :
      (m : Map BucketState) (t u : ℕ)
      → 0 < t
      → t ≤ u
      → AllSound t m
      → refill (load_bucket m k capacity t) u ≡ load_bucket m k capacity u
  unfolding load_bucket
  reload m t u p le sound = refill-refill _ t u p le (stored_sound t (m k) capacity (sound k)).1

  -- Loading a bucket later finds no more than it held and gained.
  pub load_gain :
      (m : Map BucketState) (t u : ℕ)
      → 0 < t
      → t ≤ u
      → AllSound t m
      → pos_part (load_bucket m k capacity u).tokens
        ≤ pos_part (load_bucket m k capacity t).tokens + (u - t) * pos_part capacity
  load_gain m t u p le sound =
      let l = load_bucket-last_ms m k capacity t in
      rw (reload m t u p le sound, load_bucket-capacity m k capacity t, l) at
        (refill_gain (load_bucket m k capacity t) u (load_bucket-IsRunning m t p sound)
          (omega (arith, l)))

  -- A bucket that paid a cost which fits it, and is loaded again at the same time, holds that much
  -- less.
  pub paid_loss :
      (m : Map BucketState) (u : ℕ) (cost : ℤ)
      → 0 < u
      → AllSound u m
      → Fits (load_bucket m k capacity u) cost
      → pos_part
            (load_bucket
              (save_bucket m k (taken (load_bucket m k capacity u) cost))
              k
              capacity
              u).tokens
          + 60000 * pos_part cost
        ≤ pos_part (load_bucket m k capacity u).tokens
  paid_loss m u cost p sound fits =
      let l = load_bucket m k capacity u in
      let e : l.last_ms ≡ u = load_bucket-last_ms m k capacity u in
      let st : State = record (taken l cost) { capacity = capacity } in
      let n = (load_bucket-IsBounded m k capacity u sound (omega arith)).nonneg in
      let gain =
        refill_gain st u
          (record { on = c; started = omega (arith, e); nonneg = left_nonneg l.tokens cost fits.1 })
          (omega (arith, e)) in
      rw (load_bucket-save_bucket m k (taken l cost) capacity u (omega (arith, e))) (
        paid_less l.tokens cost _ fits.1 n
          (no_gain _ _ (u - l.last_ms) (pos_part capacity) (omega (arith, e)) gain))

  -- Only the bucket's own entry matters.
  pub load_same :
      (m n : Map BucketState) (u : ℕ)
      → m k ≡ n k
      → load_bucket m k capacity u ≡ load_bucket n k capacity u
  unfolding load_bucket
  load_same m n u e = rw e refl
