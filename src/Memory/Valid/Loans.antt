-- ===== src/Memory/Valid/Loans.antt =====
-- `Borrow` and `Return` of the memory store keep the invariant.
use valve.Common.{ℕ, ℤ, pos, ◌≤ℤ◌, arith, Bytes, Map, Bool-cases, inl, inr}
use valve.Api.{Key, Limits, split}
use valve.Bucket.{try_consume, remaining_int}
use valve.Store.{BorrowSpec}
use valve.Memory.State.{Store, BucketState, load_bucket, save_bucket, bucket_key, unix_milli}
use valve.Memory.Borrow.{borrow, borrow_classic_locked, borrow_split_locked, want_got, clamp_spec}
use valve.Memory.Return.{return_credits, return_buckets}
use valve.Memory.Valid.{IsValid, consumed, credited}

borrow_cases :
    (P : Store → Type 0) (s : Store) (now : ℕ) (key : Key) (limits : Limits) (spec : BorrowSpec)
    → P s
    → P (borrow_classic_locked s key limits (clamp_spec spec) (unix_milli now)).0
    → P (borrow_split_locked s key limits (clamp_spec spec) (unix_milli now)).0
    → P (borrow s now key limits spec).0
unfolding borrow
borrow_cases P s now key limits spec a b c = ground arith

-- The store after a loan was granted, whatever the amounts.
module _ (P : Store → Type 0) (s : Store) (key : Key) (limits : Limits) (spec : BorrowSpec)
    (now_ms : ℕ) where
  abbrev k : Bytes
  k = bucket_key key

  abbrev lent : Map BucketState → ℤ → ℤ → Map BucketState
  lent m capacity got = save_bucket m k (try_consume (load_bucket m k capacity now_ms) now_ms got).0

  borrow_classic_cases :
      P s
      → ((x y : ℤ)
          → P (record s {
            rpm = lent s.rpm limits.requests_per_minute x;
            tpm = lent s.tpm limits.tokens_per_minute y;
          }))
      → P (borrow_classic_locked s key limits spec now_ms).0
  unfolding borrow_classic_locked
  borrow_classic_cases a b =
      let avail =
        λ (m : Map BucketState) (c : ℤ). remaining_int (load_bucket m k c now_ms).tokens in
      ground (
        arith,
        b (want_got (avail s.rpm limits.requests_per_minute) spec.min_rpm spec.chunk_rpm)
            (want_got (avail s.tpm limits.tokens_per_minute) spec.min_tpm spec.chunk_tpm),
      )

  borrow_split_cases :
      P s
      → ((x y z : ℤ)
          → P (record s {
            rpm = lent s.rpm limits.requests_per_minute x;
            itpm = lent s.itpm limits.input_tokens_per_minute y;
            otpm = lent s.otpm limits.output_tokens_per_minute z;
          }))
      → P (borrow_split_locked s key limits spec now_ms).0
  unfolding borrow_split_locked
  borrow_split_cases a b =
      let avail =
        λ (m : Map BucketState) (c : ℤ). remaining_int (load_bucket m k c now_ms).tokens in
      ground (
        arith,
        b (want_got (avail s.rpm limits.requests_per_minute) spec.min_rpm spec.chunk_rpm)
            (want_got (avail s.itpm limits.input_tokens_per_minute) spec.min_itpm spec.chunk_itpm)
            (want_got (avail s.otpm limits.output_tokens_per_minute) spec.min_otpm spec.chunk_otpm),
      )

-- No limit is negative.
pub record IsNonneg (limits : Limits) : Type 0 where
  pub requests : pos 0 ≤ℤ limits.requests_per_minute
  pub tokens : pos 0 ≤ℤ limits.tokens_per_minute
  pub input : pos 0 ≤ℤ limits.input_tokens_per_minute
  pub output : pos 0 ≤ℤ limits.output_tokens_per_minute

module _ (s : Store) (now : ℕ) (key : Key) (limits : Limits) (v : IsValid (unix_milli now) s) where
  abbrev n : ℕ
  n = unix_milli now

  abbrev j : Bytes
  j = bucket_key key

  pub borrow-IsValid :
      (spec : BorrowSpec) → IsValid (unix_milli now) (borrow s now key limits spec).0
  borrow-IsValid spec =
      borrow_cases (λ r. IsValid n r) s now key limits spec v
        (borrow_classic_cases (λ r. IsValid n r) s key limits (clamp_spec spec) n v
          λ x y. record {
            buckets = record {
              rpm = consumed s.rpm j limits.requests_per_minute n v.buckets.rpm x;
              tpm = consumed s.tpm j limits.tokens_per_minute n v.buckets.tpm y;
              itpm = v.buckets.itpm;
              otpm = v.buckets.otpm;
            };
            payable = v.payable;
          })
        (borrow_split_cases (λ r. IsValid n r) s key limits (clamp_spec spec) n v
          λ x y z. record {
            buckets = record {
              rpm = consumed s.rpm j limits.requests_per_minute n v.buckets.rpm x;
              tpm = v.buckets.tpm;
              itpm = consumed s.itpm j limits.input_tokens_per_minute n v.buckets.itpm y;
              otpm = consumed s.otpm j limits.output_tokens_per_minute n v.buckets.otpm z;
            };
            payable = v.payable;
          })

  return_buckets-IsValid :
      (a b c d : ℤ) → IsNonneg limits → IsValid n (return_buckets s key limits a b c d n)
  unfolding return_buckets
  return_buckets-IsValid a b c d h =
      let rpm = credited s.rpm j limits.requests_per_minute n v.buckets.rpm a h.requests in
      let tpm = credited s.tpm j limits.tokens_per_minute n v.buckets.tpm b h.tokens in
      let itpm = credited s.itpm j limits.input_tokens_per_minute n v.buckets.itpm c h.input in
      let otpm = credited s.otpm j limits.output_tokens_per_minute n v.buckets.otpm d h.output in
      elim (Bool-cases (split limits)) [
        | inl two ↦
            rw (two, return_buckets)
              (record {
                buckets = record { rpm = rpm; tpm = v.buckets.tpm; itpm = itpm; otpm = otpm };
                payable = v.payable;
              })
        | inr one ↦
            rw (one, return_buckets)
              (record {
                buckets = record {
                  rpm = rpm;
                  tpm = tpm;
                  itpm = v.buckets.itpm;
                  otpm = v.buckets.otpm;
                };
                payable = v.payable;
              })
      ]

  return_cases :
      (P : Store → Type 0) (a b c d : ℤ)
      → P s
      → P (return_buckets s key limits a b c d n)
      → P (return_credits s now key limits a b c d).0
  unfolding return_credits
  return_cases P a b c d x y = ground arith

  pub return-IsValid :
      (a b c d : ℤ)
      → IsNonneg limits
      → IsValid (unix_milli now) (return_credits s now key limits a b c d).0
  return-IsValid a b c d h =
      return_cases (λ r. IsValid n r) a b c d v (return_buckets-IsValid a b c d h)
