-- ===== src/Memory/Valid/Checks.antt =====
-- `Check` of the memory store keeps the invariant.
use valve.Common.{ℕ, ℤ, pos, ◌≤ℤ◌, ◌≡◌, arith, Bool, true, Bytes, Map, Bool-cases, inl, inr}
use valve.Api.{Key, Limits, Cost}
use valve.Bucket.{try_consume, clamp_cost}
use valve.Bucket.Arith.{clamp_cost_parts}
use valve.Bucket.Refill.{refill-capacity}
use valve.Bucket.Consume.{try_consume_allowed}
use valve.Memory.State.{Store, BucketState, purge_expired, load_bucket, bucket_key, unix_milli}
use valve.Memory.Buckets.{load_bucket-capacity}
use valve.Memory.Check.{check, check_classic_locked, check_split_locked, clamp_all}
use valve.Memory.Valid.{IsValid, insert-AllPayable, purge-AllPayable, consumed}

-- A bucket that allows a cost has no negative capacity.
allowed-capacity :
    (m : Map BucketState) (k : Bytes) (capacity : ℤ) (now_ms : ℕ) (cost : ℤ)
    → (try_consume (load_bucket m k capacity now_ms) now_ms cost).1.allowed ≡ true
    → pos 0 ≤ℤ capacity
allowed-capacity m k capacity now_ms cost e =
    let b = load_bucket m k capacity now_ms in
    omega (
      arith,
      clamp_cost_parts cost,
      rw (refill-capacity b now_ms, load_bucket-capacity m k capacity now_ms) at
          ((try_consume_allowed b now_ms cost).0 e).0,
    )

module _ (s : Store) (key : Key) (limits : Limits) (cost : Cost) (id : Bytes) (now now_ms : ℕ)
    (v : IsValid now_ms s) where
  abbrev k : Bytes
  k = bucket_key key

  abbrev ask : Map BucketState → ℤ → ℤ → Bool
  ask m capacity c = (try_consume (load_bucket m k capacity now_ms) now_ms c).1.allowed

  classic-IsValid :
      pos 0 ≤ℤ cost.requests
      → pos 0 ≤ℤ cost.tokens
      → IsValid now_ms (check_classic_locked s key limits cost id now now_ms).0
  unfolding check_classic_locked
  classic-IsValid cr ct = elim (Bool-cases (ask s.rpm limits.requests_per_minute cost.requests)) [
    | inr refused ↦ rw (refused, check_classic_locked) v
    | inl r ↦ elim (Bool-cases (ask s.tpm limits.tokens_per_minute cost.tokens)) [
      | inr refused ↦ rw (r, check_classic_locked) (rw (refused, check_classic_locked) v)
      | inl t ↦
          rw (r, check_classic_locked)
            (rw (t, check_classic_locked)
              (record {
                buckets = record {
                  itpm = v.buckets.itpm;
                  otpm = v.buckets.otpm;
                  rpm =
                      consumed s.rpm k limits.requests_per_minute now_ms v.buckets.rpm
                        cost.requests;
                  tpm = consumed s.tpm k limits.tokens_per_minute now_ms v.buckets.tpm cost.tokens;
                };
                payable = insert-AllPayable s.res id _ v.payable (
                    omega (
                      arith,
                      allowed-capacity s.rpm k limits.requests_per_minute now_ms cost.requests r,
                      allowed-capacity s.tpm k limits.tokens_per_minute now_ms cost.tokens t,
                    ));
              }))
    ]
  ]

  split-IsValid :
      pos 0 ≤ℤ cost.requests
      → pos 0 ≤ℤ cost.input_tokens
      → pos 0 ≤ℤ cost.output_tokens
      → IsValid now_ms (check_split_locked s key limits cost id now now_ms).0
  unfolding check_split_locked
  split-IsValid cr ci co = elim (Bool-cases (ask s.rpm limits.requests_per_minute cost.requests)) [
    | inr refused ↦ rw (refused, check_split_locked) v
    | inl r ↦ elim (Bool-cases (ask s.itpm limits.input_tokens_per_minute cost.input_tokens)) [
      | inr refused ↦ rw (r, check_split_locked) (rw (refused, check_split_locked) v)
      | inl i ↦ elim (Bool-cases (ask s.otpm limits.output_tokens_per_minute cost.output_tokens)) [
        | inr refused ↦
            rw (r, check_split_locked)
              (rw (i, check_split_locked) (rw (refused, check_split_locked) v))
        | inl o ↦
            rw (r, check_split_locked)
              (rw (i, check_split_locked)
                (rw (o, check_split_locked)
                  (record {
                    buckets = record {
                      tpm = v.buckets.tpm;
                      rpm =
                          consumed s.rpm k limits.requests_per_minute now_ms v.buckets.rpm
                            cost.requests;
                      itpm =
                          consumed s.itpm k limits.input_tokens_per_minute now_ms v.buckets.itpm
                            cost.input_tokens;
                      otpm =
                          consumed s.otpm k limits.output_tokens_per_minute now_ms v.buckets.otpm
                            cost.output_tokens;
                    };
                    payable = insert-AllPayable s.res id _ v.payable (
                        omega (
                          arith,
                          allowed-capacity s.rpm k limits.requests_per_minute now_ms cost.requests
                              r,
                          allowed-capacity s.itpm k limits.input_tokens_per_minute now_ms
                              cost.input_tokens i,
                          allowed-capacity s.otpm k limits.output_tokens_per_minute now_ms
                              cost.output_tokens o,
                        ));
                  })))
      ]
    ]
  ]

-- The ways in which `Check` can end.
check_cases :
    (P : Store → Type 0) (s : Store) (now : ℕ) (key : Key) (limits : Limits) (cost : Cost)
    (id : Bytes)
    → P s
    → P (purge_expired s now)
    → P
        (check_classic_locked
          (purge_expired s now)
          key
          limits
          (clamp_all cost)
          id
          now
          (unix_milli now)).0
    → P
        (check_split_locked
          (purge_expired s now)
          key
          limits
          (clamp_all cost)
          id
          now
          (unix_milli now)).0
    → P (check s now key limits cost id).0
unfolding check
check_cases P s now key limits cost id a b c d = ground arith

clamped : (n : ℤ) → pos 0 ≤ℤ clamp_cost n
clamped n = omega (arith, clamp_cost_parts n)

module _ (s : Store) (now : ℕ) (v : IsValid (unix_milli now) s) where
  pub purge-IsValid : IsValid (unix_milli now) (purge_expired s now)
  unfolding purge_expired
  purge-IsValid = record {
    buckets = record {
      rpm = v.buckets.rpm;
      tpm = v.buckets.tpm;
      itpm = v.buckets.itpm;
      otpm = v.buckets.otpm;
    };
    payable = purge-AllPayable s now v.payable;
  }

  pub check-IsValid :
      (key : Key) (limits : Limits) (cost : Cost) (id : Bytes)
      → IsValid (unix_milli now) (check s now key limits cost id).0
  check-IsValid key limits cost id =
      let u = purge_expired s now in
      let c = clamp_all cost in
      check_cases (λ r. IsValid (unix_milli now) r) s now key limits cost id v purge-IsValid
        (classic-IsValid u key limits c id now (unix_milli now) purge-IsValid
          (clamped cost.requests) (clamped cost.tokens))
        (split-IsValid u key limits c id now (unix_milli now) purge-IsValid (clamped cost.requests)
          (clamped cost.input_tokens) (clamped cost.output_tokens))
