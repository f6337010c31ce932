-- ===== src/Memory/Rate.antt =====
-- The rate of requests that pkg/store/memory/memory.go admits at one bucket.
pub mod Loads
pub mod Calls
use valve.Common.{
  ℕ, ◌+◌, ◌-◌, ◌*◌, ◌≤◌, ◌<◌, ℤ, pos, pos_part, neg_part, ◌≤ℤ◌, ◌<ℤ◌, ◌-ℤ◌, ◌≡◌, refl, sym, ap, ◌∙◌,
  ◌≢◌, arith, Bool, true, false, ◌&&◌, Bool-cases, Option-cases, inl, inr, Bytes, bytes_eq,
  bytes_eq_sound, bytes_eq_refl, Map, Option, none, some, List, [], ◌∷◌, if◌then◌else◌,
}
use valve.Api.{Key, Limits, Cost, is_partial, split}
use valve.Bucket
use valve.Bucket.{State, refill, scale, clamp_cost}
use valve.Bucket.Arith.{token_laws}
use valve.Bucket.Consume.{Fits}
use valve.Bucket.Refill.{refill_later, refill-refill}
use valve.Bucket.Rate.{IsRunning}
use valve.Memory.State.{
  Store, BucketState, bucket_key, load_bucket, save_bucket, stored, purge_expired, unix_milli, new,
}
use valve.Memory.Check.{check}
use valve.Memory.Settle.{
  settle, settle_io, settle_found, settle_pending, settle_io_found, settle_io_pending,
}
use valve.Memory.History.{Call, step}
use valve.Memory.Buckets.{
  AllSound, stored_sound, load_bucket-capacity, load_bucket-last_ms, load_bucket-IsBounded,
  load_bucket-save_bucket, save_bucket_ne,
}
use valve.Memory.Admission.{was_allowed, taken, check_refused}
use valve.Memory.Exact.{
  IsWellFormed, IsSoundStore, rpm_bucket, classic_admission, classic_effect, split_admission,
  split_effect,
}
use valve.Memory.Lifecycle.{live, settle-missing, settle-found, settle_io-missing, settle_io-found}
use valve.Memory.Valid.{IsValid, IsSoundStore-later}
use valve.Memory.Valid.Calls.{step-IsValid, IsSane}
use valve.Memory.Rate.Loads.{load_gain, paid_loss, load_same}
use valve.Memory.Rate.Calls.{settle-rpm, settle_io-rpm, refused-rpm, allowed-rpm}

-- The calls in question: `Settle`, `SettleIO`, and checks under any key, but under the capacity
-- where they meet the bucket.
abbrev pub IsMetered : Bytes → ℤ → Call → Type 0
IsMetered k capacity (Call.checks key limits cost id) =
    bucket_key key ≡ k → limits.requests_per_minute ≡ capacity
IsMetered k capacity (Call.settles id x) = Unit {0}
IsMetered k capacity (Call.settles_io id x y) = Unit {0}
IsMetered k capacity c = ⊥

-- The requests that a call is granted from the bucket k.
abbrev pub granted : Bytes → Store → ℕ → Call → ℕ
granted k s now (Call.checks key limits cost id) =
    if bytes_eq (bucket_key key) k && was_allowed (check s now key limits cost id).1
    then pos_part cost.requests
    else 0
granted k s now c = 0

-- A call and its time.
abbrev pub Event : Type 0
Event = ℕ × Call

abbrev pub granted_all : Bytes → Store → List Event → ℕ
granted_all k s [] = 0
granted_all k s ((now, c) ∷ es) = granted k s now c + granted_all k (step s now c) es

-- The clock does not go back, and every call is metered.
abbrev pub AreMetered : Bytes → ℤ → ℕ → List Event → Type 0
AreMetered k capacity t [] = Unit {0}
AreMetered k capacity t ((now, c) ∷ es) =
    (t ≤ unix_milli now) × IsMetered k capacity c × AreMetered k capacity (unix_milli now) es

-- The milliseconds from t to the last call.
abbrev pub elapsed : ℕ → List Event → ℕ
elapsed t [] = 0
elapsed t ((now, c) ∷ es) = (unix_milli now - t) + elapsed (unix_milli now) es

apart : (a b : Bytes) → bytes_eq a b ≡ false → a ≢ b
apart a b h e = ground (arith, bytes_eq_refl a)

and_false : (b : Bool) → b && false ≡ false
and_false true = refl
and_false false = refl

sum_within :
    (a b g n d e r : ℕ)
    → b + 60000 * g ≤ a + d * r
    → 60000 * n ≤ b + e * r
    → 60000 * (g + n) ≤ a + (d + e) * r
sum_within a b g n d e r h j = grind arith

full_within : (n a e r : ℕ) → 60000 * n ≤ a + e * r → a ≤ 60000 * r → 60000 * n ≤ (60000 + e) * r
full_within n a e r h j = grind arith

module _ (k : Bytes) (capacity : ℤ) (on : pos 0 <ℤ capacity) where
  abbrev tokens : Store → ℕ → ℕ
  tokens s t = pos_part (load_bucket s.rpm k capacity t).tokens

  module _ (s : Store) (t now : ℕ) (p : 0 < t) (le : t ≤ unix_milli now) (v : IsValid t s) where
    abbrev u : ℕ
    u = unix_milli now

    abbrev gain : ℕ
    gain = (u - t) * pos_part capacity

    loaded : tokens s u ≤ tokens s t + gain
    loaded = load_gain k capacity on s.rpm t u p le v.buckets.rpm

    -- A call that leaves the bucket alone.
    untouched : (s' : Store) → s'.rpm k ≡ s.rpm k → tokens s' u + 60000 * 0 ≤ tokens s t + gain
    untouched s' e = rw (load_same k capacity on s'.rpm s.rpm u e) (omega (arith, loaded))

    paid :
        (key : Key) (limits : Limits) (cost : Cost) (id : Bytes)
        → bucket_key key ≡ k
        → limits.requests_per_minute ≡ capacity
        → was_allowed (check s now key limits cost id).1 ≡ true
        → tokens (check s now key limits cost id).0 u + 60000 * pos_part cost.requests
          ≤ tokens s t + gain
    paid key limits cost id ek ec yes_it_is =
        let sound = IsSoundStore-later s t u le v.buckets in
        let (fits, e) = allowed-rpm s now key limits cost id (omega arith) sound yes_it_is in
        let less : tokens (check s now key limits cost id).0 u + 60000 * pos_part cost.requests
            ≤ tokens s u =
          rw (e, ek, ec)
            (paid_loss k capacity on s.rpm u cost.requests (omega arith) sound.rpm
              (rw (ek, ec) at fits)) in
        omega (arith, less, loaded)

    other :
        (key : Key) (limits : Limits) (cost : Cost) (id : Bytes)
        → bucket_key key ≢ k
        → was_allowed (check s now key limits cost id).1 ≡ true
        → (check s now key limits cost id).0.rpm k ≡ s.rpm k
    other key limits cost id ne yes_it_is =
        let (fits, e) =
          allowed-rpm s now key limits cost id (omega arith) (IsSoundStore-later s t u le v.buckets)
            yes_it_is in
        rw e (save_bucket_ne s.rpm (bucket_key key) k _ ne)

    check_within :
        (key : Key) (limits : Limits) (cost : Cost) (id : Bytes)
        → IsMetered k capacity (Call.checks key limits cost id)
        → tokens (check s now key limits cost id).0 u
            + 60000 * granted k s now (Call.checks key limits cost id)
          ≤ tokens s t + gain
    check_within key limits cost id m =
        elim (Bool-cases (was_allowed (check s now key limits cost id).1)) [
          | inr refused ↦
              rw (refused, and_false (bytes_eq (bucket_key key) k))
                (untouched (check s now key limits cost id).0
                  (ap (λ f. f k) (refused-rpm s now key limits cost id refused)))
          | inl yes_it_is ↦ elim (Bool-cases (bytes_eq (bucket_key key) k)) [
            | inl hit ↦
                let e = bytes_eq_sound (bucket_key key) k hit in
                rw (yes_it_is, hit) (paid key limits cost id e (m e) yes_it_is)
            | inr miss ↦
                rw (yes_it_is, miss)
                  (untouched (check s now key limits cost id).0
                    (other key limits cost id (apart (bucket_key key) k miss) yes_it_is))
          ]
        ]

    step_within :
        (c : Call)
        → IsMetered k capacity c
        → tokens (step s now c) u + 60000 * granted k s now c ≤ tokens s t + gain
    unfolding step
    step_within (Call.checks key limits cost id) m = check_within key limits cost id m
    step_within (Call.settles id x) m =
        untouched (settle s now id x).0 (ap (λ f. f k) (settle-rpm s now id x))
    step_within (Call.settles_io id x y) m =
        untouched (settle_io s now id x y).0 (ap (λ f. f k) (settle_io-rpm s now id x y))
    step_within (Call.refunds id) m = elim m [ ]
    step_within (Call.borrows key limits spec) m = elim m [ ]
    step_within (Call.returns key limits a b d e) m = elim m [ ]

    IsSane-metered : (c : Call) → IsMetered k capacity c → IsSane c
    IsSane-metered (Call.checks key limits cost id) m = tt
    IsSane-metered (Call.settles id x) m = tt
    IsSane-metered (Call.settles_io id x y) m = tt
    IsSane-metered (Call.refunds id) m = elim m [ ]
    IsSane-metered (Call.borrows key limits spec) m = elim m [ ]
    IsSane-metered (Call.returns key limits a b d e) m = elim m [ ]

  -- What is granted is no more than what the bucket held at first and gained since.
  granted_within :
      (es : List Event) (s : Store) (t : ℕ)
      → 0 < t
      → IsValid t s
      → AreMetered k capacity t es
      → 60000 * granted_all k s es ≤ tokens s t + elapsed t es * pos_part capacity
  granted_within [] s t p v m = omega arith
  granted_within ((now, c) ∷ es) s t p v (le, m, ms) =
      let u : ℕ = unix_milli now in
      let v' = step-IsValid s t now c v le (IsSane-metered s t now p le v c m) in
      let rest = granted_within es (step s now c) u (omega arith) v' ms in
      let one = step_within s t now p le v c m in
      sum_within _ _ _ _ _ _ (pos_part capacity) one rest

  loaded_full : (s : Store) (t : ℕ) → IsValid t s → tokens s t ≤ 60000 * pos_part capacity
  loaded_full s t v =
      let capped : (load_bucket s.rpm k capacity t).tokens ≤ℤ scale capacity =
        rw (load_bucket-capacity s.rpm k capacity t) at
          (load_bucket-IsBounded s.rpm k capacity t v.buckets.rpm (omega arith)).capped in
      grind token_laws

  -- Whatever row of `Check`, `Settle` and `SettleIO` calls comes to a valid store, from a time
  -- past the first millisecond of 1970 on and without the clock going back, where the checks
  -- under the keys of one bucket of requests all have the same positive limit: the requests that
  -- they are granted within m milliseconds are at most the limit and the share m / 60000 of it.
  pub check_rate :
      (es : List Event) (s : Store) (t : ℕ)
      → 0 < t
      → IsValid t s
      → AreMetered k capacity t es
      → 60000 * granted_all k s es ≤ (60000 + elapsed t es) * pos_part capacity
  check_rate es s t p v m =
      full_within _ _ _ (pos_part capacity) (granted_within es s t p v m) (loaded_full s t v)
