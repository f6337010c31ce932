-- ===== src/Memory/Tests.antt =====
-- Runs of the memory store of pkg/store/memory/memory.go.
mod Settling
mod Lending
use valve.Common.{
  ℕ, ◌≤◌, ◌<◌, ℤ, pos, ◌≤ℤ◌, ◌+ℤ◌, ◌-ℤ◌, min_ℤ, ◌≡◌, refl, ◌≢◌, ◌↔◌, ◌⊎◌, arith, true, false, Bytes,
  [], ◌∷◌, Option, none, some, if◌then◌else◌, ◌*◌, ◌+◌, List,
}
use valve.Api.{Key, Limits, Cost, Decision, Result, ok, err, Error, LimitType, split}
use valve.Bucket
use valve.Bucket.{scale, clamp_cost, remaining_int}
use valve.Bucket.Consume.{Fits}
use valve.Store.{BorrowSpec, BorrowResult}
use valve.Memory.State.{
  Store, Reservation, Status, new, purge_expired, unix_milli, bucket_key, save_bucket,
}
use valve.Memory.Check.{check}
use valve.Memory.Settle.{settle, settle_io}
use valve.Memory.Refund.{refund}
use valve.Memory.Borrow.{borrow}
use valve.Memory.History.{Call, step}
use valve.Memory.Admission.{was_allowed, check_refused}
use valve.Memory.Exact.{
  IsWellFormed, rpm_bucket, tpm_bucket, itpm_bucket, otpm_bucket, after_classic, after_split,
  classic_reservation, split_reservation, classic_admission, classic_effect, classic_limit_type,
  split_admission, split_effect,
}
use valve.Memory.Lifecycle.{live, settle_final, settle_io_final, refund_final}
use valve.Memory.Final.{step_keeps_final}
use valve.Memory.Rate
use valve.Memory.Rate.{granted_all, elapsed, check_rate}
use valve.Memory.State.{bucket_key}
use valve.Memory.Valid.{IsValid}
use valve.Bucket.Whole.{IsWholeRate, AllWhole}
use valve.Memory.Valid.Calls.{Reach, step-IsValid, Reach-IsValid}
use valve.Memory.Accounts.{settle_credits, settle_debits}
use valve.Memory.Loans.{was_granted, borrow_granted, borrow_lends, borrow_refused}

abbrev key : Key
key = record { subject = b'a' ∷ []; model = [] }

abbrev classic : Limits
classic = record {
  requests_per_minute = pos 2;
  tokens_per_minute = pos 100;
  input_tokens_per_minute = pos 0;
  output_tokens_per_minute = pos 0;
}

abbrev parts : Limits
parts = record {
  requests_per_minute = pos 2;
  tokens_per_minute = pos 0;
  input_tokens_per_minute = pos 50;
  output_tokens_per_minute = pos 40;
}

abbrev cost : Cost
cost = record { requests = pos 1; tokens = pos 60; input_tokens = pos 20; output_tokens = pos 10 }

abbrev id : Bytes
id = b'x' ∷ []

-- One second after 1970, in nanoseconds.
abbrev t : ℕ
t = 1000000000

abbrev s1 : Store
s1 = step new t (Call.checks key classic cost id)

abbrev s2 : Store
s2 = step new t (Call.checks key parts cost id)

new-IsValid : IsValid 0 new
new-IsValid = Reach-IsValid (Reach.start 0)

step-IsValid_example : IsValid (unix_milli t) (step new t (Call.checks key classic cost id))
step-IsValid_example =
    step-IsValid new 0 t (Call.checks key classic cost id) new-IsValid (omega arith) tt

-- A limit of so many a second.
rate : (k : ℕ) → 60 * k < 1000000000000 → IsWholeRate (pos (60 * k))
rate k h = record {
  per_second = k;
  is_rate = refl;
  small = record { above = h; below = omega arith };
}

abbrev minutely : Limits
minutely = record classic { requests_per_minute = pos 60; tokens_per_minute = pos 6000 }

minutely_whole : AllWhole minutely
minutely_whole = record {
  requests = rate 1 (omega arith);
  tokens = rate 100 (omega arith);
  input_tokens = rate 0 (omega arith);
  output_tokens = rate 0 (omega arith);
}

abbrev checked : Store
checked = step new t (Call.checks key minutely cost id)

history : Reach (unix_milli t) (step checked t (Call.settles id (pos 70)))
history =
    Reach.next
      (Reach.next (Reach.start 0) t (Call.checks key minutely cost id) (omega arith) tt refl
        minutely_whole)
      t (Call.settles id (pos 70)) (omega arith) tt refl tt

Reach-IsValid_example : IsValid (unix_milli t) (step checked t (Call.settles id (pos 70)))
Reach-IsValid_example = Reach-IsValid history

classic-IsWellFormed : IsWellFormed key classic id
unfolding valve.Api.is_partial
classic-IsWellFormed = record { whole = refl; named = refl; numbered = refl }

parts-IsWellFormed : IsWellFormed key parts id
unfolding valve.Api.is_partial
parts-IsWellFormed = record { whole = refl; named = refl; numbered = refl }

classic_whole : split classic ≡ false
unfolding split
classic_whole = refl

parts-split : split parts ≡ true
unfolding split
parts-split = refl

s1-IsValid : IsValid (unix_milli t) s1
s1-IsValid = step-IsValid new 0 t (Call.checks key classic cost id) new-IsValid (omega arith) tt

new-IsValid_now : IsValid (unix_milli t) new
new-IsValid_now = Reach-IsValid (Reach.start (unix_milli t))

new_allows : was_allowed (check new t key classic cost id).1 ≡ true
unfolding check valve.Api.is_partial split valve.Memory.Check.check_classic_locked
    Bucket.try_consume Bucket.lacks Bucket.nanos Bucket.refill valve.Memory.State.load_bucket
    purge_expired min_ℤ scale ◌+ℤ◌
new_allows = refl

new_allows_parts : was_allowed (check new t key parts cost id).1 ≡ true
unfolding check valve.Api.is_partial split valve.Memory.Check.check_split_locked Bucket.try_consume
    Bucket.lacks Bucket.nanos Bucket.refill valve.Memory.State.load_bucket purge_expired min_ℤ scale
    ◌+ℤ◌
new_allows_parts = refl

classic_admission_example :
    (was_allowed (check s1 t key classic cost id).1 ≡ true)
    ↔ (Fits (rpm_bucket s1 t key classic) (pos 1) × Fits (tpm_bucket s1 t key classic) (pos 60))
classic_admission_example =
    classic_admission s1 t key classic cost id (omega arith) s1-IsValid.buckets classic-IsWellFormed
      classic_whole

classic_effect_example :
    (check new t key classic cost id).0 ≡ after_classic new t key classic cost id
classic_effect_example =
    classic_effect new t key classic cost id (omega arith) new-IsValid_now.buckets
      classic-IsWellFormed classic_whole new_allows

split_admission_example : (was_allowed (check new t key parts cost id).1 ≡ true) ↔ (
    Fits (rpm_bucket new t key parts) (pos 1)
    × Fits (itpm_bucket new t key parts) (pos 20)
    × Fits (otpm_bucket new t key parts) (pos 10))
split_admission_example =
    split_admission new t key parts cost id (omega arith) new-IsValid_now.buckets parts-IsWellFormed
      parts-split

-- A second request of sixty tokens does not fit what the first one left.
s1_refuses : was_allowed (check s1 t key classic cost id).1 ≡ false
unfolding check valve.Api.is_partial split valve.Memory.Check.check_classic_locked
    Bucket.try_consume Bucket.lacks Bucket.nanos Bucket.refill valve.Memory.State.load_bucket
    purge_expired step min_ℤ scale ◌+ℤ◌ save_bucket valve.Common.bytes_eq bucket_key ◌-ℤ◌
s1_refuses = refl

check_refused_example : (check s1 t key classic cost id).0 ≡ purge_expired s1 t
unfolding purge_expired valve.Api.is_partial
check_refused_example = check_refused s1 t key classic cost id s1_refuses

-- Three requests in half a minute, of which the last one is refused, and one of another subject.
abbrev metered : List Rate.Event
metered =
    (1000000000, Call.checks key classic cost (b'y' ∷ []))
    ∷ (1000000000, Call.settles (b'y' ∷ []) (pos 0))
    ∷ (1500000000, Call.checks (record { subject = b'b' ∷ []; model = [] }) parts cost id)
    ∷ (31000000000, Call.checks key classic cost (b'z' ∷ []))
    ∷ []

check_rate_example :
    60000 * granted_all (bucket_key key) s1 metered ≤ (60000 + elapsed 1000 metered) * 2
check_rate_example =
    check_rate (bucket_key key) (pos 2) (omega arith) metered s1 1000 (omega arith) s1-IsValid (
      omega arith,
      λ e. refl,
      (omega arith, tt, (omega arith, λ e. refl, (omega arith, λ e. refl, tt))),
    )
