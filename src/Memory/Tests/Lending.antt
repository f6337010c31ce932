-- ===== src/Memory/Tests/Lending.antt =====
-- Runs of `Borrow` of pkg/store/memory/memory.go.
use valve.Common.{pos, ◌≤ℤ◌, ◌≡◌, refl, ◌↔◌, arith, true, false}
use valve.Api.{LimitType, ok}
use valve.Bucket.{clamp_cost, remaining_int}
use valve.Store.{BorrowSpec, BorrowResult}
use valve.Memory.State.{new, bucket_key, save_bucket}
use valve.Memory.Borrow.{borrow}
use valve.Memory.Exact.{rpm_bucket, tpm_bucket}
use valve.Memory.Loans.{was_granted, borrow_granted, borrow_lends, less}
use valve.Memory.Tests.{key, classic, t, new-IsValid_now, classic_whole, classic-IsWellFormed}

-- A chunk of fifty tokens, of which at least ten are needed.
abbrev spec : BorrowSpec
spec = record {
  min_rpm = pos 1;
  min_tpm = pos 10;
  min_itpm = pos 0;
  min_otpm = pos 0;
  chunk_rpm = pos 1;
  chunk_tpm = pos 50;
  chunk_itpm = pos 0;
  chunk_otpm = pos 0;
}

abbrev loan : BorrowResult
loan = record {
  allowed = true;
  limit_type = LimitType.unlimited;
  got_rpm = pos 1;
  got_tpm = pos 50;
  got_itpm = pos 0;
  got_otpm = pos 0;
  remaining_rpm = pos 1;
  remaining_tpm = pos 50;
  remaining_itpm = pos 0;
  remaining_otpm = pos 0;
  retry_after = 0;
  limit_rpm = pos 2;
  limit_tpm = pos 100;
  limit_itpm = pos 0;
  limit_otpm = pos 0;
}

new_lends : (borrow new t key classic spec).1 ≡ ok loan
unfolding borrow valve.Api.is_partial valve.Api.split valve.Memory.Borrow.borrow_classic_locked
    remaining_int valve.Memory.State.load_bucket valve.Bucket.refill valve.Bucket.scale clamp_cost
    valve.Memory.Borrow.want_got valve.Bucket.try_consume valve.Bucket.lacks valve.Bucket.nanos
    valve.Common.min_ℤ valve.Common.◌+ℤ◌ valve.Common.◌-ℤ◌
new_lends = refl

borrow_granted_example : (was_granted (borrow new t key classic spec).1 ≡ true) ↔ (
    (clamp_cost (pos 1) ≤ℤ remaining_int (rpm_bucket new t key classic).tokens)
    × (clamp_cost (pos 10) ≤ℤ remaining_int (tpm_bucket new t key classic).tokens))
borrow_granted_example =
    borrow_granted new t key classic spec (omega arith) new-IsValid_now.buckets
      classic-IsWellFormed.whole refl classic_whole (omega arith) (omega arith)

borrow_lends_example :
    (clamp_cost (pos 1) ≤ℤ pos 1)
    × (pos 1 ≤ℤ remaining_int (rpm_bucket new t key classic).tokens)
    × (clamp_cost (pos 10) ≤ℤ pos 50)
    × (pos 50 ≤ℤ remaining_int (tpm_bucket new t key classic).tokens)
    × ((borrow new t key classic spec).0 ≡ record new {
      rpm = save_bucket new.rpm (bucket_key key) (less (rpm_bucket new t key classic) (pos 1));
      tpm = save_bucket new.tpm (bucket_key key) (less (tpm_bucket new t key classic) (pos 50));
    })
borrow_lends_example =
    borrow_lends new t key classic spec (omega arith) new-IsValid_now.buckets
      classic-IsWellFormed.whole refl classic_whole (omega arith) (omega arith) loan new_lends refl

-- More than the bucket holds.
abbrev greedy : BorrowSpec
greedy = record spec { min_tpm = pos 101 }

new_keeps : was_granted (borrow new t key classic greedy).1 ≡ false
unfolding borrow valve.Api.is_partial valve.Api.split valve.Memory.Borrow.borrow_classic_locked
    remaining_int valve.Memory.State.load_bucket valve.Bucket.refill valve.Bucket.scale clamp_cost
new_keeps = refl
