-- ===== src/Bucket/Tests.antt =====
-- Runs of the token bucket of pkg/bucket/bucket.go.
use valve.Common.{
  ◌*◌, ◌+◌, ◌≤◌, ℤ, pos, pos_part, neg_part, ◌≤ℤ◌, ◌+ℤ◌, ◌-ℤ◌, ◌≡◌, refl, ◌↔◌, ◌⊎◌, List, [], ◌∷◌,
  true, false, if◌then◌else◌, arith,
}
use valve.Bucket.{
  State, refill, scale, try_consume, clamp_cost, credit, debit_floor, remaining_int, retry_after,
}
use valve.Bucket.Rate.{Call, run, run_rate}
use valve.Bucket.Consume.{try_consume_state}
use valve.Bucket.Whole.{IsWhole}
use valve.Bucket.Retry.{milliseconds, retry_after_exact}

-- Three of sixty tokens left, one second after 1970.
abbrev low : State
low = record { tokens = pos 180000; last_ms = 1000; capacity = pos 60 }

abbrev calls : List Call
calls = (0, pos 2) ∷ (2000, pos 3) ∷ (0, pos 1) ∷ []

run_rate_example : 60000 * (run low calls).1 ≤ (60000 + 2000) * 60
run_rate_example =
    run_rate low calls (record { on = omega arith; started = omega arith; nonneg = refl })
      (unfold scale in omega arith)

-- The calls of the example are granted five tokens: the last one is refused.
run-low : (run low calls).1 ≡ 5
unfolding run try_consume valve.Bucket.lacks valve.Bucket.nanos refill clamp_cost scale ◌+ℤ◌ ◌-ℤ◌
    valve.Bucket.refill_per_ms valve.Common.min_ℤ
run-low = refl

low_refused : (try_consume low 1000 (pos 5)).1.allowed ≡ false
unfolding try_consume valve.Bucket.lacks valve.Bucket.nanos refill clamp_cost scale
    valve.Common.min_ℤ ◌+ℤ◌
low_refused = refl

low_waits : 1000 + 1000 ≤ milliseconds (try_consume low 1000 (pos 5)).1.retry_after
unfolding try_consume valve.Bucket.lacks valve.Bucket.nanos refill clamp_cost scale retry_after
    valve.Bucket.refill_per_ms valve.Common.min_ℤ ◌+ℤ◌ ◌-ℤ◌ valve.Bucket.ceil_div
low_waits = omega arith

low-IsWhole : IsWhole low
unfolding scale
low-IsWhole = record {
  rate = record {
    per_second = 1;
    is_rate = refl;
    small = record { above = omega arith; below = omega arith };
  };
  tokens = 3;
  holds = refl;
  small = record { above = omega arith; below = omega arith };
  at = refl;
}

retry_after_exact_example :
    let (s', r) = try_consume low 1000 (pos 5) in
    ((try_consume s' (1000 + milliseconds r.retry_after) (pos 5)).1.allowed ≡ true)
    × ((try_consume s' (1000 + 1000) (pos 5)).1.allowed ≡ false)
retry_after_exact_example =
    retry_after_exact low 1000 1000 (pos 5) low-IsWhole refl (omega arith) (omega arith)
      (unfold clamp_cost in omega arith) low_refused low_waits

try_consume_state_example : (try_consume low 2000 (pos 4)).0 ≡ (
    if (try_consume low 2000 (pos 4)).1.allowed
    then record (refill low 2000) {
      tokens = (refill low 2000).tokens -ℤ scale (clamp_cost (pos 4));
    }
    else refill low 2000)
try_consume_state_example = try_consume_state low 2000 (pos 4)

low_unowed : neg_part (refill low 1000).tokens ≡ 0
unfolding refill scale ◌+ℤ◌ valve.Common.min_ℤ valve.Bucket.refill_per_ms
low_unowed = refl

low_allowed : (try_consume low 1000 (pos 3)).1.allowed ≡ true
unfolding try_consume valve.Bucket.lacks valve.Bucket.nanos refill clamp_cost scale
    valve.Common.min_ℤ ◌+ℤ◌
low_allowed = refl
