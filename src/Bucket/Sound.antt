-- ===== src/Bucket/Sound.antt =====
-- No operation of pkg/bucket leaves a debt, and each stamps the bucket with its own time.
use valve.Common.{ℕ, ℤ, pos, neg_part, ◌≤ℤ◌, ◌≡◌, arith, neg_part-sub, neg_part-add, min_ℤ}
use valve.Bucket.{clamp_cost, State, refill, try_consume, credit, debit_floor, scale}
use valve.Bucket.Arith.{lacks_lem, token_laws}
use valve.Bucket.Refill.{refill-last_ms, refill-capacity}

-- The bucket was last refilled at `now_ms` and holds no less than nothing.
pub record IsStamped (now_ms : ℕ) (s : State) : Type 0 where
  pub nonneg : neg_part s.tokens ≡ 0
  pub stamped : s.last_ms ≡ now_ms

min_nonneg : (a b : ℤ) → neg_part a ≡ 0 → neg_part b ≡ 0 → neg_part (min_ℤ a b) ≡ 0
unfolding min_ℤ
min_nonneg a b h k = ground arith

scale_nonneg : (n : ℤ) → pos 0 ≤ℤ n → neg_part (scale n) ≡ 0
unfolding scale
scale_nonneg n h = ground arith

module _ (s : State) (now_ms : ℕ) (h : neg_part s.tokens ≡ 0) where
  refill_nonneg : neg_part (refill s now_ms).tokens ≡ 0
  unfolding refill
  refill_nonneg = grind (arith, min_nonneg, scale_nonneg, neg_part-add)

  pub refill-IsStamped : IsStamped now_ms (refill s now_ms)
  refill-IsStamped = record { nonneg = refill_nonneg; stamped = refill-last_ms s now_ms }

  pub try_consume-IsStamped : (cost : ℤ) → IsStamped now_ms (try_consume s now_ms cost).0
  unfolding try_consume
  try_consume-IsStamped cost = grind (
    arith,
    lacks_lem (refill s now_ms).tokens (scale (clamp_cost cost)),
    refill_nonneg,
    refill-last_ms s now_ms,
    neg_part-sub,
  )

  pub credit-IsStamped :
      (amount : ℤ) → pos 0 ≤ℤ s.capacity → IsStamped now_ms (credit s now_ms amount)
  unfolding credit
  credit-IsStamped amount c = grind (
    arith,
    refill_nonneg,
    refill-last_ms s now_ms,
    refill-capacity s now_ms,
    min_nonneg,
    scale_nonneg,
    neg_part-add,
  )

  pub debit_floor-IsStamped : (amount : ℤ) → IsStamped now_ms (debit_floor s now_ms amount).0
  unfolding debit_floor
  debit_floor-IsStamped amount =
      grind (token_laws, refill_nonneg, refill-last_ms s now_ms, neg_part-sub)
