-- ===== src/Redis/Agree/Amounts.antt =====
-- The arithmetic of `Settle` and `Refund` in the scripts and in pkg/store/memory/memory.go.
use valve.Common.{ℕ, ◌<◌, ℤ, pos, ◌≤ℤ◌, ◌<ℤ◌, ◌-ℤ◌, ◌+ℤ◌, -ℤ_parts, min_ℤ, ◌≡◌, arith}
use valve.Bucket.{scale, credit, debit_floor}
use valve.Bucket.Arith.{token_laws}
use valve.Memory.Settle.{settle_axis}
use valve.Redis.Lua.Settle.{settle_tokens}
use valve.Redis.Agree.Refill.{held, refill-held}

-- The script's arithmetic is the one of `Settle`, on a bucket that is refilled already.
pub axis_agrees :
    (y : ℤ) (now_ms : ℕ) (capacity reserved actual : ℤ)
    → 0 < now_ms
    → pos 0 <ℤ capacity
    → y ≤ℤ scale capacity
    → settle_axis (held y now_ms capacity) now_ms reserved actual ≡ (
      held (settle_tokens y capacity (reserved -ℤ actual)).0 now_ms capacity,
      (settle_tokens y capacity (reserved -ℤ actual)).1,
    )
unfolding settle_axis settle_tokens credit debit_floor
axis_agrees y now_ms capacity reserved actual p c le =
    rw (refill-held y now_ms capacity p c le)
      (ground (arith, -ℤ_parts (pos 0) (reserved -ℤ actual)))

-- What is left lies between zero and the capacity.
pub settle_tokens_bounds :
    (y capacity delta : ℤ)
    → pos 0 <ℤ capacity
    → pos 0 ≤ℤ y
    → y ≤ℤ scale capacity
    → (pos 0 ≤ℤ (settle_tokens y capacity delta).0)
      × ((settle_tokens y capacity delta).0 ≤ℤ scale capacity)
unfolding settle_tokens
settle_tokens_bounds y capacity delta c v w = grind token_laws

-- A credit that is not negative.
pub credit_agrees :
    (x : ℤ) (now_ms : ℕ) (capacity cost : ℤ)
    → 0 < now_ms
    → pos 0 <ℤ capacity
    → x ≤ℤ scale capacity
    → pos 0 ≤ℤ cost
    → credit (held x now_ms capacity) now_ms cost
      ≡ held (min_ℤ (scale capacity) (x +ℤ scale cost)) now_ms capacity
unfolding credit
credit_agrees x now_ms capacity cost p c le v =
    rw (refill-held x now_ms capacity p c le) (grind token_laws)

pub credit_bounds :
    (x capacity cost : ℤ)
    → pos 0 <ℤ capacity
    → pos 0 ≤ℤ x
    → pos 0 ≤ℤ cost
    → (pos 0 ≤ℤ min_ℤ (scale capacity) (x +ℤ scale cost))
      × (min_ℤ (scale capacity) (x +ℤ scale cost) ≤ℤ scale capacity)
credit_bounds x capacity cost c v w = grind token_laws
