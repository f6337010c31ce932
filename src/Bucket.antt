-- ===== src/Bucket.antt =====
-- pkg/bucket/bucket.go. A `float64` number of tokens is an integer number of sixty-thousandths of a
-- token: a bucket of capacity c gains c of them in each millisecond, so that no value of the code
-- needs a fraction of one. The integers are exact, and the numbers of the code are rounded: Whole says
-- where these are exact, too.
pub mod Arith
pub mod Refill
pub mod Consume
pub mod Sound
pub mod Retry
pub mod Rate
pub mod Whole
mod Tests
use valve.Common.{
  ℕ, ◌+◌, ◌-◌, ◌*◌, ◌/◌, ℤ, pos, negsuc, pos_part, ◌+ℤ◌, ◌-ℤ◌, ltb_ℤ, leb_ℤ, min_ℤ, ltb, ◌==◌, Bool,
  true, false, if◌then◌else◌, some,
}
use valve.Api.{Duration, Time}

pub record State : Type 0 where
  pub tokens : ℤ
  pub last_ms : ℕ
  pub capacity : ℤ

-- Whole tokens as sixty-thousandths, `float64(n)`.
unfoldable pub scale : ℤ → ℤ
scale (pos n) = pos (60000 * n)
scale (negsuc n) = negsuc (60000 * n + 59999)

-- `RemainingInt`
unfoldable pub remaining_int : ℤ → ℤ
remaining_int (pos n) = pos (n / 60000)
remaining_int (negsuc n) = negsuc (n / 60000)

-- `RefillPerSec`, in sixty-thousandths of a token per millisecond.
unfoldable pub refill_per_ms : ℤ → ℕ
refill_per_ms capacity = if leb_ℤ capacity (pos 0) then 0 else pos_part capacity

-- `Refill`
unfoldable pub refill : State → ℕ → State
unfolding refill_per_ms
refill s now_ms =
    if leb_ℤ s.capacity (pos 0)
    then record s { tokens = pos 0; last_ms = now_ms }
    else if s.last_ms == 0
    then record s { tokens = scale s.capacity; last_ms = now_ms }
    else if ltb now_ms s.last_ms
    then record s { last_ms = now_ms }
    else record s {
      tokens =
          min_ℤ (scale s.capacity)
            (s.tokens +ℤ pos ((now_ms - s.last_ms) * refill_per_ms s.capacity));
      last_ms = now_ms;
    }

pub record Result : Type 0 where
  pub allowed : Bool
  pub tokens : ℤ
  pub remaining : ℤ
  pub retry_after : Duration
  pub reset_at : Time

abbrev pub second : Duration
second = 1000000000

abbrev pub hour : Duration
hour = 3600 * second

-- `math.Ceil(a / b)`
unfoldable pub ceil_div : ℕ → ℕ → ℕ
ceil_div a b = (a + b - 1) / b

-- `retryAfter`, with the exact quotient, for waits that are a `Duration`: the whole seconds until `need` is there. The rate is 1000 * capacity a second.
unfoldable pub retry_after : State → ℤ → Duration
unfolding refill_per_ms
retry_after s need =
    let rate = refill_per_ms s.capacity in
    if rate == 0
    then hour
    else let deficit = need -ℤ s.tokens in
      if leb_ℤ deficit (pos 0) then 0 else ceil_div (pos_part deficit) (1000 * rate) * second

-- `ResetAt`: the time at which the bucket is full.
unfoldable pub reset_at : State → ℕ → Time
unfolding refill_per_ms
reset_at s now_ms =
    let rate = refill_per_ms s.capacity in
    let now = now_ms * 1000000 in
    if rate == 0
    then some now
    else let need = scale s.capacity -ℤ s.tokens in
      if leb_ℤ need (pos 0) then some now else some (now + pos_part need * 1000000 / rate)

-- The result of a refusal.
abbrev pub deny : State → ℕ → ℤ → State × Result
deny s now_ms cost = (
  s,
  record {
    allowed = false;
    tokens = s.tokens;
    remaining = remaining_int s.tokens;
    retry_after = retry_after s (scale cost);
    reset_at = reset_at s now_ms;
  },
)

abbrev pub debit : State → ℕ → ℤ → State × Result
debit s now_ms cost =
    let s' = record s { tokens = s.tokens -ℤ scale cost } in
    (
      s',
      record {
        allowed = true;
        tokens = s'.tokens;
        remaining = remaining_int s'.tokens;
        retry_after = 0;
        reset_at = reset_at s' now_ms;
      },
    )

-- `clampCost` of the memory store, and the clamp of `TryConsume`.
unfoldable pub clamp_cost : ℤ → ℤ
clamp_cost n = if ltb_ℤ n (pos 0) then pos 0 else n

-- A number of sixty-thousandths of a token in billionths of those.
unfoldable pub nanos : ℤ → ℤ
nanos (pos n) = pos (1000000000 * n)
nanos (negsuc n) = negsuc (1000000000 * n + 999999999)

-- `s.Tokens+1e-9 < float64(cost)`
unfoldable pub lacks : ℤ → ℤ → Bool
lacks tokens need = ltb_ℤ (nanos tokens +ℤ pos 60000) (nanos need)

-- `TryConsume`
unfoldable pub try_consume : State → ℕ → ℤ → State × Result
unfolding clamp_cost
try_consume s now_ms cost =
    let s = refill s now_ms in
    let cost = clamp_cost cost in
    if ltb_ℤ s.capacity cost
    then deny s now_ms cost
    else if lacks s.tokens (scale cost)
    then deny s now_ms cost
    else debit s now_ms cost

-- `Credit`
unfoldable pub credit : State → ℕ → ℤ → State
credit s now_ms amount =
    let s = refill s now_ms in
    if leb_ℤ amount (pos 0)
    then s
    else record s { tokens = min_ℤ (scale s.capacity) (s.tokens +ℤ scale amount) }

-- `DebitFloor`: the state, the amount debited, and the overshoot.
unfoldable pub debit_floor : State → ℕ → ℤ → State × ℤ × ℤ
debit_floor s now_ms amount =
    let s = refill s now_ms in
    if leb_ℤ amount (pos 0)
    then (s, pos 0, pos 0)
    else let avail = remaining_int s.tokens in
      if leb_ℤ amount avail
      then (record s { tokens = s.tokens -ℤ scale amount }, amount, pos 0)
      else let left = s.tokens -ℤ scale avail in
        (record s { tokens = if ltb_ℤ left (pos 0) then pos 0 else left }, avail, amount -ℤ avail)
