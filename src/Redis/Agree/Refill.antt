-- ===== src/Redis/Agree/Refill.antt =====
-- Refilling in the scripts and in pkg/bucket.
use valve.Common.{
  ℕ, ◌*◌, ◌<◌, ℤ, pos, ◌≤ℤ◌, ◌<ℤ◌, ltb_ℤ, ◌≡◌, arith, ◌||◌, Option, none, some, if◌then◌else◌,
}
use valve.Bucket
use valve.Bucket.{scale, refill_per_ms, clamp_cost, remaining_int, try_consume, deny, debit}
use valve.Bucket.Arith.{lacks_lem, token_laws}
use valve.Memory.State.{BucketState, stored}
use valve.Redis.Lua
use valve.Memory.Admission.{clamp_cost_twice}
use valve.Redis.Lua.{retry_after_ms}

-- A bucket on the server that was written at a time after 1970 and holds at most the capacity.
abbrev pub IsWithin : ℤ → Option BucketState → Type 0
IsWithin capacity none = Unit {0}
IsWithin capacity (some b) = (0 < b.last_ms) × (b.tokens ≤ℤ scale capacity)

pub refill_agrees :
    (o : Option BucketState) (capacity : ℤ) (now_ms : ℕ)
    → pos 0 <ℤ capacity
    → IsWithin capacity o
    → Bucket.refill (stored o capacity) now_ms
      ≡ record { tokens = Lua.refill o capacity now_ms; last_ms = now_ms; capacity = capacity }
unfolding Bucket.refill Lua.refill refill_per_ms
refill_agrees none capacity now_ms c w = ground arith
refill_agrees (some b) capacity now_ms c w = grind token_laws

-- A bucket that is refilled already.
abbrev pub held : ℤ → ℕ → ℤ → Bucket.State
held tokens now_ms capacity = record { tokens = tokens; last_ms = now_ms; capacity = capacity }

pub refill-held :
    (x : ℤ) (now_ms : ℕ) (capacity : ℤ)
    → 0 < now_ms
    → pos 0 <ℤ capacity
    → x ≤ℤ scale capacity
    → Bucket.refill (held x now_ms capacity) now_ms ≡ held x now_ms capacity
unfolding Bucket.refill refill_per_ms
refill-held x now_ms capacity p c le = grind token_laws

pub within_refill :
    (o : Option BucketState) (capacity : ℤ) (now_ms : ℕ)
    → IsWithin capacity o
    → Lua.refill o capacity now_ms ≤ℤ scale capacity
unfolding Lua.refill
within_refill none capacity now_ms w = omega arith
within_refill (some b) capacity now_ms w = grind token_laws

-- The test of the scripts is the one of `TryConsume`.
pub consume_held :
    (x : ℤ) (now_ms : ℕ) (capacity cost : ℤ)
    → 0 < now_ms
    → pos 0 <ℤ capacity
    → x ≤ℤ scale capacity
    → try_consume (held x now_ms capacity) now_ms (clamp_cost cost) ≡ (
        if ltb_ℤ x (scale (clamp_cost cost)) || ltb_ℤ capacity (clamp_cost cost)
        then deny (held x now_ms capacity) now_ms (clamp_cost cost)
        else debit (held x now_ms capacity) now_ms (clamp_cost cost))
unfolding try_consume
consume_held x now_ms capacity cost p c le =
    rw (refill-held x now_ms capacity p c le, clamp_cost_twice cost)
      (ground (arith, lacks_lem x (scale (clamp_cost cost))))

-- The scripts' waiting time in milliseconds is the one of `retryAfter`.
pub retry_agrees :
    (x : ℤ) (now_ms : ℕ) (capacity need : ℤ)
    → pos 0 <ℤ capacity
    → Bucket.retry_after (held x now_ms capacity) (scale need)
      ≡ retry_after_ms x capacity need * 1000000
unfolding Bucket.retry_after retry_after_ms refill_per_ms
retry_agrees x now_ms capacity need c = grind arith
