-- ===== src/Bucket/Refill.antt =====
-- `Refill` of pkg/bucket: its bounds, and that the way in which time is cut up does not matter.
use valve.Common.{
  ℕ, ◌+◌, ◌-◌, ◌*◌, ◌≤◌, ◌<◌, pos, pos_part, neg_part, ◌≤ℤ◌, ◌<ℤ◌, ◌≡◌, arith, min_ℤ, ◌+ℤ◌, ap, ◌∙◌,
  ◌⊎◌, inl, inr,
}
use valve.Bucket.{State, refill, scale}
use valve.Bucket.Arith.{token_laws, min-min-add, min-add_self}

-- The tokens of a bucket lie between zero and its capacity.
pub record IsBounded (s : State) : Type 0 where
  pub nonneg : neg_part s.tokens ≡ 0
  pub capped : s.tokens ≤ℤ scale s.capacity

pub refill-IsBounded :
    (s : State) (now_ms : ℕ)
    → pos 0 ≤ℤ s.capacity
    → neg_part s.tokens ≡ 0
    → s.last_ms ≤ now_ms
    → IsBounded (refill s now_ms)
unfolding refill
refill-IsBounded s now_ms cap h le = grind token_laws

pub refill-capacity : (s : State) (now_ms : ℕ) → (refill s now_ms).capacity ≡ s.capacity
unfolding refill
refill-capacity s now_ms = ground arith

pub refill-last_ms : (s : State) (now_ms : ℕ) → (refill s now_ms).last_ms ≡ now_ms
unfolding refill
refill-last_ms s now_ms = ground arith

-- One equation for each branch.
module _ (s : State) (now_ms : ℕ) where
  pub refill_none :
      s.capacity ≤ℤ pos 0 → refill s now_ms ≡ record s { tokens = pos 0; last_ms = now_ms }
  unfolding refill
  refill_none h = ground arith

  pub refill_fresh :
      pos 0 <ℤ s.capacity
      → s.last_ms ≡ 0
      → refill s now_ms ≡ record s { tokens = scale s.capacity; last_ms = now_ms }
  unfolding refill
  refill_fresh h e = ground arith

  pub refill_later :
      pos 0 <ℤ s.capacity
      → 0 < s.last_ms
      → s.last_ms ≤ now_ms
      → refill s now_ms ≡ record s {
        tokens =
            min_ℤ (scale s.capacity) (s.tokens +ℤ pos ((now_ms - s.last_ms) * pos_part s.capacity));
        last_ms = now_ms;
      }
  unfolding refill
  refill_later h p le = ground arith

gain_add : (a b c r : ℕ) → a ≤ b → b ≤ c → (b - a) * r + (c - b) * r ≡ (c - a) * r
gain_add a b c r h k = grind arith

-- The three cases of a bucket: switched off, never used, or running.
pub refill_cases :
    (s : State)
    → (s.capacity ≤ℤ pos 0)
      ⊎ ((pos 0 <ℤ s.capacity) × (s.last_ms ≡ 0))
      ⊎ ((pos 0 <ℤ s.capacity) × (0 < s.last_ms))
refill_cases s = grind arith

-- Refilling at t and again at a later u gives what one refill at u gives, when neither the last
-- refill nor t lies ahead of the clock and t is not the zero time.
pub refill-refill :
    (s : State) (t u : ℕ) → 0 < t → t ≤ u → s.last_ms ≤ t → refill (refill s t) u ≡ refill s u
refill-refill s t u p q r = elim (refill_cases s) [
  | inl off ↦
      rw (refill_none s t off, refill_none s u off)
        (refill_none (record s { tokens = pos 0; last_ms = t }) u off)
  | inr (inl (on, fresh)) ↦
      rw (refill_fresh s t on fresh, refill_fresh s u on fresh)
        (rw (
          refill_later (record s { tokens = scale s.capacity; last_ms = t }) u on p q,
          min-add_self (scale s.capacity) ((u - t) * pos_part s.capacity),
        ))
  | inr (inr (on, running)) ↦
      rw (refill_later s t on running r, refill_later s u on running (omega arith))
        (refill_later
            (record s {
              tokens =
                  min_ℤ (scale s.capacity)
                    (s.tokens +ℤ pos ((t - s.last_ms) * pos_part s.capacity));
              last_ms = t;
            })
            u on p q
          ∙ ap (λ x. record s { tokens = x; last_ms = u })
              (rw (min-min-add, gain_add s.last_ms t u (pos_part s.capacity) r q)))
]
