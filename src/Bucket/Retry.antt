-- ===== src/Bucket/Retry.antt =====
-- The `RetryAfter` of a refusal by `TryConsume`: waiting that long is enough, and no second less is.
use valve.Common.{
  ℕ, ◌+◌, ◌-◌, ◌*◌, ◌/◌, ◌≤◌, ◌<◌, ℤ, pos, pos_part, neg_part, ◌≤ℤ◌, ◌<ℤ◌, ◌-ℤ◌, ◌+ℤ◌, int_laws, ap,
  ◌≡◌, arith, true, false, min_ℤ, inl, inr, Bool-cases,
}
use valve.Bucket.{State, refill, scale, try_consume, clamp_cost, retry_after, ceil_div, second}
use valve.Bucket.Whole.{IsWhole, IsSecondMs}
use valve.Bucket.Arith.{token_laws, ceil_div_bounds, lacks_lem}
use valve.Bucket.Refill.{refill_later, refill-capacity, refill-last_ms}
use valve.Bucket.Consume.{Fits, try_consume_allowed}

deficit_parts :
    (a b : ℤ)
    → a <ℤ b
    → (pos_part (b -ℤ a) + pos_part a + neg_part b ≡ pos_part b + neg_part a)
      × (neg_part (b -ℤ a) ≡ 0)
      × (0 < pos_part (b -ℤ a))
unfolding ◌-ℤ◌
deficit_parts a b h = ground arith

-- The whole seconds of `retry_after`.
abbrev pub wait : State → ℤ → ℕ
wait s need = ceil_div (pos_part (need -ℤ s.tokens)) (1000 * pos_part s.capacity)

module _ (s : State) (need : ℤ) (c : pos 0 <ℤ s.capacity) (short : s.tokens <ℤ need) where
  pub retry_after-eq-wait : retry_after s need ≡ wait s need * second
  unfolding retry_after
  retry_after-eq-wait = ground (arith, deficit_parts s.tokens need short)

  bounds :
      (pos_part (need -ℤ s.tokens) ≤ wait s need * (1000 * pos_part s.capacity))
      × (wait s need * (1000 * pos_part s.capacity)
          < pos_part (need -ℤ s.tokens) + 1000 * pos_part s.capacity)
  bounds =
      ceil_div_bounds (pos_part (need -ℤ s.tokens)) (1000 * pos_part s.capacity) (omega arith)
        (deficit_parts s.tokens need short).2

  -- The wait covers the missing tokens.
  pub wait_enough : need ≤ℤ s.tokens +ℤ pos (1000 * wait s need * pos_part s.capacity)
  wait_enough = grind (int_laws, ap, bounds, deficit_parts s.tokens need short)

  -- A wait that is shorter by a second does not.
  pub wait_least : s.tokens +ℤ pos (1000 * (wait s need - 1) * pos_part s.capacity) <ℤ need
  wait_least = grind (int_laws, ap, bounds, deficit_parts s.tokens need short)

mul_mono : (a b c : ℕ) → a ≤ b → a * c ≤ b * c
mul_mono a b c h = grind arith

-- The tokens of a running bucket at a later moment.
later_tokens :
    (s : State) (e : ℕ)
    → pos 0 <ℤ s.capacity
    → 0 < s.last_ms
    → (refill s (s.last_ms + e)).tokens
      ≡ min_ℤ (scale s.capacity) (s.tokens +ℤ pos (e * pos_part s.capacity))
later_tokens s e c p =
    rw (refill_later s (s.last_ms + e) c p (omega arith))
      (ap (λ n. min_ℤ (scale s.capacity) (s.tokens +ℤ pos (n * pos_part s.capacity))) (omega arith))

module _ (s : State) (cost : ℤ) (c : pos 0 <ℤ s.capacity) (p : 0 < s.last_ms)
    (small : clamp_cost cost ≤ℤ s.capacity) (short : s.tokens <ℤ scale (clamp_cost cost)) where
  Fits-then : Fits (refill s (s.last_ms + 1000 * wait s (scale (clamp_cost cost)))) cost
  Fits-then =
      let need = scale (clamp_cost cost) in
      rw (refill-capacity, later_tokens s (1000 * wait s need) c p)
        (small, grind (token_laws, wait_enough s need c short))

  not-Fits_before :
      (e : ℕ)
      → e ≤ 1000 * (wait s (scale (clamp_cost cost)) - 1)
      → ¬ Fits (refill s (s.last_ms + e)) cost
  not-Fits_before e le (_, f) =
      let f' = rw (later_tokens s e c p) at f in
      absurd (
        grind (
          token_laws,
          f',
          wait_least s (scale (clamp_cost cost)) c short,
          mul_mono e (1000 * (wait s (scale (clamp_cost cost)) - 1)) (pos_part s.capacity) le,
        ))

-- The time in milliseconds that a waiting time stands for.
abbrev pub milliseconds : ℕ → ℕ
milliseconds d = d / 1000000

seconds_to_ms : (w : ℕ) → milliseconds (w * second) ≡ 1000 * w
seconds_to_ms w = omega arith

module _ (s : State) (now_ms : ℕ) (cost : ℤ) (e : s.last_ms ≡ now_ms) (p : 0 < now_ms)
    (c : pos 0 <ℤ s.capacity) (small : clamp_cost cost ≤ℤ s.capacity)
    (short : s.tokens <ℤ scale (clamp_cost cost)) where
  ms_to_wait :
      milliseconds (retry_after s (scale (clamp_cost cost)))
      ≡ 1000 * wait s (scale (clamp_cost cost))
  ms_to_wait = rw (retry_after-eq-wait s (scale (clamp_cost cost)) c short) (seconds_to_ms _)

  pub allowed_then :
      (try_consume s
        (now_ms + milliseconds (retry_after s (scale (clamp_cost cost))))
        cost).1.allowed
      ≡ true
  allowed_then =
      rw (ms_to_wait, ← e)
        ((try_consume_allowed s _ cost).1 (Fits-then s cost c (rw e p) small short))

  pub refused_before :
      (u : ℕ)
      → u + 1000 ≤ milliseconds (retry_after s (scale (clamp_cost cost)))
      → (try_consume s (now_ms + u) cost).1.allowed ≡ false
  refused_before u h = rw (← e) (elim (Bool-cases (try_consume s (s.last_ms + u) cost).1.allowed) [
    | inl yes_now ↦ absurd (
        not-Fits_before s cost c (rw e p) small short u (omega (arith, ms_to_wait))
          ((try_consume_allowed s _ cost).0 yes_now))
    | inr still_no ↦ still_no
  ])

-- What the bucket says on a refusal.
refused :
    (s : State) (now_ms : ℕ) (cost : ℤ)
    → (try_consume s now_ms cost).1.allowed ≡ false
    → ((try_consume s now_ms cost).0 ≡ refill s now_ms)
      × ((try_consume s now_ms cost).1.retry_after
          ≡ retry_after (refill s now_ms) (scale (clamp_cost cost)))
unfolding try_consume
refused s now_ms cost e =
    ground (arith, lacks_lem (refill s now_ms).tokens (scale (clamp_cost cost)))

-- The bucket that a refusal leaves, under the names that its waiting time is about.
refused_facts :
    (s : State) (now_ms : ℕ) (cost : ℤ)
    → clamp_cost cost ≤ℤ s.capacity
    → (try_consume s now_ms cost).1.allowed ≡ false
    → let r = refill s now_ms in
      (r.last_ms ≡ now_ms) × (clamp_cost cost ≤ℤ r.capacity) × (r.tokens <ℤ scale (clamp_cost cost))
unfolding try_consume
refused_facts s now_ms cost small e = ground (
  arith,
  refill-capacity s now_ms,
  refill-last_ms s now_ms,
  lacks_lem (refill s now_ms).tokens (scale (clamp_cost cost)),
)

-- A cost within a positive capacity that was refused is allowed once `RetryAfter` has passed, and
-- is refused at any moment that is a second or more before that, when nobody else draws on the
-- bucket. The bucket is one that the code computes exactly: a whole number of tokens a second, a
-- whole number of tokens, both below 10 ^ 12, and its last use and the refusal at whole seconds.
pub retry_after_exact :
    (s : State) (now_ms u : ℕ) (cost : ℤ)
    → IsWhole s
    → IsSecondMs now_ms
    → 0 < now_ms
    → pos 0 <ℤ s.capacity
    → clamp_cost cost ≤ℤ s.capacity
    → (try_consume s now_ms cost).1.allowed ≡ false
    → u + 1000 ≤ milliseconds (try_consume s now_ms cost).1.retry_after
    → let (s', r) = try_consume s now_ms cost in
      ((try_consume s' (now_ms + milliseconds r.retry_after) cost).1.allowed ≡ true)
      × ((try_consume s' (now_ms + u) cost).1.allowed ≡ false)
retry_after_exact s now_ms u cost exact at_second p c small no_luck early =
    let r = refill s now_ms in
    let (e, fits, short) = refused_facts s now_ms cost small no_luck in
    let c' : pos 0 <ℤ r.capacity = rw (refill-capacity s now_ms) c in
    let (same, delay) = refused s now_ms cost no_luck in
    rw (same, delay)
      (
        allowed_then r now_ms cost e p c' fits short,
        refused_before r now_ms cost e p c' fits short u (rw delay at early),
      )

-- A cost above the capacity is refused at every moment and in every state of the bucket, and the
-- refusal changes nothing but the refill.
pub above_capacity :
    (s : State) (now_ms : ℕ) (cost : ℤ)
    → s.capacity <ℤ clamp_cost cost
    → ((try_consume s now_ms cost).1.allowed ≡ false)
      × ((try_consume s now_ms cost).0 ≡ refill s now_ms)
unfolding try_consume
above_capacity s now_ms cost h = ground (arith, refill-capacity s now_ms)
