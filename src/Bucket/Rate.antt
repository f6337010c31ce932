-- ===== src/Bucket/Rate.antt =====
-- What a token bucket promises over any stretch of time: no more is granted than it held and gained.
use valve.Common.{
  ℕ, ◌+◌, ◌-◌, ◌*◌, ◌≤◌, ◌<◌, ℤ, pos, pos_part, neg_part, ◌≤ℤ◌, ◌<ℤ◌, ◌≡◌, ap, List, [], ◌∷◌,
  if◌then◌else◌, arith, Bool-cases, inl, inr, neg_part-sub,
}
use valve.Bucket.{State, refill, scale, try_consume}
use valve.Bucket.Arith.{token_laws}
use valve.Bucket.Refill.{refill_later}
use valve.Bucket.Consume.{try_consume_state, try_consume_allowed}

-- One call after a pause: the pause in milliseconds, and the cost.
abbrev pub Call : Type 0
Call = ℕ × ℤ

abbrev pub pauses : List Call → ℕ
pauses [] = 0
pauses ((e, _) ∷ cs) = e + pauses cs

-- The bucket after a row of calls, and the whole tokens that they were granted.
unfoldable pub run : State → List Call → State × ℕ
run s [] = (s, 0)
run s ((e, cost) ∷ cs) =
    let (s', r) = try_consume s (s.last_ms + e) cost in
    let (s'', granted) = run s' cs in (s'', (if r.allowed then pos_part cost else 0) + granted)

-- The bucket runs and owes nothing.
pub record IsRunning (s : State) : Type 0 where
  pub on : pos 0 <ℤ s.capacity
  pub started : 0 < s.last_ms
  pub nonneg : neg_part s.tokens ≡ 0

module _ (s : State) (e : ℕ) (cost : ℤ) (v : IsRunning s) where
  refilled :
      let r = refill s (s.last_ms + e) in
      (r.capacity ≡ s.capacity)
      × (r.last_ms ≡ s.last_ms + e)
      × (neg_part r.tokens ≡ 0)
      × (pos_part r.tokens ≤ pos_part s.tokens + e * pos_part s.capacity)
  refilled =
      rw (refill_later s (s.last_ms + e) v.on v.started (omega arith)) (grind (token_laws, gain))
    where
      gain : (s.last_ms + e - s.last_ms) * pos_part s.capacity ≡ e * pos_part s.capacity
      gain = ap (λ n. n * pos_part s.capacity) (omega arith)

  stepped :
      let (s', r) = try_consume s (s.last_ms + e) cost in
      (s'.capacity ≡ s.capacity)
      × (s'.last_ms ≡ s.last_ms + e)
      × (neg_part s'.tokens ≡ 0)
      × (pos_part s'.tokens + 60000 * (if r.allowed then pos_part cost else 0)
          ≤ pos_part s.tokens + e * pos_part s.capacity)
  stepped =
      let now = s.last_ms + e in
      let (rc, rl, rn, rt) = refilled in
      rw (try_consume_state s now cost) (elim (Bool-cases (try_consume s now cost).1.allowed) [
        | inl yes_it_is ↦ rw yes_it_is (
          rc,
          rl,
          neg_part-sub _ _ ((try_consume_allowed s now cost).0 yes_it_is).1,
          grind (token_laws, (try_consume_allowed s now cost).0 yes_it_is),
        )
        | inr refused ↦ rw refused (rc, rl, rn, omega arith)
      ])

-- Whatever costs are asked for and whenever, what the bucket grants and what is left in it together
-- are no more than what it held at first and gained since.
pub run_within :
    (s : State) (cs : List Call)
    → IsRunning s
    → let (s', granted) = run s cs in
      pos_part s'.tokens + 60000 * granted ≤ pos_part s.tokens + pauses cs * pos_part s.capacity
unfolding run
run_within s [] v = omega arith
run_within s ((e, cost) ∷ cs) v =
    let (s', r) = try_consume s (s.last_ms + e) cost in
    let (c, l, n, le) = stepped s e cost v in
    let rest =
      run_within s' cs
        (record { on = rw c v.on; started = grind (arith, v.started); nonneg = n }) in
    grind (arith, rest, le, c)

-- From a running bucket that holds no debt and at most its capacity, over any calls in m
-- milliseconds the granted costs add up to at most the capacity and the share m / 60000 of it.
pub run_rate :
    (s : State) (cs : List Call)
    → IsRunning s
    → s.tokens ≤ℤ scale s.capacity
    → 60000 * (run s cs).1 ≤ (60000 + pauses cs) * pos_part s.capacity
run_rate s cs v le = grind (token_laws, run_within s cs v, v.nonneg, v.on)
