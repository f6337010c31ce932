-- ===== src/Bucket/Consume.antt =====
-- `TryConsume`, `Credit` and `DebitFloor` of pkg/bucket: what each takes and gives back.
use valve.Common.{
  ℕ, ◌≤◌, ℤ, pos, neg_part, ◌≤ℤ◌, ◌<ℤ◌, ◌+ℤ◌, ◌-ℤ◌, ◌≡◌, ◌↔◌, arith, true, if◌then◌else◌, min_ℤ,
  ltb_ℤ, ◌<◌, ◌⊎◌,
}
use valve.Bucket.{
  State, refill, scale, try_consume, credit, debit_floor, clamp_cost, remaining_int, refill_per_ms,
}
use valve.Bucket.Arith.{token_laws, lacks_lem}
use valve.Bucket.Refill.{
  IsBounded, refill-IsBounded, refill-capacity, refill-refill, refill-last_ms,
}

-- A cost fits a bucket when neither its capacity nor its tokens are below it.
abbrev pub Fits : State → ℤ → Type 0
Fits s cost = (clamp_cost cost ≤ℤ s.capacity) × (scale (clamp_cost cost) ≤ℤ s.tokens)

-- `TryConsume` allows exactly the costs that fit the refilled bucket.
pub try_consume_allowed :
    (s : State) (now_ms : ℕ) (cost : ℤ)
    → ((try_consume s now_ms cost).1.allowed ≡ true) ↔ Fits (refill s now_ms) cost
unfolding try_consume
try_consume_allowed s now_ms cost =
    ground (arith, lacks_lem (refill s now_ms).tokens (scale (clamp_cost cost)))

-- Allowed, it takes the cost and nothing else; refused, it leaves the refilled bucket as it is.
pub try_consume_state :
    (s : State) (now_ms : ℕ) (cost : ℤ)
    → (try_consume s now_ms cost).0 ≡ (
        if (try_consume s now_ms cost).1.allowed
        then record (refill s now_ms) {
          tokens = (refill s now_ms).tokens -ℤ scale (clamp_cost cost);
        }
        else refill s now_ms)
unfolding try_consume
try_consume_state s now_ms cost =
    ground (arith, lacks_lem (refill s now_ms).tokens (scale (clamp_cost cost)))

-- A bucket within its bounds is still so after `TryConsume`, whatever the answer.
pub try_consume-IsBounded :
    (s : State) (now_ms : ℕ) (cost : ℤ)
    → IsBounded (refill s now_ms)
    → IsBounded (try_consume s now_ms cost).0
unfolding try_consume
try_consume-IsBounded s now_ms cost b =
    grind (token_laws, lacks_lem (refill s now_ms).tokens (scale (clamp_cost cost)))

pub remaining_int_nonneg : (t : ℤ) → neg_part t ≡ 0 → neg_part (remaining_int t) ≡ 0
unfolding remaining_int
remaining_int_nonneg t h = ground arith

-- For a positive amount and a refilled bucket without debt: what is debited and the overshoot make
-- up the amount, the bucket loses exactly what is debited, an overshoot is left only where all
-- whole tokens are debited, and neither number nor the bucket is negative.
pub debit_floor_lem :
    (s : State) (now_ms : ℕ) (amount : ℤ)
    → neg_part (refill s now_ms).tokens ≡ 0
    → pos 0 <ℤ amount
    → let (s', debited, overshoot) = debit_floor s now_ms amount in
      (debited +ℤ overshoot ≡ amount)
      × (s'.tokens +ℤ scale debited ≡ (refill s now_ms).tokens)
      × ((overshoot ≡ pos 0) ⊎ (debited ≡ remaining_int (refill s now_ms).tokens))
      × (pos 0 ≤ℤ debited)
      × (pos 0 ≤ℤ overshoot)
      × (neg_part s'.tokens ≡ 0)
      × (s'.capacity ≡ s.capacity)
unfolding debit_floor
debit_floor_lem s now_ms amount h p =
    grind (token_laws, refill-capacity s now_ms, remaining_int_nonneg (refill s now_ms).tokens h)

-- `Credit` at a positive amount adds it, up to the capacity, and at any other only refills.
pub credit_lem :
    (s : State) (now_ms : ℕ) (amount : ℤ)
    → credit s now_ms amount ≡ (
        if ltb_ℤ (pos 0) amount
        then record (refill s now_ms) {
          tokens = min_ℤ (scale s.capacity) ((refill s now_ms).tokens +ℤ scale amount);
        }
        else refill s now_ms)
unfolding credit
credit_lem s now_ms amount = ground (arith, refill-capacity s now_ms)

pub credit-IsBounded :
    (s : State) (now_ms : ℕ) (amount : ℤ)
    → pos 0 ≤ℤ s.capacity
    → IsBounded (refill s now_ms)
    → IsBounded (credit s now_ms amount)
unfolding credit
credit-IsBounded s now_ms amount c b = grind (token_laws, refill-capacity s now_ms)

-- Refilling twice at one moment is refilling once.
pub refill-refill_self :
    (s : State) (now_ms : ℕ)
    → 0 < now_ms
    → s.last_ms ≤ now_ms
    → refill (refill s now_ms) now_ms ≡ refill s now_ms
refill-refill_self s now_ms p le = refill-refill s now_ms now_ms p (omega arith) le

-- A bucket that was refilled at this very moment is left alone, when it is within its bounds.
pub refill_settled :
    (s : State) (now_ms : ℕ)
    → s.last_ms ≡ now_ms
    → 0 < now_ms
    → pos 0 ≤ℤ s.capacity
    → IsBounded s
    → refill s now_ms ≡ s
unfolding refill refill_per_ms
refill_settled s now_ms e p c b = grind token_laws

pub credit_after_debit :
    (r : State) (now_ms : ℕ) (cost : ℤ)
    → r.last_ms ≡ now_ms
    → 0 < now_ms
    → pos 0 ≤ℤ r.capacity
    → IsBounded r
    → scale (clamp_cost cost) ≤ℤ r.tokens
    → credit (record r { tokens = r.tokens -ℤ scale (clamp_cost cost) }) now_ms cost ≡ r
unfolding credit clamp_cost
credit_after_debit r now_ms cost e p c b fits =
    let d : State = record r { tokens = r.tokens -ℤ scale (clamp_cost cost) } in
    rw (refill_settled d now_ms e p c (grind token_laws)) (grind token_laws)

-- Giving an allowed cost back at the same moment restores the refilled bucket, where the bucket has
-- no debt, no negative capacity, and is not ahead of the clock.
pub credit-try_consume :
    (s : State) (now_ms : ℕ) (cost : ℤ)
    → 0 < now_ms
    → pos 0 ≤ℤ s.capacity
    → s.last_ms ≤ now_ms
    → neg_part s.tokens ≡ 0
    → (try_consume s now_ms cost).1.allowed ≡ true
    → credit (try_consume s now_ms cost).0 now_ms cost ≡ refill s now_ms
credit-try_consume s now_ms cost p c le h ok = rw (try_consume_state s now_ms cost) (
    rw ok (
      credit_after_debit (refill s now_ms) now_ms cost (refill-last_ms s now_ms) p
        (rw (refill-capacity s now_ms) c) (refill-IsBounded s now_ms c h le)
        ((try_consume_allowed s now_ms cost).0 ok).1))
