-- ===== src/Redis/Agree/Loans.antt =====
-- The arithmetic of `Borrow` and `Return` in the scripts and in pkg/store/memory/memory.go.
use valve.Common.{
  ℕ, ◌*◌, ◌<◌, ℤ, pos, ◌≤ℤ◌, ◌<ℤ◌, ◌-ℤ◌, ◌+ℤ◌, ltb_ℤ, min_ℤ, ◌≡◌, arith, true, false, ◌⊎◌,
}
use valve.Bucket.{scale, remaining_int, clamp_cost, try_consume, debit, credit}
use valve.Bucket.Arith.{token_laws}
use valve.Memory.Borrow.{want_got}
use valve.Redis.Lua.{retry_after_ms}
use valve.Redis.Lua.Borrow.{max_ℤ}
use valve.Redis.Agree.Refill.{held, refill-held, consume_held, retry_agrees}

-- What is wanted is the greater of the least and the chunk, and what is lent the lesser of that and
-- what is there.
pub want_got_lem : (avail m chunk : ℤ) → want_got avail m chunk ≡ min_ℤ avail (max_ℤ m chunk)
unfolding want_got min_ℤ
want_got_lem avail m chunk = grind arith

max_ℤ_cases : (a b : ℤ) → (max_ℤ a b ≡ a) ⊎ (max_ℤ a b ≡ b)
max_ℤ_cases a b = ground arith

ruleset lent_laws = (token_laws, max_ℤ_cases)

clamp_cost_lem : (n : ℤ) → pos 0 ≤ℤ n → clamp_cost n ≡ n
unfolding clamp_cost
clamp_cost_lem n h = ground arith

module _ (x : ℤ) (now_ms : ℕ) (capacity : ℤ) (p : 0 < now_ms) (c : pos 0 <ℤ capacity)
    (le : x ≤ℤ scale capacity) where
  -- The amount that is lent is there.
  pub lent_bounds :
      (m chunk : ℤ)
      → ltb_ℤ (remaining_int x) (clamp_cost m) ≡ false
      → let got = min_ℤ (remaining_int x) (max_ℤ (clamp_cost m) (clamp_cost chunk)) in
        (pos 0 ≤ℤ got) × (scale got ≤ℤ x)
  lent_bounds m chunk h = grind lent_laws

  pub lent_consumed :
      (got : ℤ)
      → pos 0 ≤ℤ got
      → scale got ≤ℤ x
      → try_consume (held x now_ms capacity) now_ms got ≡ debit (held x now_ms capacity) now_ms got
  lent_consumed got v w =
      let b : ltb_ℤ capacity got ≡ false = grind token_laws in
      let a : ltb_ℤ x (scale got) ≡ false = grind token_laws in
      rw (a, b) at (rw (clamp_cost_lem got v) at (consume_held x now_ms capacity got p c le))

  pub lent_left :
      (got : ℤ)
      → pos 0 ≤ℤ got
      → scale got ≤ℤ x
      → (pos 0 ≤ℤ x -ℤ scale got) × (x -ℤ scale got ≤ℤ scale capacity)
  lent_left got v w = grind token_laws

  pub refused_retry :
      (m : ℤ)
      → ltb_ℤ (remaining_int x) (clamp_cost m) ≡ true
      → (try_consume (held x now_ms capacity) now_ms (clamp_cost m)).1.retry_after
        ≡ retry_after_ms x capacity (clamp_cost m) * 1000000
  refused_retry m h =
      let a : ltb_ℤ x (scale (clamp_cost m)) ≡ true = grind token_laws in
      rw (consume_held x now_ms capacity m p c le, a)
        (retry_agrees x now_ms capacity (clamp_cost m) c)

  -- What comes back.
  pub returned_agrees :
      (add : ℤ)
      → credit (held x now_ms capacity) now_ms add
        ≡ held (min_ℤ (scale capacity) (x +ℤ scale (clamp_cost add))) now_ms capacity
  unfolding credit
  returned_agrees add = rw (refill-held x now_ms capacity p c le) (grind token_laws)

  pub returned_bounds :
      (add : ℤ)
      → pos 0 ≤ℤ x
      → (pos 0 ≤ℤ min_ℤ (scale capacity) (x +ℤ scale (clamp_cost add)))
        × (min_ℤ (scale capacity) (x +ℤ scale (clamp_cost add)) ≤ℤ scale capacity)
  returned_bounds add v = grind token_laws
