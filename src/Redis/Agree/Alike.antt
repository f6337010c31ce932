-- ===== src/Redis/Agree/Alike.antt =====
-- Two buckets that refill alike. A settlement writes the refilled bucket of requests on the server
-- and not in the memory store, so that the two buckets differ but answer in the same way later on.
use valve.Common.{
  ℕ, ◌<◌, ◌≤◌, ℤ, pos, ◌≤ℤ◌, ◌<ℤ◌, ◌≡◌, refl, sym, ap, ◌∙◌, arith, Option, none, some,
}
use valve.Bucket
use valve.Bucket.{State, scale}
use valve.Bucket.Arith.{token_laws}
use valve.Bucket.Refill.{refill-refill}
use valve.Memory.State.{BucketState, stored}
use valve.Redis.Lua
use valve.Redis.Agree.Refill.{IsWithin, refill_agrees, held}

-- A bucket that was written between 1970 and now, and holds between zero and the capacity.
abbrev pub IsHeld : ℤ → ℕ → Option BucketState → Type 0
IsHeld capacity now_ms none = Unit {0}
IsHeld capacity now_ms (some b) =
    (0 < b.last_ms) × (b.last_ms ≤ now_ms) × (pos 0 ≤ℤ b.tokens) × (b.tokens ≤ℤ scale capacity)

pub record AreAlike (capacity : ℤ) (now_ms : ℕ) (a b : Option BucketState) : Type 0 where
  pub left : IsHeld capacity now_ms a
  pub right : IsHeld capacity now_ms b
  pub same : (t : ℕ) → now_ms ≤ t → Lua.refill a capacity t ≡ Lua.refill b capacity t

module _ (capacity : ℤ) (c : pos 0 <ℤ capacity) where
  pub IsHeld-IsWithin :
      (a : Option BucketState) (now_ms : ℕ) → IsHeld capacity now_ms a → IsWithin capacity a
  IsHeld-IsWithin none now_ms v = tt
  IsHeld-IsWithin (some b) now_ms (p, le, v, w) = (p, w)

  IsHeld-later :
      (a : Option BucketState) (t u : ℕ) → t ≤ u → IsHeld capacity t a → IsHeld capacity u a
  IsHeld-later none t u le v = tt
  IsHeld-later (some b) t u le (p, le', v, w) = (p, omega arith, v, w)

  pub AreAlike-later :
      (a b : Option BucketState) (t u : ℕ)
      → t ≤ u
      → AreAlike capacity t a b
      → AreAlike capacity u a b
  AreAlike-later a b t u le v = record {
    left = IsHeld-later a t u le v.left;
    right = IsHeld-later b t u le v.right;
    same = λ w k. v.same w (omega arith);
  }

  pub AreAlike_refl :
      (a : Option BucketState) (t : ℕ) → IsHeld capacity t a → AreAlike capacity t a a
  AreAlike_refl a t v = record { left = v; right = v; same = λ u k. refl }

  pub refill_bounds :
      (a : Option BucketState) (t : ℕ)
      → IsHeld capacity t a
      → (pos 0 ≤ℤ Lua.refill a capacity t) × (Lua.refill a capacity t ≤ℤ scale capacity)
  unfolding Lua.refill
  refill_bounds none t v = grind token_laws
  refill_bounds (some b) t v = grind token_laws

  -- The bucket as a script or the memory store writes it back when it is only refilled.
  abbrev pub refilled : Option BucketState → ℕ → Option BucketState
  refilled a t = some (record { tokens = Lua.refill a capacity t; last_ms = t })

  refilled-IsHeld :
      (a : Option BucketState) (t : ℕ)
      → 0 < t
      → IsHeld capacity t a
      → IsHeld capacity t (refilled a t)
  refilled-IsHeld a t p v = (p, omega arith, (refill_bounds a t v).0, (refill_bounds a t v).1)

  stored-last_ms :
      (a : Option BucketState) (t : ℕ) → IsHeld capacity t a → (stored a capacity).last_ms ≤ t
  stored-last_ms none t v = omega arith
  stored-last_ms (some b) t v = ground arith

  stored-refilled :
      (a : Option BucketState) (t : ℕ)
      → 0 < t
      → stored (refilled a t) capacity ≡ held (Lua.refill a capacity t) t capacity
  stored-refilled a t p = ground arith

  -- Refilling twice is refilling once.
  refill-refilled :
      (a : Option BucketState) (t u : ℕ)
      → 0 < t
      → t ≤ u
      → IsHeld capacity t a
      → Lua.refill (refilled a t) capacity u ≡ Lua.refill a capacity u
  refill-refilled a t u p le v =
      let once = refill_agrees a capacity u c (IsHeld-IsWithin a t v) in
      let first =
        stored-refilled a t p ∙ sym (refill_agrees a capacity t c (IsHeld-IsWithin a t v)) in
      let twice =
        refill_agrees (refilled a t) capacity u c
          (IsHeld-IsWithin (refilled a t) t (refilled-IsHeld a t p v)) in
      ap State.tokens (
        sym twice
        ∙ ap (λ s. Bucket.refill s u) first
        ∙ refill-refill (stored a capacity) t u p le (stored-last_ms a t v)
        ∙ once)

  pub refilled_alike :
      (a b : Option BucketState) (t : ℕ)
      → 0 < t
      → AreAlike capacity t a b
      → AreAlike capacity t (refilled a t) b
  refilled_alike a b t p v = record {
    left = refilled-IsHeld a t p v.left;
    right = v.right;
    same = λ u k. refill-refilled a t u p k v.left ∙ v.same u k;
  }
