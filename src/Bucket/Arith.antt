-- ===== src/Bucket/Arith.antt =====
-- The numbers of pkg/bucket: whole tokens against sixty-thousandths, and the order of the integers.
use valve.Common.{
  ℕ, ◌+◌, ◌-◌, ◌*◌, ◌/◌, ◌≤◌, ◌<◌, ℤ, pos, negsuc, pos_part, neg_part, min_ℤ, ◌≤ℤ◌, ◌<ℤ◌, ◌+ℤ◌,
  ◌-ℤ◌, ◌≡◌, refl, ◌⊎◌, arith, +ℤ_parts, -ℤ_parts, eq_of_parts, ltb_ℤ,
}
use valve.Bucket.{nanos, lacks, scale, remaining_int, clamp_cost, ceil_div}

pub scale_parts :
    (n : ℤ) → (pos_part (scale n) ≡ 60000 * pos_part n) × (neg_part (scale n) ≡ 60000 * neg_part n)
unfolding scale
scale_parts (pos n) = omega arith
scale_parts (negsuc n) = omega arith

-- The floor of a number of tokens is the largest whole number below it.
pub remaining_int_parts :
    (t : ℤ)
    → (60000 * pos_part (remaining_int t) + neg_part t
        ≤ pos_part t + 60000 * neg_part (remaining_int t))
      × (pos_part t + 60000 * neg_part (remaining_int t)
          < 60000 * pos_part (remaining_int t) + neg_part t + 60000)
unfolding remaining_int
remaining_int_parts (pos n) = omega arith
remaining_int_parts (negsuc n) = omega arith

pub min_ℤ_parts :
    (a b : ℤ) → (min_ℤ a b ≤ℤ a) × (min_ℤ a b ≤ℤ b) × ((a ≤ℤ min_ℤ a b) ⊎ (b ≤ℤ min_ℤ a b))
unfolding min_ℤ
min_ℤ_parts a b = ground arith

pub clamp_cost_parts :
    (n : ℤ) → (neg_part (clamp_cost n) ≡ 0) × (pos_part (clamp_cost n) ≡ pos_part n)
unfolding clamp_cost
clamp_cost_parts n = ground arith

nanos_parts :
    (n : ℤ)
    → (pos_part (nanos n) ≡ 1000000000 * pos_part n)
      × (neg_part (nanos n) ≡ 1000000000 * neg_part n)
unfolding nanos
nanos_parts (pos n) = omega arith
nanos_parts (negsuc n) = omega arith

-- Less than a sixty-thousandth of a token of slack is none.
pub lacks_lem : (a b : ℤ) → lacks a b ≡ ltb_ℤ a b
unfolding lacks
lacks_lem a b = ground (arith, nanos_parts a, nanos_parts b, +ℤ_parts (nanos a) (pos 60000))

pub ceil_div_bounds :
    (a b : ℕ) → 0 < b → 0 < a → (a ≤ ceil_div a b * b) × (ceil_div a b * b < a + b)
unfolding ceil_div
ceil_div_bounds a b h k = grind arith

pub ruleset token_laws = (
  arith, +ℤ_parts, -ℤ_parts, eq_of_parts, scale_parts, remaining_int_parts, min_ℤ_parts,
  clamp_cost_parts,
)

-- A cap that is put on twice, with a gain in between, is put on once.
pub min-min-add :
    (c x : ℤ) (a b : ℕ) → min_ℤ c (min_ℤ c (x +ℤ pos a) +ℤ pos b) ≡ min_ℤ c (x +ℤ pos (a + b))
min-min-add c x a b = grind token_laws

pub min-add_self : (c : ℤ) (b : ℕ) → min_ℤ c (c +ℤ pos b) ≡ c
min-add_self c b = grind token_laws
