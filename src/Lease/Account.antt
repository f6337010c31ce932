-- ===== src/Lease/Account.antt =====
-- The balances of a lease: what spending, settling and refunding do to them.
use valve.Common.{
  ◌+◌, ◌<◌, ℤ, pos, pos_part, ◌≤ℤ◌, ◌<ℤ◌, ◌+ℤ◌, ◌-ℤ◌, int_laws, add64, sub64, wrap64, wrap64_lem,
  IsInt64, IsWord, ◌≡◌, refl, ◌∙◌, ap, ◌⊎◌, inl, inr, arith, true, false, ltb_ℤ,
}
use valve.Lease.Settle.{apply_local_delta}
use valve.Lease.Refund.{pay_overshoot}

-- The difference of two numbers that are not negative does not wrap.
pub sub64_words : (a b : ℤ) → IsWord a → IsWord b → sub64 a b ≡ a -ℤ b
unfolding sub64
sub64_words a b h k = wrap64_lem (a -ℤ b) (small a b h k)
  where
    small : (a b : ℤ) → IsWord a → IsWord b → IsInt64 (a -ℤ b)
    small a b h k = unfold ◌-ℤ◌ in ground arith

-- Nor does a sum that is in range.
pub add64_words :
    (a b : ℤ)
    → IsWord a
    → IsWord b
    → pos_part a + pos_part b < 9223372036854775808
    → add64 a b ≡ a +ℤ b
unfolding add64
add64_words a b h k small = wrap64_lem (a +ℤ b) (in_range a b h k small)
  where
    in_range :
        (a b : ℤ)
        → IsWord a
        → IsWord b
        → pos_part a + pos_part b < 9223372036854775808
        → IsInt64 (a +ℤ b)
    in_range a b h k small = unfold ◌+ℤ◌ in ground arith

pub IsWord-sub : (a b : ℤ) → IsWord a → IsWord b → b ≤ℤ a → IsWord (a -ℤ b)
unfolding ◌-ℤ◌
IsWord-sub a b h k le = ground arith

IsWord-add :
    (a b : ℤ)
    → IsWord a
    → IsWord b
    → pos_part a + pos_part b < 9223372036854775808
    → IsWord (a +ℤ b)
unfolding ◌+ℤ◌
IsWord-add a b h k small = ground arith

flip_sub : (a b : ℤ) → IsWord a → IsWord b → sub64 (pos 0) (a -ℤ b) ≡ b -ℤ a
unfolding sub64
flip_sub a b h k = ap wrap64 flip ∙ wrap64_lem (b -ℤ a) (small a b h k)
  where
    flip : pos 0 -ℤ (a -ℤ b) ≡ b -ℤ a
    flip = omega int_laws

    small : (a b : ℤ) → IsWord a → IsWord b → IsInt64 (b -ℤ a)
    small a b h k = unfold ◌-ℤ◌ in ground arith

order : (a b : ℤ) → (a <ℤ b) ⊎ (a ≡ b) ⊎ (b <ℤ a)
order a b = ground arith

fits : (a b : ℤ) → (a ≤ℤ b) ⊎ (b <ℤ a)
fits a b = omega arith

module _ (bal reserved actual : ℤ) (hb : IsWord bal) (hr : IsWord reserved) (ha : IsWord actual)
    (room : pos_part bal + pos_part reserved < 9223372036854775808) where
  back :
      actual <ℤ reserved
      → apply_local_delta bal reserved actual ≡ (bal +ℤ (reserved -ℤ actual), pos 0, true)
  unfolding apply_local_delta
  back lt = rw (sub64_words reserved actual hr ha) (
      rw
        (add64_words bal (reserved -ℤ actual) hb (IsWord-sub reserved actual hr ha (omega arith))
          (omega (int_laws, IsWord-sub reserved actual hr ha (omega arith))))
        (grind int_laws))

  even : actual ≡ reserved → apply_local_delta bal reserved actual ≡ (bal, pos 0, false)
  unfolding apply_local_delta
  even e = rw (sub64_words reserved actual hr ha) (grind int_laws)

  more :
      reserved <ℤ actual
      → actual -ℤ reserved ≤ℤ bal
      → apply_local_delta bal reserved actual ≡ (bal -ℤ (actual -ℤ reserved), pos 0, false)
  unfolding apply_local_delta
  more lt le = rw (sub64_words reserved actual hr ha) (
      rw (flip_sub reserved actual hr ha) (
        rw
          (sub64_words bal (actual -ℤ reserved) hb (IsWord-sub actual reserved ha hr (omega arith)))
          (grind int_laws)))

  short :
      reserved <ℤ actual
      → bal <ℤ actual -ℤ reserved
      → apply_local_delta bal reserved actual ≡ (pos 0, actual -ℤ reserved -ℤ bal, false)
  unfolding apply_local_delta
  short lt le = rw (sub64_words reserved actual hr ha) (
      rw (flip_sub reserved actual hr ha) (
        rw
          (sub64_words (actual -ℤ reserved) bal (IsWord-sub actual reserved ha hr (omega arith)) hb)
          (grind int_laws)))

  -- For numbers that are not negative and a sum in range, settling a reservation against a balance:
  -- balance and actual use together are the old balance, the reservation and the overshoot; neither
  -- is negative, there is an overshoot only when the balance is gone, and credit comes back exactly
  -- when less was used than reserved.
  pub apply_local_delta_lem :
      let (bal', over, came_back) = apply_local_delta bal reserved actual in
      (bal' +ℤ actual ≡ bal +ℤ reserved +ℤ over)
      × IsWord bal'
      × IsWord over
      × ((over ≡ pos 0) ⊎ (bal' ≡ pos 0))
      × (came_back ≡ ltb_ℤ actual reserved)
  apply_local_delta_lem = elim (order actual reserved) [
    | inl lt ↦ rw (back lt) (
      omega int_laws,
      IsWord-add bal (reserved -ℤ actual) hb (IsWord-sub reserved actual hr ha (omega arith))
          (omega (int_laws, IsWord-sub reserved actual hr ha (omega arith))),
      omega arith,
      inl refl,
      ground arith,
    )
    | inr (inl e) ↦ rw (even e) (grind (int_laws, e), hb, omega arith, inl refl, ground arith)
    | inr (inr gt) ↦ elim (fits (actual -ℤ reserved) bal) [
      | inl le ↦ rw (more gt le) (
        omega int_laws,
        IsWord-sub bal (actual -ℤ reserved) hb (IsWord-sub actual reserved ha hr (omega arith)) le,
        omega arith,
        inl refl,
        ground arith,
      )
      | inr gone ↦ rw (short gt gone) (
        omega int_laws,
        omega arith,
        IsWord-sub (actual -ℤ reserved) bal (IsWord-sub actual reserved ha hr (omega arith)) hb
            (omega arith),
        inr refl,
        ground arith,
      )
    ]
  ]

-- Paying an overshoot from a balance, neither of them negative: balance and debt shrink by the same
-- amount, until one of them is gone.
pub pay_overshoot_lem :
    (bal over : ℤ)
    → IsWord bal
    → IsWord over
    → let (bal', over') = pay_overshoot bal over in
      (bal' +ℤ over ≡ bal +ℤ over') × ((bal' ≡ pos 0) ⊎ (over' ≡ pos 0))
unfolding pay_overshoot
pay_overshoot_lem bal over hb ho =
    grind (int_laws, sub64_words bal over hb ho, sub64_words over bal ho hb)
