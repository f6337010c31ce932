-- ===== src/Strconv/RoundTrip.antt =====
-- A printed `int64` is read back.
use valve.Common.{
  ℕ, zero, suc, ◌+◌, ◌/◌, ◌%◌, ◌≤◌, ◌<◌, ℤ, pos, negsuc, IsInt64, ◌≡◌, refl, sym, ap, ◌∙◌, arith,
  ◌⊎◌, inl, inr, Bytes, [], ◌∷◌,
}
use valve.Strconv.{
  digits, format_int, scan, parse_uint, parse_int, value, max_uint64, signed, negated,
}

-- Reading the last digit of a number after the ones before it gives the number.
scan_last :
    (n : ℕ) (out : Bytes) → n ≤ max_uint64 → scan ((b'0' + n % 10) ∷ out) (n / 10) ≡ scan out n
unfolding scan
scan_last n out h = ground arith

scan_one : (n : ℕ) (out : Bytes) → n < 10 → scan ((b'0' + n) ∷ out) 0 ≡ scan out n
unfolding scan
scan_one n out h = ground arith

digits_one : (rounds n : ℕ) (out : Bytes) → n < 10 → digits (suc rounds) n out ≡ (b'0' + n) ∷ out
unfolding digits
digits_one rounds n out h = ground arith

digits_more :
    (rounds n : ℕ) (out : Bytes)
    → 10 ≤ n
    → digits (suc rounds) n out ≡ digits rounds (n / 10) ((b'0' + n % 10) ∷ out)
unfolding digits
digits_more rounds n out h = ground arith

few : (n : ℕ) → (n < 10) ⊎ (10 ≤ n)
few n = omega arith

-- With enough rounds, reading the digits of a number is reading on from the number.
scan-digits :
    (rounds n : ℕ) (out : Bytes)
    → n < rounds
    → n ≤ max_uint64
    → scan (digits rounds n out) 0 ≡ scan out n
scan-digits zero n out h fits = absurd (omega arith)
scan-digits (suc rounds) n out h fits = elim (few n) [
  | inl one ↦ rw (digits_one rounds n out one) (scan_one n out one)
  | inr more ↦ rw (digits_more rounds n out more) (
      scan-digits rounds (n / 10) ((b'0' + n % 10) ∷ out) (omega arith) (omega arith)
      ∙ scan_last n out fits)
]

-- The digits begin with a digit.
digits_head :
    (rounds n : ℕ) (out : Bytes)
    → n < rounds
    → (c : ℕ) × (s : Bytes) × (digits rounds n out ≡ c ∷ s) × (b'0' ≤ c)
digits_head zero n out h = absurd (omega arith)
digits_head (suc rounds) n out h = elim (few n) [
  | inl one ↦ rw (digits_one rounds n out one) (b'0' + n, out, refl, omega arith)
  | inr more ↦
      rw (digits_more rounds n out more)
        (digits_head rounds (n / 10) ((b'0' + n % 10) ∷ out) (omega arith))
]

parse_uint-digits :
    (rounds n : ℕ) → n < rounds → n ≤ max_uint64 → parse_uint (digits rounds n []) ≡ value n
unfolding parse_uint
parse_uint-digits rounds n h fits =
    let (c, s, e, d) = digits_head rounds n [] h in rw e (rw⁻¹ e (scan-digits rounds n [] h fits))

parse_int_digit : (c : ℕ) (s : Bytes) → b'0' ≤ c → parse_int (c ∷ s) ≡ signed (parse_uint (c ∷ s))
unfolding parse_int
parse_int_digit c s h = ground arith

signed_value : (n : ℕ) → n < 9223372036854775808 → signed (value n) ≡ value (pos n)
signed_value n h = ground arith

negated_value : (n : ℕ) → n < 9223372036854775808 → negated (value (suc n)) ≡ value (negsuc n)
negated_value n h = ground arith

parse_int_minus : (s : Bytes) → parse_int (b'-' ∷ s) ≡ negated (parse_uint s)
unfolding parse_int
parse_int_minus s = refl

-- Every `int64` is read back from its decimal print.
pub parse_int-format_int : (n : ℤ) → IsInt64 n → parse_int (format_int n) ≡ value n
unfolding format_int
parse_int-format_int (pos n) h =
    let (c, s, e, d) = digits_head (suc n) n [] (omega arith) in
    ap parse_int e
    ∙ parse_int_digit c s d
    ∙ ap (λ x. signed (parse_uint x)) (sym e)
    ∙ ap signed (parse_uint-digits (suc n) n (omega arith) (omega arith))
    ∙ signed_value n (omega arith)
parse_int-format_int (negsuc n) h =
    parse_int_minus (digits (suc (suc n)) (suc n) [])
    ∙ ap negated (parse_uint-digits (suc (suc n)) (suc n) (omega arith) (omega arith))
    ∙ negated_value n (omega arith)
