-- ===== src/Strconv.antt =====
-- What the repository uses of Go's strconv: `FormatInt` and `ParseInt` in base 10 with 64 bits.
pub mod RoundTrip
use valve.Common.{
  ℕ, zero, suc, ◌+◌, ◌-◌, ◌*◌, ◌/◌, ◌%◌, ℤ, pos, negsuc, ltb, leb, ◌==◌, ◌||◌, if◌then◌else◌, Bytes,
  [], ◌∷◌, true, false,
}

-- The digits of a number before those that are there. A round divides by ten: as many rounds as the
-- number has are enough.
unfoldable pub digits : ℕ → ℕ → Bytes → Bytes
digits zero n out = out
digits (suc rounds) n out = elim (ltb n 10) [
  | true ↦ (b'0' + n) ∷ out
  | false ↦ digits rounds (n / 10) ((b'0' + n % 10) ∷ out)
]

-- `strconv.FormatInt(n, 10)`
unfoldable pub format_int : ℤ → Bytes
unfolding digits
format_int (pos n) = digits (suc n) n []
format_int (negsuc n) = b'-' ∷ digits (suc (suc n)) (suc n) []

-- What `ParseUint` makes of a text: a number, `ErrSyntax`, or `ErrRange`.
pub data Parsed (A : Type 0) : Type 0 where
  value : A → Parsed A
  bad_syntax : Parsed A
  out_of_range : A → Parsed A

abbrev pub max_uint64 : ℕ
max_uint64 = 18446744073709551615

-- The loop of `ParseUint`.
unfoldable pub scan : Bytes → ℕ → Parsed ℕ
scan [] n = value n
scan (c ∷ s) n = elim (ltb c b'0' || ltb b'9' c) [
  | true ↦ bad_syntax
  | false ↦
      let n' = n * 10 + (c - b'0') in
      elim (ltb max_uint64 n') [ true ↦ out_of_range max_uint64 | false ↦ scan s n' ]
]

unfoldable pub parse_uint : Bytes → Parsed ℕ
unfolding scan
parse_uint [] = bad_syntax
parse_uint (c ∷ s) = scan (c ∷ s) 0

-- The end of `ParseInt`, for a number without and with a minus sign.
abbrev pub signed : Parsed ℕ → Parsed ℤ
signed bad_syntax = bad_syntax
signed (out_of_range n) = out_of_range (pos 9223372036854775807)
signed (value n) =
    if ltb n 9223372036854775808 then value (pos n) else out_of_range (pos 9223372036854775807)

abbrev pub minus : ℕ → ℤ
minus zero = pos 0
minus (suc n) = negsuc n

abbrev pub negated : Parsed ℕ → Parsed ℤ
negated bad_syntax = bad_syntax
negated (out_of_range n) = out_of_range (negsuc 9223372036854775807)
negated (value n) =
    if leb n 9223372036854775808 then value (minus n) else out_of_range (negsuc 9223372036854775807)

-- `strconv.ParseInt(s, 10, 64)`
unfoldable pub parse_int : Bytes → Parsed ℤ
unfolding parse_uint
parse_int [] = bad_syntax
parse_int (c ∷ s) = elim (c == b'-') [
  | true ↦ negated (parse_uint s)
  | false ↦ elim (c == b'+') [ true ↦ signed (parse_uint s) | false ↦ signed (parse_uint (c ∷ s)) ]
]
