-- ===== src/Redis/Reply.antt =====
-- Reading the values of a reply: `toInt64` and `toString` of pkg/store/redis/redis.go.
use valve.Common.{ℕ, zero, suc, ◌*◌, ℤ, pos, pos_part, Bytes, List, [], ◌∷◌}
use valve.Api.{Duration, Time}
use valve.Common.{some}
use valve.Strconv.{Parsed, format_int, parse_int}
use valve.Redis.Server.{Value, int, bytes, other}

-- `n, _ := strconv.ParseInt(…)`
abbrev pub parsed : Parsed ℤ → ℤ
parsed (Parsed.value n) = n
parsed Parsed.bad_syntax = pos 0
parsed (Parsed.out_of_range n) = n

-- `toInt64`
unfoldable pub to_int64 : Value → ℤ
to_int64 (int n) = n
to_int64 (bytes s) = parsed (parse_int s)
to_int64 (other s) = pos 0

-- `toString`
unfoldable pub to_string : Value → Bytes
to_string (int n) = format_int n
to_string (bytes s) = s
to_string (other s) = s

-- `len`
abbrev pub length {ℓ} : {A : Type ℓ} → List A → ℕ
length [] = 0
length (x ∷ xs) = suc (length xs)

-- The element at an index; the code only reads below the length that it tested.
abbrev pub at : List Value → ℕ → Value
at [] i = other []
at (x ∷ xs) zero = x
at (x ∷ xs) (suc i) = at xs i

abbrev pub int_at : List Value → ℕ → ℤ
int_at arr i = to_int64 (at arr i)

-- `time.Duration(n) * time.Millisecond`, and `time.UnixMilli(n)`, where n is not negative.
abbrev pub milliseconds : ℤ → Duration
milliseconds n = pos_part n * 1000000

abbrev pub unix_milli : ℤ → Time
unix_milli n = some (pos_part n * 1000000)
