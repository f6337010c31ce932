-- ===== src/Valved/Env.antt =====
-- The environment of cmd/valved/main.go, and of examples/openai-proxy/main.go, which reads it by the
-- same functions. The values of the variables are an argument, empty where one is not set.
use valve.Common.{
  ℤ, IsInt64, Bool, true, false, ◌||◌, ◌≡◌, refl, if◌then◌else◌, Bytes, codes, bytes_eq, Option,
  none, some, [], ◌∷◌,
}
use valve.Api.{FailMode, fail_open, fail_closed}
use valve.Memory.State.{is_empty}
use valve.Strconv.{Parsed, format_int, parse_int}
use valve.Strconv.RoundTrip.{parse_int-format_int}

-- `strconv.ParseBool`: `none` is an error.
unfoldable pub parse_bool : Bytes → Option Bool
parse_bool v =
    if bytes_eq v (codes "1")
      || bytes_eq v (codes "t")
      || bytes_eq v (codes "T")
      || bytes_eq v (codes "true")
      || bytes_eq v (codes "TRUE")
      || bytes_eq v (codes "True")
    then some true
    else if bytes_eq v (codes "0")
        || bytes_eq v (codes "f")
        || bytes_eq v (codes "F")
        || bytes_eq v (codes "false")
        || bytes_eq v (codes "FALSE")
        || bytes_eq v (codes "False")
    then some false
    else none

abbrev value_or : ℤ → Parsed ℤ → ℤ
value_or d (Parsed.value n) = n
value_or d Parsed.bad_syntax = d
value_or d (Parsed.out_of_range n) = d

abbrev bool_or : Bool → Option Bool → Bool
bool_or d none = d
bool_or d (some b) = b

parsed_full : (v : Bytes) (n : ℤ) → parse_int v ≡ Parsed.value n → is_empty v ≡ false
unfolding parse_int
parsed_full [] n h = absurd (cc)
parsed_full (b ∷ v) n h = refl

module _ (getenv : Bytes → Bytes) where
  -- `env`
  unfoldable pub env : Bytes → Bytes → Bytes
  env k def = if is_empty (getenv k) then def else getenv k

  -- `envBool`
  unfoldable pub env_bool : Bytes → Bool → Bool
  unfolding parse_bool
  env_bool k def = if is_empty (getenv k) then def else bool_or def (parse_bool (getenv k))

  -- `envInt64`
  unfoldable pub env_int64 : Bytes → ℤ → ℤ
  env_int64 k def = if is_empty (getenv k) then def else value_or def (parse_int (getenv k))

  -- The fail mode of `main`.
  unfoldable pub fail_mode : FailMode
  unfolding env
  fail_mode =
      if bytes_eq (env (codes "FAIL_MODE") (codes "closed")) (codes "open")
      then fail_open
      else fail_closed

  -- A variable that holds the decimal text of an `int64` is read as that number.
  pub env_int64-format_int :
      (k : Bytes) (n def : ℤ) → IsInt64 n → getenv k ≡ format_int n → env_int64 k def ≡ n
  unfolding env_int64
  env_int64-format_int k n def h e =
      rw (e, parsed_full (format_int n) n (parse_int-format_int n h), parse_int-format_int n h) refl
