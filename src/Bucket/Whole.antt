-- ===== src/Bucket/Whole.antt =====
-- Where the `float64` numbers of pkg/bucket and of the scripts are whole numbers that it has room
-- for. The code computes with rounded numbers, and the model with exact ones. At a limit that is a
-- whole number of tokens a second, at times that are whole seconds, and with whole numbers of tokens
-- below 10 ^ 12, every sum, product and quotient that the code compares is exact, or is rounded up to
-- the same whole number, and the two cannot differ.
use valve.Common.{ℕ, ◌*◌, ◌/◌, ◌<◌, ℤ, pos, pos_part, neg_part, ◌≡◌}
use valve.Api.{Limits, Cost}
use valve.Bucket.{State, scale}
use valve.Store.{BorrowSpec}

-- Below 10 ^ 12, whatever the sign.
pub record IsSmall (n : ℤ) : Type 0 where
  pub above : pos_part n < 1000000000000
  pub below : neg_part n < 1000000000000

-- So many tokens a second, and sixty times as many a minute.
pub record IsWholeRate (limit : ℤ) : Type 0 where
  pub per_second : ℕ
  pub is_rate : limit ≡ pos (60 * per_second)
  pub small : IsSmall limit

pub record AllWhole (limits : Limits) : Type 0 where
  pub requests : IsWholeRate limits.requests_per_minute
  pub tokens : IsWholeRate limits.tokens_per_minute
  pub input_tokens : IsWholeRate limits.input_tokens_per_minute
  pub output_tokens : IsWholeRate limits.output_tokens_per_minute

-- A time in nanoseconds that is a whole second.
abbrev pub IsSecond : ℕ → Type 0
IsSecond now = now ≡ now / 1000000000 * 1000000000

-- A time in milliseconds that is a whole second.
abbrev pub IsSecondMs : ℕ → Type 0
IsSecondMs now_ms = now_ms ≡ now_ms / 1000 * 1000

-- A bucket of a whole rate that holds a whole number of tokens at a whole second.
pub record IsWhole (s : State) : Type 0 where
  pub rate : IsWholeRate s.capacity
  pub tokens : ℕ
  pub holds : s.tokens ≡ scale (pos tokens)
  pub small : IsSmall (pos tokens)
  pub at : IsSecondMs s.last_ms

pub record IsSmallCost (cost : Cost) : Type 0 where
  pub requests : IsSmall cost.requests
  pub tokens : IsSmall cost.tokens

-- The numbers of a `BorrowSpec` for classic limits.
pub record IsSmallSpec (spec : BorrowSpec) : Type 0 where
  pub min_rpm : IsSmall spec.min_rpm
  pub min_tpm : IsSmall spec.min_tpm
  pub chunk_rpm : IsSmall spec.chunk_rpm
  pub chunk_tpm : IsSmall spec.chunk_tpm
