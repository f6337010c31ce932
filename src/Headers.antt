-- ===== src/Headers.antt =====
-- pkg/headers/headers.go: the headers that tell a client of its limits.
pub mod Wait
pub mod Skip
pub mod Shown
mod Tests
use valve.Common.{
  ℕ, zero, ◌+◌, ◌-◌, ◌/◌, ◌%◌, ltb, ℤ, pos, ltb_ℤ, Bool, true, false, ◌||◌, not, if◌then◌else◌,
  Bytes, codes, Option, none, some, List, [], ◌∷◌, ◌++◌,
}
use valve.Api.{Decision, Duration, Time}
use valve.Bucket.{second}
use valve.Strconv.{format_int}
use valve.Http.{Emit, set}

abbrev pub limit_requests : Bytes
limit_requests = codes "x-ratelimit-limit-requests"

abbrev pub remaining_requests : Bytes
remaining_requests = codes "x-ratelimit-remaining-requests"

abbrev pub reset_requests : Bytes
reset_requests = codes "x-ratelimit-reset-requests"

abbrev pub limit_tokens : Bytes
limit_tokens = codes "x-ratelimit-limit-tokens"

abbrev pub remaining_tokens : Bytes
remaining_tokens = codes "x-ratelimit-remaining-tokens"

abbrev pub reset_tokens : Bytes
reset_tokens = codes "x-ratelimit-reset-tokens"

abbrev pub limit_input_tokens : Bytes
limit_input_tokens = codes "x-ratelimit-limit-input-tokens"

abbrev pub remaining_input_tokens : Bytes
remaining_input_tokens = codes "x-ratelimit-remaining-input-tokens"

abbrev pub reset_input_tokens : Bytes
reset_input_tokens = codes "x-ratelimit-reset-input-tokens"

abbrev pub limit_output_tokens : Bytes
limit_output_tokens = codes "x-ratelimit-limit-output-tokens"

abbrev pub remaining_output_tokens : Bytes
remaining_output_tokens = codes "x-ratelimit-remaining-output-tokens"

abbrev pub reset_output_tokens : Bytes
reset_output_tokens = codes "x-ratelimit-reset-output-tokens"

abbrev pub retry_after : Bytes
retry_after = codes "Retry-After"

-- A `Duration` that would be more than the largest one, 2 ^ 63 - 1 nanoseconds, is that one.
abbrev pub saturated : ℕ → Duration
saturated d = if ltb d 9223372036854775808 then d else 9223372036854775807

-- `int(d.Round(time.Second) / time.Second)`, for a d that is not negative.
unfoldable pub seconds : Duration → ℕ
seconds d =
    let r = d % second in
    (if ltb (r + r) second then d - r else saturated (d + (second - r))) / second

-- `formatReset`, at a time: the difference of times stops at zero here as it does there, and at the
-- largest `Duration`.
unfoldable pub format_reset : ℕ → ℕ → Bytes
format_reset t now = format_int (pos (seconds (saturated (t - now)))) ++ codes "s"

-- `if !t.IsZero() { h.Set(name, formatReset(t)) }`
unfoldable pub write_reset : Bytes → Time → ℕ → List Emit
write_reset name none now = []
write_reset name (some t) now = set name (format_reset t now) ∷ []

abbrev pub is_set : Time → Bool
is_set none = false
is_set (some t) = true

-- The headers of the input tokens, and of the output tokens.
unfoldable pub write_part : Bytes → Bytes → Bytes → ℤ → ℤ → Time → ℕ → List Emit
unfolding write_reset
write_part limit_name remaining_name reset_name limit remaining reset now =
    if ltb_ℤ (pos 0) limit || ltb_ℤ (pos 0) remaining || is_set reset
    then set limit_name (format_int limit)
      ∷ set remaining_name (format_int remaining)
      ∷ write_reset reset_name reset now
    else []

-- The value of `Retry-After`.
unfoldable pub retry_seconds : Duration → ℕ
retry_seconds d = if ltb (seconds d) 1 then 1 else seconds d

unfoldable pub write_retry : Duration → List Emit
unfolding retry_seconds
write_retry d = if ltb 0 d then set retry_after (format_int (pos (retry_seconds d))) ∷ [] else []

-- `Write`: `clock` is what the clock reads for the four times.
unfoldable pub write : Decision → (ℕ → ℕ) → List Emit
unfolding write_reset write_part write_retry
write d clock =
    set limit_requests (format_int d.limit_rpm)
    ∷ set remaining_requests (format_int d.remaining_rpm)
    ∷ set limit_tokens (format_int d.limit_tpm)
    ∷ set remaining_tokens (format_int d.remaining_tpm)
    ∷ (write_reset reset_requests d.reset_rpm (clock 0)
        ++ (write_reset reset_tokens d.reset_tpm (clock 1)
            ++ (write_part limit_input_tokens remaining_input_tokens reset_input_tokens d.limit_itpm
                  d.remaining_itpm d.reset_itpm (clock 2)
                ++ (write_part limit_output_tokens remaining_output_tokens reset_output_tokens
                      d.limit_otpm d.remaining_otpm d.reset_otpm (clock 3)
                    ++ write_retry d.retry_after))))
