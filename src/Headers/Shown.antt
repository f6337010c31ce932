-- ===== src/Headers/Shown.antt =====
-- What a client reads in the headers of pkg/headers/headers.go.
use valve.Common.{
  ℕ, ◌+◌, ◌*◌, ◌≤◌, ◌<◌, ℤ, pos, IsInt64, ◌≡◌, refl, ◌∙◌, arith, false, Bytes, bytes_eq,
  bytes_eq_refl, none, some, List, [], ◌∷◌,
}
use valve.Api.{Decision}
use valve.Bucket.{second}
use valve.Strconv.{Parsed, format_int, parse_int}
use valve.Strconv.RoundTrip.{parse_int-format_int}
use valve.Http.{Emit, set, get}
use valve.Headers.{
  limit_requests, remaining_requests, limit_tokens, remaining_tokens, retry_after, retry_seconds,
  write_retry, write,
}
use valve.Headers.Skip.{skip_set, skip_retry, IsApart, tail, skip_tail}
use valve.Headers.Wait.{seconds_near}

-- A client that reads a header as a decimal number finds the number.
abbrev pub Shows : List Emit → Bytes → ℤ → Type 0
Shows es name n = (v : Bytes) × (get name es ≡ some v) × (parse_int v ≡ Parsed.value n)

limit_requests-IsApart : IsApart limit_requests
unfolding bytes_eq
limit_requests-IsApart = record {
  a = refl;
  b = refl;
  c = refl;
  d = refl;
  e = refl;
  f = refl;
  g = refl;
  h = refl;
}

remaining_requests-IsApart : IsApart remaining_requests
unfolding bytes_eq
remaining_requests-IsApart = record {
  a = refl;
  b = refl;
  c = refl;
  d = refl;
  e = refl;
  f = refl;
  g = refl;
  h = refl;
}

limit_tokens-IsApart : IsApart limit_tokens
unfolding bytes_eq
limit_tokens-IsApart = record {
  a = refl;
  b = refl;
  c = refl;
  d = refl;
  e = refl;
  f = refl;
  g = refl;
  h = refl;
}

remaining_tokens-IsApart : IsApart remaining_tokens
unfolding bytes_eq
remaining_tokens-IsApart = record {
  a = refl;
  b = refl;
  c = refl;
  d = refl;
  e = refl;
  f = refl;
  g = refl;
  h = refl;
}

retry_after-IsApart : IsApart retry_after
unfolding bytes_eq
retry_after-IsApart = record {
  a = refl;
  b = refl;
  c = refl;
  d = refl;
  e = refl;
  f = refl;
  g = refl;
  h = refl;
}

found : (name v : Bytes) (es : List Emit) → get name es ≡ none → get name (set name v ∷ es) ≡ some v
unfolding get
found name v es h = rw (h, bytes_eq_refl name) refl

shown :
    (name : Bytes) (n : ℤ) (es : List Emit)
    → IsInt64 n
    → get name es ≡ some (format_int n)
    → Shows es name n
shown name n es h p = (format_int n, p, parse_int-format_int n h)

module _ (d : Decision) (clock : ℕ → ℕ) where
  past_tail :
      (name : Bytes)
      → IsApart name
      → bytes_eq retry_after name ≡ false
      → get name (tail d clock) ≡ none
  past_tail name v h = skip_tail name d clock v ∙ skip_retry name d.retry_after h

  limit_tokens_found : get limit_tokens (write d clock) ≡ some (format_int d.limit_tpm)
  unfolding write
  limit_tokens_found =
      skip_set limit_tokens limit_requests _ _ (unfold bytes_eq in refl)
      ∙ skip_set limit_tokens remaining_requests _ _ (unfold bytes_eq in refl)
      ∙ found limit_tokens _ _ (
          skip_set limit_tokens remaining_tokens _ _ (unfold bytes_eq in refl)
          ∙ past_tail limit_tokens limit_tokens-IsApart (unfold bytes_eq in refl))

  remaining_tokens_found : get remaining_tokens (write d clock) ≡ some (format_int d.remaining_tpm)
  unfolding write
  remaining_tokens_found =
      skip_set remaining_tokens limit_requests _ _ (unfold bytes_eq in refl)
      ∙ skip_set remaining_tokens remaining_requests _ _ (unfold bytes_eq in refl)
      ∙ skip_set remaining_tokens limit_tokens _ _ (unfold bytes_eq in refl)
      ∙ found remaining_tokens _ _
          (past_tail remaining_tokens remaining_tokens-IsApart (unfold bytes_eq in refl))

  limit_requests_found : get limit_requests (write d clock) ≡ some (format_int d.limit_rpm)
  unfolding write
  limit_requests_found = found limit_requests _ _ (
      skip_set limit_requests remaining_requests _ _ (unfold bytes_eq in refl)
      ∙ skip_set limit_requests limit_tokens _ _ (unfold bytes_eq in refl)
      ∙ skip_set limit_requests remaining_tokens _ _ (unfold bytes_eq in refl)
      ∙ past_tail limit_requests limit_requests-IsApart (unfold bytes_eq in refl))

  remaining_requests_found :
      get remaining_requests (write d clock) ≡ some (format_int d.remaining_rpm)
  unfolding write
  remaining_requests_found =
      skip_set remaining_requests limit_requests _ _ (unfold bytes_eq in refl)
      ∙ found remaining_requests _ _ (
          skip_set remaining_requests limit_tokens _ _ (unfold bytes_eq in refl)
          ∙ skip_set remaining_requests remaining_tokens _ _ (unfold bytes_eq in refl)
          ∙ past_tail remaining_requests remaining_requests-IsApart (unfold bytes_eq in refl))

  retry_after_found : get retry_after (write d clock) ≡ get retry_after (write_retry d.retry_after)
  unfolding write
  retry_after_found =
      skip_set retry_after limit_requests _ _ (unfold bytes_eq in refl)
      ∙ skip_set retry_after remaining_requests _ _ (unfold bytes_eq in refl)
      ∙ skip_set retry_after limit_tokens _ _ (unfold bytes_eq in refl)
      ∙ skip_set retry_after remaining_tokens _ _ (unfold bytes_eq in refl)
      ∙ skip_tail retry_after d clock retry_after-IsApart

  -- A client that parses the headers of requests and of tokens reads the limits and what remains of
  -- them as the decision has them, where these are `int64` numbers.
  pub write-Shows :
      IsInt64 d.limit_rpm
      → IsInt64 d.remaining_rpm
      → IsInt64 d.limit_tpm
      → IsInt64 d.remaining_tpm
      → Shows (write d clock) limit_requests d.limit_rpm
        × Shows (write d clock) remaining_requests d.remaining_rpm
        × Shows (write d clock) limit_tokens d.limit_tpm
        × Shows (write d clock) remaining_tokens d.remaining_tpm
  write-Shows h1 h2 h3 h4 = (
    shown _ _ _ h1 limit_requests_found,
    shown _ _ _ h2 remaining_requests_found,
    shown _ _ _ h3 limit_tokens_found,
    shown _ _ _ h4 remaining_tokens_found,
  )

  written :
      0 < d.retry_after
      → get retry_after (write_retry d.retry_after)
        ≡ some (format_int (pos (retry_seconds d.retry_after)))
  unfolding write_retry
  written h = ground (
    arith,
    found retry_after (format_int (pos (retry_seconds d.retry_after))) [] (unfold get in refl),
  )

  unwritten : d.retry_after ≡ 0 → get retry_after (write_retry d.retry_after) ≡ none
  unfolding write_retry get
  unwritten h = ground arith

  retry_near :
      d.retry_after < 9223372036500000000
      → 0 < d.retry_after
      → (1 ≤ retry_seconds d.retry_after)
        × (d.retry_after ≤ retry_seconds d.retry_after * second + 500000000)
        × (retry_seconds d.retry_after * second ≤ d.retry_after + second)
  unfolding retry_seconds
  retry_near small h = ground (arith, seconds_near d.retry_after small)

  retry_IsInt64 : d.retry_after < 9223372036500000000 → IsInt64 (pos (retry_seconds d.retry_after))
  unfolding retry_seconds
  retry_IsInt64 h = ground (arith, seconds_near d.retry_after h)

  -- A decision with a waiting time below 9223372036.5 seconds, so that rounding it up is still a
  -- `time.Duration`, shows it in `Retry-After`: a number of seconds that is at least 1, at most half
  -- a second less than the time, and at most a second more.
  pub write-Shows_retry :
      d.retry_after < 9223372036500000000
      → 0 < d.retry_after
      → (n : ℕ) × Shows (write d clock) retry_after (pos n)
        × (1 ≤ n)
        × (d.retry_after ≤ n * second + 500000000)
        × (n * second ≤ d.retry_after + second)
  write-Shows_retry small h =
      let (least, short, long) = retry_near small h in
      (
        retry_seconds d.retry_after,
        shown _ _ _ (retry_IsInt64 small) (retry_after_found ∙ written h),
        least,
        short,
        long,
      )

  -- A decision without a waiting time shows none.
  pub write-retry_none : d.retry_after ≡ 0 → get retry_after (write d clock) ≡ none
  write-retry_none h = retry_after_found ∙ unwritten h
