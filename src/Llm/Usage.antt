-- ===== src/Llm/Usage.antt =====
-- pkg/llm/usage.go: the usage that a response reports. `none` stands for a `false` in the second
-- result.
use valve.Common.{
  ℕ, zero, suc, ℤ, pos, ltb_ℤ, leb_ℤ, add64, Bool, ◌&&◌, ◌||◌, not, if◌then◌else◌, Bytes, codes,
  bytes_eq, Map, Option, none, some, List, [], ◌∷◌,
}
use valve.Memory.State.{is_empty}
use valve.Redis.Errors.{has_prefix}
use valve.Llm.Json.{Library}

pub record Usage : Type 0 where
  pub input_tokens : ℤ
  pub output_tokens : ℤ

-- `Total`
unfoldable pub total : Usage → ℤ
total u = add64 u.input_tokens u.output_tokens

abbrev pub is_zero : ℤ → Bool
is_zero n = leb_ℤ n (pos 0) && leb_ℤ (pos 0) n

-- `firstInt`
unfoldable pub first_int : Map ℤ → List Bytes → ℤ
first_int m [] = pos 0
first_int m (k ∷ keys) = elim (m k) [ some v ↦ v | none ↦ first_int m keys ]

abbrev pub tokens_in : Map ℤ → ℤ
tokens_in u = first_int u (codes "prompt_tokens" ∷ codes "input_tokens" ∷ [])

abbrev pub tokens_out : Map ℤ → ℤ
tokens_out u = first_int u (codes "completion_tokens" ∷ codes "output_tokens" ∷ [])

-- The total alone, where it is positive.
unfoldable pub only_total : Option ℤ → Option Usage
only_total none = none
only_total (some t) =
    if ltb_ℤ (pos 0) t then some (record { input_tokens = t; output_tokens = pos 0 }) else none

-- `ParseUsageJSON` on the decoded usage.
unfoldable pub usage_of : Map ℤ → Option Usage
unfolding only_total
usage_of u =
    if is_zero (tokens_in u) && is_zero (tokens_out u)
    then only_total (u (codes "total_tokens"))
    else some (record { input_tokens = tokens_in u; output_tokens = tokens_out u })

-- The second attempt of `parseUsageFromChunk` on the decoded usage.
unfoldable pub chunk_usage_of : Map ℤ → Option Usage
chunk_usage_of u =
    if not (is_zero (tokens_in u)) || not (is_zero (tokens_out u))
    then some (record { input_tokens = tokens_in u; output_tokens = tokens_out u })
    else none

-- `strings.TrimPrefix(line, "data:")`, on a line that has the prefix.
abbrev pub drop : ℕ → Bytes → Bytes
drop zero s = s
drop (suc n) [] = []
drop (suc n) (b ∷ s) = drop n s

module _ (J : Library) where
  -- `ParseUsageJSON`
  unfoldable pub parse_usage_json : Bytes → Option Usage
  unfolding usage_of
  parse_usage_json body = elim (J.object body) [
    | none ↦ none
    | some root ↦ elim (root (codes "usage")) [
      | none ↦ none
      | some raw ↦ elim (J.ints raw) [ none ↦ none | some u ↦ usage_of u ]
    ]
  ]

  -- The raw usage of a chunk that is not `null`.
  unfoldable pub chunk_raw : Bytes → Option Usage
  unfolding chunk_usage_of
  chunk_raw raw =
      if not (bytes_eq raw (codes "null"))
      then elim (J.ints raw) [ none ↦ none | some u ↦ chunk_usage_of u ]
      else none

  -- `parseUsageFromChunk` after `ParseUsageJSON` found nothing.
  unfoldable pub parse_delta : Bytes → Option Usage
  unfolding chunk_raw
  parse_delta chunk = elim (J.object chunk) [
    | none ↦ none
    | some root ↦ elim (root (codes "usage")) [ none ↦ none | some raw ↦ chunk_raw raw ]
  ]

  -- `parseUsageFromChunk`
  unfoldable pub parse_usage_from_chunk : Bytes → Option Usage
  unfolding parse_usage_json parse_delta
  parse_usage_from_chunk chunk = elim (parse_usage_json chunk) [
    | some u ↦ some u
    | none ↦ parse_delta chunk
  ]

  -- The text of an event, unless it ends the stream or is empty.
  unfoldable pub chunk_usage : Bytes → Option Usage
  unfolding parse_usage_from_chunk
  chunk_usage chunk =
      if bytes_eq chunk (codes "[DONE]") || is_empty chunk
      then none
      else parse_usage_from_chunk chunk

  -- One round of the loop over the lines.
  unfoldable pub line_usage : Bytes → Option Usage
  unfolding chunk_usage
  line_usage line =
      if not (has_prefix line (codes "data:"))
      then none
      else chunk_usage (J.trim_space (drop 5 line))

  -- The loop over the lines, with the last usage found.
  unfoldable pub last_usage : List Bytes → Option Usage → Option Usage
  unfolding line_usage
  last_usage [] last = last
  last_usage (line ∷ lines) last =
      last_usage lines (elim (line_usage line) [ some u ↦ some u | none ↦ last ])

  -- `ParseUsageSSE`
  unfoldable pub parse_usage_sse : Bytes → Option Usage
  unfolding last_usage
  parse_usage_sse s = last_usage (J.scan s).lines none
