-- ===== src/Llm/Report.antt =====
-- What the parsers of pkg/llm/usage.go find.
use valve.Common.{
  ℤ, ◌≡◌, refl, ◌∙◌, arith, inl, inr, Bytes, codes, Map, Option, none, some, Option-cases, List, [],
  ◌∷◌, ◌++◌,
}
use valve.Llm.Json.{Library}
use valve.Llm.Usage.{
  Usage, usage_of, chunk_usage_of, parse_usage_json, chunk_raw, parse_delta, parse_usage_from_chunk,
  line_usage, last_usage, parse_usage_sse,
}

nothing_left : (u : Map ℤ) → usage_of u ≡ none → chunk_usage_of u ≡ none
unfolding usage_of chunk_usage_of
nothing_left u h = ground arith

module _ (J : Library) where
  -- Where `ParseUsageJSON` finds nothing, the second attempt finds nothing either.
  chunk_raw-none :
      (raw : Bytes)
      → ((u : Map ℤ) → J.ints raw ≡ some u → usage_of u ≡ none)
      → chunk_raw J raw ≡ none
  unfolding chunk_raw
  chunk_raw-none raw h = elim (Option-cases (J.ints raw)) [
    | inl e ↦ rw e (ground arith)
    | inr (u, e) ↦ rw e (ground (arith, nothing_left u (h u e)))
  ]

  parse_delta-none : (chunk : Bytes) → parse_usage_json J chunk ≡ none → parse_delta J chunk ≡ none
  unfolding parse_usage_json parse_delta
  parse_delta-none chunk h = elim (Option-cases (J.object chunk)) [
    | inl e ↦ rw (e, parse_delta) refl
    | inr (root, e) ↦ elim (Option-cases (root (codes "usage"))) [
      | inl e' ↦ rw (e, e', parse_delta) refl
      | inr (raw, e') ↦
          rw (e, e', parse_delta) (chunk_raw-none raw (λ u q. ground (arith, h, e, e', q)))
    ]
  ]

  -- The second attempt of `parseUsageFromChunk` never finds a usage: on every chunk it is
  -- `ParseUsageJSON`.
  pub parse_usage_from_chunk-parse_usage_json :
      (chunk : Bytes) → parse_usage_from_chunk J chunk ≡ parse_usage_json J chunk
  unfolding parse_usage_from_chunk
  parse_usage_from_chunk-parse_usage_json chunk = ground (arith, parse_delta-none chunk)

  -- No line reports a usage.
  abbrev pub IsSilent : List Bytes → Type 0
  IsSilent [] = Unit {0}
  IsSilent (line ∷ lines) = (line_usage J line ≡ none) × IsSilent lines

  silent_keeps :
      (lines : List Bytes) (last : Option Usage) → IsSilent lines → last_usage J lines last ≡ last
  unfolding last_usage
  silent_keeps [] last h = refl
  silent_keeps (line ∷ lines) last (h, k) = rw h (silent_keeps lines last k)

  last_usage-append :
      (before after : List Bytes) (last : Option Usage)
      → last_usage J (before ++ after) last ≡ last_usage J after (last_usage J before last)
  unfolding last_usage
  last_usage-append [] after last = refl
  last_usage-append (line ∷ before) after last = last_usage-append before after _

  -- `ParseUsageSSE` reports the usage of the last line that has one, whatever lines come before it.
  pub parse_usage_sse_lem :
      (s : Bytes) (before after : List Bytes) (line : Bytes) (u : Usage)
      → (J.scan s).lines ≡ before ++ (line ∷ after)
      → line_usage J line ≡ some u
      → IsSilent after
      → parse_usage_sse J s ≡ some u
  unfolding parse_usage_sse last_usage
  parse_usage_sse_lem s before after line u e h k =
      rw e (last_usage-append before (line ∷ after) none ∙ rw h (silent_keeps after (some u) k))

  -- It reports none where no line has one.
  pub parse_usage_sse-none : (s : Bytes) → IsSilent (J.scan s).lines → parse_usage_sse J s ≡ none
  unfolding parse_usage_sse
  parse_usage_sse-none s k = silent_keeps (J.scan s).lines none k
