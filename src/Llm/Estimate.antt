-- ===== src/Llm/Estimate.antt =====
-- pkg/llm/estimate.go and pkg/llm/tokenizer.go. An `int` has 64 bits.
use valve.Common.{
  ℤ, pos, ltb_ℤ, leb_ℤ, add64, if◌then◌else◌, Bytes, codes, Map, Option, none, some, List, [], ◌∷◌,
}
use valve.Bucket.{ceil_div}
use valve.Memory.State.{is_empty}
use valve.Llm.Json.{Library, Any, string, other}

-- `ChatEstimate`
pub record ChatEstimate : Type 0 where
  pub input_tokens : ℤ
  pub output_reserve : ℤ
  pub total_tokens : ℤ

-- `n > outReserve`, for a value that is an `int64`.
abbrev pub larger : ℤ → Option ℤ → ℤ
larger reserve none = reserve
larger reserve (some n) = if ltb_ℤ reserve n then n else reserve

-- The end of `EstimateChatRequest`.
unfoldable pub estimate_of : ℤ → ℤ → ChatEstimate
estimate_of input reserve =
    let total = add64 input reserve in
    record {
      input_tokens = input;
      output_reserve = reserve;
      total_tokens = if ltb_ℤ total (pos 1) then pos 1 else total;
    }

module _ (J : Library) where
  -- `EstimateTokens`
  unfoldable pub estimate_tokens : Bytes → ℤ
  estimate_tokens s = if is_empty s then pos 0 else pos (ceil_div (J.rune_count s) 4)

  -- `countText`, with the tokenizer's `Count` if there is one.
  unfoldable pub count_text : Option (Bytes → ℤ) → Bytes → ℤ
  unfolding estimate_tokens
  count_text none s = estimate_tokens s
  count_text (some count) s = count s

  -- The loop over the parts of a message.
  unfoldable pub part_tokens : Option (Bytes → ℤ) → List (Map Any) → ℤ → ℤ
  unfolding count_text
  part_tokens tok [] n = n
  part_tokens tok (p ∷ ps) n = part_tokens tok ps (elim (p (codes "text")) [
    | none ↦ n
    | some v ↦ elim v [ string t ↦ add64 n (count_text tok t) | other ↦ n ]
  ])

  -- `contentTokens`
  unfoldable pub content_tokens : Bytes → Option (Bytes → ℤ) → ℤ
  unfolding count_text part_tokens
  content_tokens raw tok = if is_empty raw then pos 0 else elim (J.text raw) [
    | some s ↦ count_text tok s
    | none ↦ elim (J.parts raw) [
      | some parts ↦ part_tokens tok parts (pos 0)
      | none ↦ count_text tok raw
    ]
  ]

  -- The loop over the messages.
  unfoldable pub message_tokens : Option (Bytes → ℤ) → List Bytes → ℤ → ℤ
  unfolding content_tokens
  message_tokens tok [] input = input
  message_tokens tok (m ∷ ms) input = message_tokens tok ms (add64 input (content_tokens m tok))

  -- The tokens of the messages, or the error of decoding them.
  unfoldable pub messages_input : Option (Bytes → ℤ) → Option Bytes → Option ℤ
  unfolding message_tokens
  messages_input tok none = some (pos 0)
  messages_input tok (some msgs) = elim (J.contents msgs) [
    | none ↦ none
    | some messages ↦ some (message_tokens tok messages (pos 0))
  ]

  unfoldable pub prompt_input : Option (Bytes → ℤ) → Option Bytes → ℤ → ℤ
  unfolding content_tokens
  prompt_input tok none input = input
  prompt_input tok (some prompt) input = add64 input (content_tokens prompt tok)

  -- `if input == 0 && len(body) > 0`
  unfoldable pub or_whole : Option (Bytes → ℤ) → Bytes → ℤ → ℤ
  unfolding count_text
  or_whole tok body input =
      if leb_ℤ input (pos 0)
      then (if leb_ℤ (pos 0) input
          then (if is_empty body then input else count_text tok body)
          else input)
      else input

  -- The value of a key, when it is there and an `int64`.
  unfoldable pub int_of : Map Bytes → Bytes → Option ℤ
  int_of raw key = elim (raw key) [ none ↦ none | some v ↦ J.int64 v ]

  -- The loop over `max_tokens` and `max_completion_tokens`.
  unfoldable pub reserve_of : Map Bytes → ℤ
  unfolding int_of
  reserve_of raw =
      larger (larger (pos 0) (int_of raw (codes "max_tokens")))
        (int_of raw (codes "max_completion_tokens"))

  unfoldable pub estimate_object : Bytes → Option (Bytes → ℤ) → Map Bytes → Option ChatEstimate
  unfolding messages_input prompt_input or_whole reserve_of estimate_of
  estimate_object body tok raw = elim (messages_input tok (raw (codes "messages"))) [
    | none ↦ none
    | some input ↦ some (
        estimate_of (or_whole tok body (prompt_input tok (raw (codes "prompt")) input))
          (reserve_of raw))
  ]

  -- `EstimateChatRequest`: `none` is an error.
  unfoldable pub estimate_chat_request : Bytes → Option (Bytes → ℤ) → Option ChatEstimate
  unfolding estimate_object
  estimate_chat_request body tok = elim (J.object body) [
    | none ↦ none
    | some raw ↦ estimate_object body tok raw
  ]
