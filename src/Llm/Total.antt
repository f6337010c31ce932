-- ===== src/Llm/Total.antt =====
-- What `EstimateChatRequest` of pkg/llm/estimate.go reserves in total.
use valve.Common.{
  ℤ, pos, ◌≤ℤ◌, ◌<ℤ◌, ◌+ℤ◌, +ℤ_parts, add64, wrap64, IsInt64, IsWord, wrap64_lem, ◌≡◌, sym, subst,
  ◌⊎◌, inl, inr, arith, Bytes, codes, Map, Option, none, some, Option-cases,
}
use valve.Llm.Json.{Library}
use valve.Llm.Estimate.{
  ChatEstimate, larger, messages_input, prompt_input, or_whole, int_of, reserve_of, estimate_of,
  estimate_object, estimate_chat_request,
}

add64_below : (a b : ℤ) → IsInt64 (a +ℤ b) → add64 a b ≡ a +ℤ b
unfolding add64
add64_below a b h = wrap64_lem (a +ℤ b) h

-- A sum of two numbers that are not negative wraps to a negative number once it is out of range.
add64_above :
    (a b : ℤ) → IsWord a → IsWord b → pos 9223372036854775807 <ℤ a +ℤ b → add64 a b <ℤ pos 0
unfolding add64 wrap64
add64_above a b h k big = ground (arith, +ℤ_parts a b)

reserve_has :
    (first second : Option ℤ) (n : ℤ)
    → (first ≡ some n) ⊎ (second ≡ some n)
    → n ≤ℤ larger (larger (pos 0) first) second
reserve_has none none n h = ground arith
reserve_has none (some m) n h = ground arith
reserve_has (some m) none n h = ground arith
reserve_has (some m) (some k) n h = ground arith

sum_covers : (input reserve n : ℤ) → n ≤ℤ reserve → input +ℤ n ≤ℤ input +ℤ reserve
sum_covers input reserve n h = ground (arith, +ℤ_parts input reserve, +ℤ_parts input n)

-- What a sum of an input and a reserve covers: the input together with less than the reserve.
abbrev Covers : ℤ → ChatEstimate → Type 0
Covers n e =
    IsInt64 (e.input_tokens +ℤ e.output_reserve)
    → (e.input_tokens +ℤ n ≤ℤ e.total_tokens) × (pos 1 ≤ℤ e.total_tokens)

estimate_of-Covers : (input reserve n : ℤ) → n ≤ℤ reserve → Covers n (estimate_of input reserve)
unfolding estimate_of
estimate_of-Covers input reserve n h small =
    rw (add64_below input reserve small) (ground (arith, sum_covers input reserve n h))

abbrev Wraps : ChatEstimate → Type 0
Wraps e =
    IsWord e.input_tokens
    → IsWord e.output_reserve
    → pos 9223372036854775807 <ℤ e.input_tokens +ℤ e.output_reserve
    → e.total_tokens ≡ pos 1

estimate_of-Wraps : (input reserve : ℤ) → Wraps (estimate_of input reserve)
unfolding estimate_of
estimate_of-Wraps input reserve h k big = ground (arith, add64_above input reserve h k big)

module _ (J : Library) (body : Bytes) (tok : Option (Bytes → ℤ)) (raw : Map Bytes) where
  -- The estimate of a decoded body is made of some input and the reserve.
  pub estimate_parts :
      (e : ChatEstimate)
      → J.object body ≡ some raw
      → estimate_chat_request J body tok ≡ some e
      → (input : ℤ) × (e ≡ estimate_of input (reserve_of J raw))
  unfolding estimate_chat_request estimate_object
  estimate_parts e o p = elim (Option-cases (messages_input J tok (raw (codes "messages")))) [
    | inl bad ↦ absurd (cc)
    | inr (input, good) ↦
        (or_whole J tok body (prompt_input J tok (raw (codes "prompt")) input), cc)
  ]

  -- An estimate whose sum is an `int64` reserves at least the input together with `max_tokens`, and
  -- with `max_completion_tokens`, where the request has one that is an `int64`, and at least one
  -- token.
  pub total_covers :
      (e : ChatEstimate) (n : ℤ)
      → J.object body ≡ some raw
      → estimate_chat_request J body tok ≡ some e
      → IsInt64 (e.input_tokens +ℤ e.output_reserve)
      → (int_of J raw (codes "max_tokens") ≡ some n)
        ⊎ (int_of J raw (codes "max_completion_tokens") ≡ some n)
      → (e.input_tokens +ℤ n ≤ℤ e.total_tokens) × (pos 1 ≤ℤ e.total_tokens)
  unfolding estimate_of reserve_of
  total_covers e n o p small has =
      let (input, parts) = estimate_parts e o p in
      subst (Covers n) (sym parts)
        (estimate_of-Covers input (reserve_of J raw) n (reserve_has _ _ n has)) small

  -- A request that declares so many tokens that the sum of its input and its reserve is no `int64`
  -- reserves a single token.
  pub total_wraps :
      (e : ChatEstimate)
      → J.object body ≡ some raw
      → estimate_chat_request J body tok ≡ some e
      → IsWord e.input_tokens
      → IsWord e.output_reserve
      → pos 9223372036854775807 <ℤ e.input_tokens +ℤ e.output_reserve
      → e.total_tokens ≡ pos 1
  unfolding estimate_of
  total_wraps e o p small reserve big =
      let (input, parts) = estimate_parts e o p in
      subst Wraps (sym parts) (estimate_of-Wraps input (reserve_of J raw)) small reserve big
