-- ===== src/Llm/Tests.antt =====
-- Runs of pkg/llm on a library that reads one number as the text of `max_tokens` and of the usage.
use valve.Common.{
  ℕ, ℤ, pos, ◌≤ℤ◌, ◌+ℤ◌, ◌≡◌, refl, inl, inr, arith, true, false, Bytes, codes, bytes_eq, Map,
  Option, none, some, List, [], ◌∷◌, ◌++◌, if◌then◌else◌,
}
use valve.Strconv.{Parsed, parse_int}
use valve.Redis.Reply.{length}
use valve.Llm.Json.{Library}
use valve.Llm.Estimate.{ChatEstimate, estimate_chat_request, int_of}
use valve.Llm.Usage.{Usage, line_usage, parse_usage_sse}
use valve.Llm.Total.{total_covers, total_wraps}
use valve.Llm.Report.{parse_usage_sse_lem}

abbrev to_option : Parsed ℤ → Option ℤ
to_option (Parsed.value n) = some n
to_option Parsed.bad_syntax = none
to_option (Parsed.out_of_range n) = none

-- An object whose `max_tokens` and `usage` are the text itself.
abbrev fields : Bytes → Map Bytes
fields body k =
    if bytes_eq k (codes "max_tokens")
    then some body
    else if bytes_eq k (codes "usage")
    then some body
    else none

-- A usage whose prompt has that many tokens.
abbrev usage : Bytes → Map ℤ
usage raw k = if bytes_eq k (codes "prompt_tokens") then to_option (parse_int raw) else none

abbrev lines : List Bytes
lines = codes "data:7" ∷ codes "event" ∷ codes "data:9" ∷ codes "data:[DONE]" ∷ []

abbrev library : Library
library = record {
  object = λ body. some (fields body);
  contents = λ raw. none;
  text = λ raw. none;
  parts = λ raw. none;
  int64 = λ raw. to_option (parse_int raw);
  ints = λ raw. some (usage raw);
  model = λ body. none;
  stream = λ body. false;
  rune_count = λ s. length s;
  trim_space = λ s. s;
  scan = λ s. record { lines = lines; unread = [] };
}

abbrev hundred : ChatEstimate
hundred = record { input_tokens = pos 1; output_reserve = pos 100; total_tokens = pos 101 }

hundred_estimated : estimate_chat_request library (codes "100") none ≡ some hundred
unfolding estimate_chat_request bytes_eq valve.Bucket.ceil_div parse_int valve.Common.add64
    valve.Common.wrap64 ◌+ℤ◌
hundred_estimated = refl

hundred_declared : int_of library (fields (codes "100")) (codes "max_tokens") ≡ some (pos 100)
unfolding int_of bytes_eq parse_int
hundred_declared = refl

total_covers_example : (pos 1 +ℤ pos 100 ≤ℤ pos 101) × (pos 1 ≤ℤ pos 101)
unfolding ◌+ℤ◌
total_covers_example =
    total_covers library (codes "100") none (fields (codes "100")) hundred (pos 100) refl
      hundred_estimated (omega arith) (inl hundred_declared)

-- The largest `int64`.
abbrev largest : Bytes
largest = codes "9223372036854775807"

abbrev wrapped : ChatEstimate
wrapped = record {
  input_tokens = pos 5;
  output_reserve = pos 9223372036854775807;
  total_tokens = pos 1;
}

wrapped_estimated : estimate_chat_request library largest none ≡ some wrapped
unfolding estimate_chat_request bytes_eq valve.Bucket.ceil_div parse_int valve.Common.add64
    valve.Common.wrap64 ◌+ℤ◌
wrapped_estimated = refl

total_wraps_example : ChatEstimate.total_tokens wrapped ≡ pos 1
unfolding ◌+ℤ◌
total_wraps_example =
    total_wraps library largest none (fields largest) wrapped refl wrapped_estimated (omega arith)
      (omega arith) (omega arith)

abbrev nine : Usage
nine = record { input_tokens = pos 9; output_tokens = pos 0 }

nine_found : line_usage library (codes "data:9") ≡ some nine
unfolding line_usage valve.Redis.Errors.has_prefix bytes_eq valve.Llm.Usage.first_int parse_int
nine_found = refl

done_silent : line_usage library (codes "data:[DONE]") ≡ none
unfolding line_usage valve.Redis.Errors.has_prefix bytes_eq
done_silent = refl

parse_usage_sse_lem_example : parse_usage_sse library [] ≡ some nine
parse_usage_sse_lem_example =
    parse_usage_sse_lem library [] (codes "data:7" ∷ codes "event" ∷ []) (codes "data:[DONE]" ∷ [])
      (codes "data:9") nine refl nine_found (done_silent, tt)
