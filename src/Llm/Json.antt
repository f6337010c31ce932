-- ===== src/Llm/Json.antt =====
-- What pkg/llm and the proxy ask of encoding/json, unicode/utf8 and bufio, and `Tokenizer` of
-- pkg/llm/tokenizer.go.
use valve.Common.{ℕ, ℤ, Bool, Bytes, Map, Option, List}

-- A value of type `any`: a string, or anything else.
pub data Any : Type 0 where
  string : Bytes → Any
  other : Any

-- What a `bufio.Scanner` with a buffer of one megabyte makes of a text: the lines, and what it
-- leaves unread after a line that does not fit.
pub record Scanned : Type 0 where
  pub lines : List Bytes
  pub unread : Bytes

-- `json.Unmarshal` into a variable of a type: `none` is an error. A raw message is a text.
pub record Library : Type 0 where
  -- `map[string]json.RawMessage`
  pub object : Bytes → Option (Map Bytes)
  -- `[]struct{ Content json.RawMessage }`
  pub contents : Bytes → Option (List Bytes)
  -- `string`
  pub text : Bytes → Option Bytes
  -- `[]map[string]any`
  pub parts : Bytes → Option (List (Map Any))
  -- `int64`
  pub int64 : Bytes → Option ℤ
  -- `map[string]int64`
  pub ints : Bytes → Option (Map ℤ)
  -- `struct{ Model string }`
  pub model : Bytes → Option Bytes
  -- The field of `struct{ Stream bool }` after decoding, also where that is an error.
  pub stream : Bytes → Bool
  -- `utf8.RuneCountInString`
  pub rune_count : Bytes → ℕ
  -- `strings.TrimSpace`
  pub trim_space : Bytes → Bytes
  pub scan : Bytes → Scanned
