-- ===== src/Proxy/Request.antt =====
-- What examples/openai-proxy/proxy.go reads of a request.
use valve.Common.{
  ltb, ℤ, pos, pos_part, leb_ℤ, ltb_ℤ, add64, Bool, ◌||◌, ◌&&◌, if◌then◌else◌, Bytes, codes, Option,
  none, some,
}
use valve.Api.{Key, Limits, Cost}
use valve.Logx.{take, hex}
use valve.Memory.State.{is_empty}
use valve.Redis.Errors.{contains}
use valve.Redis.Reply.{length}
use valve.Llm.Json.{Library}
use valve.Llm.Gate.{Gate}
use valve.Llm.Estimate.{ChatEstimate, estimate_chat_request, estimate_tokens}

-- `ProxyConfig`, without the upstream server, the limiter and the time to wait.
pub record Config : Type 0 where
  pub limits : Limits
  pub gate : Gate
  pub tokenizer : Option (Bytes → ℤ)

-- A request: `header` is `Header.Get`, with the empty string for a header that is not there; after
-- the body, reading ends or is an error.
pub record Request : Type 0 where
  pub method : Bytes
  pub path : Bytes
  pub query : Bytes
  pub header : Bytes → Bytes
  pub body : Bytes
  pub body_broken : Bool

-- `limitBytes`
unfoldable pub limit_bytes : Gate → ℤ
limit_bytes g = if leb_ℤ g.max_request_bytes (pos 0) then pos 8388608 else g.max_request_bytes

-- `io.ReadAll(io.LimitReader(r.Body, n))`: the error comes only where the reader still asks for
-- bytes.
unfoldable pub read_limited : ℤ → Request → Option Bytes
read_limited n r =
    if r.body_broken && ltb (length r.body) (pos_part n)
    then none
    else some (take (pos_part n) r.body)

unfoldable pub read_body : Gate → Request → Option Bytes
unfolding read_limited limit_bytes
read_body g r = read_limited (add64 (limit_bytes g) (pos 1)) r

-- `subjectFromRequest`, with `sha256.Sum256`.
unfoldable pub subject_from_request : (Bytes → Bytes) → Request → Bytes
subject_from_request sum256 r =
    let k = r.header (codes "X-API-Key") in
    let a = r.header (codes "Authorization") in
    if is_empty k
    then (if is_empty a then codes "anonymous" else hex (take 8 (sum256 a)))
    else hex (take 8 (sum256 k))

module _ (J : Library) where
  -- `modelFromBody`
  unfoldable pub model_from_body : Bytes → Bytes
  model_from_body body = elim (J.model body) [
    | none ↦ codes "-"
    | some m ↦ if is_empty m then codes "-" else m
  ]

  -- `isStream`
  unfoldable pub is_stream : Bytes → Request → Bool
  is_stream body r =
      J.stream body || contains (r.header (codes "Accept")) (codes "text/event-stream")

  -- The estimate for a body that is no chat request.
  unfoldable pub fallback_estimate : Bytes → ChatEstimate
  fallback_estimate body =
      let m = estimate_tokens J body in
      let n = if ltb_ℤ m (pos 1) then pos 1 else m in
      record { input_tokens = n; output_reserve = pos 0; total_tokens = n }

  unfoldable pub estimate : Option (Bytes → ℤ) → Bytes → ChatEstimate
  unfolding fallback_estimate
  estimate tok body = elim (estimate_chat_request J body tok) [
    | some e ↦ e
    | none ↦ fallback_estimate body
  ]

  abbrev pub key_of : (Bytes → Bytes) → Request → Bytes → Key
  key_of sum256 r body = record {
    subject = subject_from_request sum256 r;
    model = model_from_body body;
  }

abbrev pub cost_of : ℤ → Cost
cost_of total_tokens = record {
  requests = pos 1;
  tokens = total_tokens;
  input_tokens = pos 0;
  output_tokens = pos 0;
}
