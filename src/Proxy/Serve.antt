-- ===== src/Proxy/Serve.antt =====
-- `ServeHTTP`, `handleJSON` and `handleStream` of examples/openai-proxy/proxy.go. A request is
-- served in one go: `clock` is what the clock reads for the times of the headers.
use valve.Common.{
  ℕ, ◌+◌, leb, bytes_eq, ℤ, pos, ltb_ℤ, Bool, true, false, ◌&&◌, if◌then◌else◌, Bytes, codes,
  Option, none, some, List, [], ◌∷◌, ◌++◌,
}
use valve.Api.{Decision, Result, ok, err, message, limit_name}
use valve.Client.{ApiLimiter}
use valve.Http.{Emit, set, add, write_header, write, error, encode, str, object, no_fields, field}
use valve.Headers
use valve.Memory.State.{is_empty}
use valve.Redis.Reply.{length}
use valve.Llm.Json.{Library}
use valve.Llm.Gate.{check_bytes, check_input}
use valve.Llm.Usage.{Usage, total, parse_usage_json, parse_usage_sse}
use valve.Llm.Metrics.{Metrics, add_settle}
use valve.Proxy.Request.{Config, Request, read_body, is_stream, estimate, key_of, cost_of}

-- A response of the upstream server: its status, its headers, its body, after which reading ends or
-- is an error; and of a stream what `io.Copy` brings to the client before the body ends or one of
-- the two fails.
pub record Response : Type 0 where
  pub status : ℕ
  pub header : List (Bytes × Bytes)
  pub body : Bytes
  pub body_broken : Bool
  pub streamed : Bytes
  pub stream_failed : Bool

-- The request cannot be built, the upstream server does not answer, or it does.
pub data Sent : Type 0 where
  not_built no_answer : Sent
  answer : Response → Sent

-- What outlives a request: the limiter's state, and `llm.DefaultMetrics`.
pub record State (S : Type 0) : Type 0 where
  pub limiter : S
  pub metrics : Metrics

-- The handler returns after its calls on the writer, or it waits forever.
pub data Outcome (S : Type 0) : Type 0 where
  ended : State S → List Emit → Outcome S
  blocked : State S → Outcome S

-- `strings.EqualFold(k, "Content-Length")`
abbrev pub lower : Bytes → Bytes
lower [] = []
lower (b ∷ s) = (if leb b'A' b && leb b b'Z' then b + 32 else b) ∷ lower s

unfoldable pub equal_fold : Bytes → Bytes → Bool
equal_fold s t = bytes_eq (lower s) (lower t)

-- The loop over the headers of the response: all but `Content-Length` are copied.
unfoldable pub copy_headers : List (Bytes × Bytes) → List Emit
unfolding equal_fold
copy_headers [] = []
copy_headers ((k, v) ∷ headers) =
    let rest = copy_headers headers in
    if equal_fold k (codes "Content-Length") then rest else add k v ∷ rest

-- The usage that was found, if it is positive, or else the estimate.
unfoldable pub actual_tokens : ℤ → Option Usage → ℤ
actual_tokens estimated none = estimated
actual_tokens estimated (some u) = if ltb_ℤ (pos 0) (total u) then total u else estimated

abbrev pub too_large : List Emit
too_large = error (codes "valve/llm: request too large") 413 ∷ []

abbrev pub is_none : Option Usage → Bool
is_none none = true
is_none (some u) = false

-- The answer to a request that the limiter refuses.
unfoldable pub refuse : Decision → (ℕ → ℕ) → List Emit
refuse dec clock =
    Headers.write dec clock
    ++ (set (codes "Content-Type") (codes "application/json")
        ∷ write_header 429
        ∷ encode (
            object (
              field (codes "error")
                (object (
                  field (codes "type") (str (codes "rate_limit"))
                    (field (codes "limit_type") (str (limit_name dec.limit_type)) no_fields)))
                no_fields))
        ∷ [])

-- `sd`: the decision whose headers are written.
abbrev pub shown_decision : Decision → Result Decision → Decision
shown_decision dec (err e) = dec
shown_decision dec (ok d) = d

module _ (L : ApiLimiter) where
  -- `Refund`, whose error is ignored.
  unfoldable pub give_back : State L.State → Bytes → State L.State
  give_back h id = record h { limiter = (L.refund h.limiter id).0 }

  -- The limiter's answer to `Settle`, and the metrics where that is no error.
  unfoldable pub settled_state : State L.State → ℤ → ℤ → L.State × Result Decision → State L.State
  settled_state h estimated actual (s, err e) = record h { limiter = s }
  settled_state h estimated actual (s, ok d) = record {
    limiter = s;
    metrics = add_settle h.metrics estimated actual;
  }

  module _ (J : Library) where
    -- `handleJSON`, after the headers of the response.
    unfoldable pub handle_json : State L.State → Response → Decision → ℤ → (ℕ → ℕ) → Outcome L.State
    unfolding give_back settled_state
    handle_json h res dec estimated clock =
        if res.body_broken
        then ended (give_back h dec.reservation_id)
            (copy_headers res.header ++ (error (codes "upstream read") 502 ∷ []))
        else let actual = actual_tokens estimated (parse_usage_json J res.body) in
          let result = L.settle h.limiter dec.reservation_id actual in
          ended (settled_state h estimated actual result) (
            copy_headers res.header
            ++ (Headers.write (shown_decision dec result.1) clock
                ++ (write_header res.status ∷ write res.body ∷ [])))

    -- The end of `handleStream`, after the parser is done.
    unfoldable pub settle_stream : State L.State → Response → Decision → ℤ → State L.State
    unfolding give_back settled_state
    settle_stream h res dec estimated =
        let usage = parse_usage_sse J res.streamed in
        let actual = actual_tokens estimated usage in
        if res.stream_failed && is_none usage
        then give_back h dec.reservation_id
        else settled_state h estimated actual (L.settle h.limiter dec.reservation_id actual)

    -- `handleStream`: each write to the pipe waits until the parser has read it, and the parser
    -- reads nothing more once a line was too long for it.
    unfoldable pub handle_stream :
        State L.State → Response → Decision → ℤ → (ℕ → ℕ) → Outcome L.State
    unfolding settle_stream
    handle_stream h res dec estimated clock =
        if is_empty (J.scan res.streamed).unread
        then ended (settle_stream h res dec estimated) (
            copy_headers res.header
            ++ (Headers.write dec clock ++ (write_header res.status ∷ write res.streamed ∷ [])))
        else blocked h

    -- `ServeHTTP` with the answer of the upstream server.
    unfoldable pub answered : State L.State → Bool → Decision → ℤ → (ℕ → ℕ) → Sent → Outcome L.State
    unfolding give_back handle_stream handle_json
    answered h stream dec estimated clock not_built =
        ended (give_back h dec.reservation_id) (error (codes "upstream request") 502 ∷ [])
    answered h stream dec estimated clock no_answer =
        ended (give_back h dec.reservation_id) (error (codes "upstream error") 502 ∷ [])
    answered h stream dec estimated clock (answer res) =
        if stream
        then handle_stream h res dec estimated clock
        else handle_json h res dec estimated clock

    module _ (send : Request → Bytes → Sent) (sum256 : Bytes → Bytes) (cfg : Config) where
      -- `ServeHTTP` after `Check`.
      unfoldable pub decided :
          State L.State
          → Request
          → Bytes
          → ℤ
          → (ℕ → ℕ)
          → L.State × Result Decision
          → Outcome L.State
      unfolding answered refuse
      decided h r body estimated clock (s, err e) =
          ended (record h { limiter = s }) (error (message e) 500 ∷ [])
      decided h r body estimated clock (s, ok dec) =
          if dec.allowed
          then answered (record h { limiter = s }) (is_stream J body r) dec estimated clock
              (send r body)
          else ended (record h { limiter = s }) (refuse dec clock)

      -- `ServeHTTP` on the body.
      unfoldable pub serve_body : State L.State → Request → Bytes → (ℕ → ℕ) → Outcome L.State
      unfolding decided
      serve_body h r body clock =
          if check_bytes cfg.gate (length body)
          then ended h too_large
          else let est = estimate J cfg.tokenizer body in
            if check_input cfg.gate est.input_tokens
            then ended h too_large
            else decided h r body est.total_tokens clock
                (L.check h.limiter (key_of J sum256 r body) cfg.limits (cost_of est.total_tokens))

      -- `ServeHTTP`
      unfoldable pub serve_http : State L.State → Request → (ℕ → ℕ) → Outcome L.State
      unfolding serve_body
      serve_http h r clock = elim (read_body cfg.gate r) [
        | none ↦ ended h (error (codes "read body") 400 ∷ [])
        | some body ↦ serve_body h r body clock
      ]
