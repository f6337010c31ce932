-- ===== src/Valved/Handlers.antt =====
-- The handlers of cmd/valved/http.go and cmd/valved/grpc.go.
use valve.Common.{
  ℕ, ℤ, pos, Bool, true, false, ◌||◌, if◌then◌else◌, Bytes, codes, Option, none, some, List, [],
  ◌∷◌,
}
use valve.Api.{Key, Limits, Cost, Decision, Result, ok, err, message}
use valve.Client.{ApiLimiter}
use valve.Http.{Emit, set, write_header, error, encode, Json, object, no_fields}
use valve.Logx.{DenyEvent, deny}
use valve.Middleware.Guard.{Rpc, reply, status, internal, invalid_argument}
use valve.Valved.Convert.{
  PbDecision, decision_to_pb, decision_from_http, key_from_pb, limits_from_pb, cost_from_pb,
}

-- What decoding a body gives: the text of the error, or the value.
pub data Decoded (A : Type 0) : Type 0 where
  bad : Bytes → Decoded A
  good : A → Decoded A

-- `checkBody`, and what `toAPI` makes of it. A missing field is zero.
pub record CheckBody : Type 0 where
  pub key : Key
  pub limits : Limits
  pub cost : Cost

-- `settleBody`, and `valvepb.SettleRequest`.
pub record SettleBody : Type 0 where
  pub reservation_id : Bytes
  pub actual_tokens : Option ℤ
  pub actual_input_tokens : Option ℤ
  pub actual_output_tokens : Option ℤ

-- `valvepb.CheckRequest`
pub record CheckRequest : Type 0 where
  pub key : Option Key
  pub limits : Option Limits
  pub cost : Option Cost

abbrev pub is_there : Option ℤ → Bool
is_there none = false
is_there (some n) = true

-- The value of a pointer, and 0 where it is nil.
abbrev pub or_zero : Option ℤ → ℤ
or_zero none = pos 0
or_zero (some n) = n

-- `writeJSON`
unfoldable pub write_json : ℕ → Json → List Emit
write_json code v =
    set (codes "Content-Type") (codes "application/json") ∷ write_header code ∷ encode v ∷ []

-- The answer to `/v1/settle`.
unfoldable pub settle_answer : Result Decision → List Emit
unfolding write_json
settle_answer (err e) = error (message e) 400 ∷ []
settle_answer (ok d) = write_json 200 (decision_from_http d)

-- The answer to `Settle`.
unfoldable pub settle_reply : Result Decision → Rpc PbDecision
settle_reply (err e) = status invalid_argument (message e)
settle_reply (ok d) = reply (decision_to_pb d)

unfoldable pub refund_answer : Result (Unit {0}) → List Emit
unfolding write_json
refund_answer (err e) = error (message e) 400 ∷ []
refund_answer (ok t) = write_json 200 (object no_fields)

unfoldable pub refund_reply : Result (Unit {0}) → Rpc (Unit {0})
refund_reply (err e) = status invalid_argument (message e)
refund_reply (ok t) = reply tt

module _ (sum256 : Bytes → Bytes) where
  -- The answer to `/v1/check`, and to `Check`.
  unfoldable pub check_answer : ℕ → Key → Result Decision → List Emit × List DenyEvent
  unfolding write_json
  check_answer now key (err e) = (error (message e) 500 ∷ [], [])
  check_answer now key (ok d) =
      (write_json 200 (decision_from_http d), if d.allowed then [] else deny sum256 now key d ∷ [])

  unfoldable pub check_reply : ℕ → Key → Result Decision → Rpc PbDecision × List DenyEvent
  check_reply now key (err e) = (status internal (message e), [])
  check_reply now key (ok d) =
      (reply (decision_to_pb d), if d.allowed then [] else deny sum256 now key d ∷ [])

module _ (L : ApiLimiter) (sum256 : Bytes → Bytes) where
  open L use {State}

  -- `httpAPI.check`
  unfoldable pub http_check : State → ℕ → Decoded CheckBody → State × List Emit × List DenyEvent
  unfolding check_answer
  http_check s now (bad t) = (s, error t 400 ∷ [], [])
  http_check s now (good b) =
      let (s', r) = L.check s b.key b.limits b.cost in
      let (emits, events) = check_answer sum256 now b.key r in (s', emits, events)

  -- `grpcServer.Check`
  unfoldable pub grpc_check : State → ℕ → CheckRequest → State × Rpc PbDecision × List DenyEvent
  unfolding check_reply
  grpc_check s now req =
      let key = key_from_pb req.key in
      let (s', r) = L.check s key (limits_from_pb req.limits) (cost_from_pb req.cost) in
      let (answer, events) = check_reply sum256 now key r in (s', answer, events)

-- The call of the limiter that a settlement makes, over HTTP.
unfoldable pub http_settle_call :
    (L : ApiLimiter) → L.State → SettleBody → L.State × Result Decision
http_settle_call L s b =
    if is_there b.actual_input_tokens || is_there b.actual_output_tokens
    then L.settle_io s b.reservation_id (or_zero b.actual_input_tokens)
        (or_zero b.actual_output_tokens)
    else L.settle s b.reservation_id (or_zero b.actual_tokens)

-- The same over gRPC, where the getters give 0 for a number that is not there.
unfoldable pub grpc_settle_call :
    (L : ApiLimiter) → L.State → SettleBody → L.State × Result Decision
grpc_settle_call L s req =
    if is_there req.actual_input_tokens || is_there req.actual_output_tokens
    then L.settle_io s req.reservation_id (or_zero req.actual_input_tokens)
        (or_zero req.actual_output_tokens)
    else L.settle s req.reservation_id (or_zero req.actual_tokens)

-- `httpAPI.settle`
unfoldable pub http_settle : (L : ApiLimiter) → L.State → Decoded SettleBody → L.State × List Emit
unfolding http_settle_call settle_answer
http_settle L s (bad t) = (s, error t 400 ∷ [])
http_settle L s (good b) = let (s', r) = http_settle_call L s b in (s', settle_answer r)

-- `grpcServer.Settle`
unfoldable pub grpc_settle : (L : ApiLimiter) → L.State → SettleBody → L.State × Rpc PbDecision
unfolding grpc_settle_call settle_reply
grpc_settle L s req = let (s', r) = grpc_settle_call L s req in (s', settle_reply r)

-- `httpAPI.refund`
unfoldable pub http_refund : (L : ApiLimiter) → L.State → Decoded Bytes → L.State × List Emit
unfolding refund_answer
http_refund L s (bad t) = (s, error t 400 ∷ [])
http_refund L s (good id) = let (s', r) = L.refund s id in (s', refund_answer r)

-- `grpcServer.Refund`
unfoldable pub grpc_refund : (L : ApiLimiter) → L.State → Bytes → L.State × Rpc (Unit {0})
unfolding refund_reply
grpc_refund L s id = let (s', r) = L.refund s id in (s', refund_reply r)
