-- ===== src/Middleware/Guard.antt =====
-- `Middleware` of pkg/middleware/http/middleware.go and `UnaryInterceptor` of
-- pkg/middleware/grpc/interceptor.go. The handler that follows is a parameter: it gets the
-- identifier of the reservation in its context.
use valve.Common.{ℕ, Bytes, codes, ◌++◌, Option, none, some, List, [], ◌∷◌, if◌then◌else◌}
use valve.Api.{Key, Limits, Cost, Decision, Result, ok, err, message, limit_name}
use valve.Client.{ApiLimiter}
use valve.Http.{Emit, set, write_header, error, encode, str, object, no_fields, field}
use valve.Headers
use valve.Logx.{DenyEvent, deny}

-- What is written and what is logged, and what the handler that follows answered, if it was called.
pub record Handled (S A : Type 0) : Type 0 where
  pub state : S
  pub emits : List Emit
  pub events : List DenyEvent
  pub answer : Option A

-- The answer of the middleware to a refused request.
unfoldable pub refuse : Decision → List Emit
refuse d =
    set (codes "Content-Type") (codes "application/json")
    ∷ write_header 429
    ∷ encode (
        object (
          field (codes "error")
            (object (
              field (codes "type") (str (codes "rate_limit"))
                (field (codes "limit_type") (str (limit_name d.limit_type)) no_fields)))
            (field (codes "reservation_id") (str d.reservation_id) no_fields)))
    ∷ []

-- The codes of the errors of gRPC that the repository uses.
pub data Code : Type 0 where
  internal resource_exhausted invalid_argument : Code

-- `status.Errorf`, or an answer.
pub data Rpc (A : Type 0) : Type 0 where
  reply : A → Rpc A
  status : Code → Bytes → Rpc A

module _ (L : ApiLimiter) (sum256 : Bytes → Bytes) {A : Type 0} where
  open L use {State}

  -- `Middleware` on the answer to `Check`. `next` writes its own answer.
  unfoldable pub pass_http :
      Key → (ℕ → ℕ) → ℕ → (State → Bytes → State × A) → State × Result Decision → Handled State A
  unfolding refuse
  pass_http key clock now next (s, err e) = record {
    state = s;
    emits = error (message e) 500 ∷ [];
    events = [];
    answer = none;
  }
  pass_http key clock now next (s, ok d) =
      if d.allowed
      then (let (s', a) = next s d.reservation_id in
          record { state = s'; emits = Headers.write d clock; events = []; answer = some a })
      else record {
        state = s;
        emits = Headers.write d clock ++ refuse d;
        events = deny sum256 now key d ∷ [];
        answer = none;
      }

  -- `Middleware`, with what the functions of the configuration make of the request.
  unfoldable pub middleware :
      State → Key → Limits → Cost → (ℕ → ℕ) → ℕ → (State → Bytes → State × A) → Handled State A
  unfolding pass_http
  middleware s key limits cost clock now next =
      pass_http key clock now next (L.check s key limits cost)

  -- `UnaryInterceptor` on the answer to `Check`.
  unfoldable pub pass_unary :
      Key
      → ℕ
      → (State → Bytes → State × Rpc A)
      → State × Result Decision
      → State × List DenyEvent × Rpc A
  pass_unary key now handler (s, err e) = (s, [], status internal (codes "valve: " ++ message e))
  pass_unary key now handler (s, ok d) =
      if d.allowed then (let (s', a) = handler s d.reservation_id in (s', [], a)) else (
        s,
        deny sum256 now key d ∷ [],
        status resource_exhausted (codes "rate limited: " ++ limit_name d.limit_type),
      )

  -- `UnaryInterceptor`
  unfoldable pub unary_interceptor :
      State
      → Key
      → Limits
      → Cost
      → ℕ
      → (State → Bytes → State × Rpc A)
      → State × List DenyEvent × Rpc A
  unfolding pass_unary
  unary_interceptor s key limits cost now handler =
      pass_unary key now handler (L.check s key limits cost)
