-- ===== src/Examples.antt =====
-- examples/gin-ratelimit/main.go and examples/echo-ratelimit/main.go: the HTTP middleware inside two
-- web frameworks. What a framework asks of a handler is a parameter: the rest of its chain, which
-- gets the reservation in its context.
pub mod Alike
mod Tests
use valve.Common.{
  ℕ, pos, Bool, true, false, not, if◌then◌else◌, Bytes, codes, Option, none, some, [],
}
use valve.Api.{Key, Limits, Cost}
use valve.Client.{ApiLimiter}
use valve.Http.{Json, str, flag, object, no_fields, field}
use valve.Memory.State.{Store, new, is_empty}
use valve.Limiter.Backend.{Limiter}
use valve.Limiter.Options.{new_limiter}
use valve.Middleware.Guard.{Handled, middleware}

-- The limiter of both programs.
abbrev pub demo_limiter : Limiter Store
demo_limiter = new_limiter new []

-- `Key` of gin-ratelimit, on the header `X-Subject` of the request.
unfoldable pub gin_key : Bytes → Key
gin_key sub = record {
  subject = if is_empty sub then codes "anonymous" else sub;
  model = codes "demo";
}

-- `Limits` and `Cost` of gin-ratelimit.
unfoldable pub gin_limits : Limits
gin_limits = record {
  requests_per_minute = pos 5;
  tokens_per_minute = pos 1000;
  input_tokens_per_minute = pos 0;
  output_tokens_per_minute = pos 0;
}

unfoldable pub gin_cost : Cost
gin_cost = record {
  requests = pos 1;
  tokens = pos 100;
  input_tokens = pos 0;
  output_tokens = pos 0;
}

-- `Key` of echo-ratelimit, on the header `X-Subject` of the request.
unfoldable pub echo_key : Bytes → Key
echo_key sub = record {
  subject = if is_empty sub then codes "anonymous" else sub;
  model = codes "demo";
}

-- `Limits` and `Cost` of echo-ratelimit.
unfoldable pub echo_limits : Limits
echo_limits = record {
  requests_per_minute = pos 5;
  tokens_per_minute = pos 1000;
  input_tokens_per_minute = pos 0;
  output_tokens_per_minute = pos 0;
}

unfoldable pub echo_cost : Cost
echo_cost = record {
  requests = pos 1;
  tokens = pos 100;
  input_tokens = pos 0;
  output_tokens = pos 0;
}

-- The answer to `/hello`, with the reservation in the context.
unfoldable pub hello : Bytes → Json
hello id =
    object (field (codes "ok") (flag true) (field (codes "reservation_id") (str id) no_fields))

abbrev pub was_called : {A : Type 0} → Option A → Bool
was_called none = false
was_called (some a) = true

-- The error of the chain, and `nil` where it was not called.
abbrev pub chain_error : {E : Type 0} → Option (Option E) → Option E
chain_error none = none
chain_error (some e) = e

module _ (L : ApiLimiter) (sum256 : Bytes → Bytes) where
  open L use {State}

  -- `valveGin`: what is written, and whether the context is aborted.
  unfoldable pub valve_gin :
      {A : Type 0}
      → State
      → Bytes
      → (ℕ → ℕ)
      → ℕ
      → (State → Bytes → State × A)
      → Handled State A × Bool
  unfolding gin_key gin_limits gin_cost
  valve_gin s sub clock now next =
      let h = middleware L sum256 s (gin_key sub) gin_limits gin_cost clock now next in
      (h, not (was_called h.answer))

  -- `valveEcho`: what is written, and the error that is returned. `E` is Go's `error`.
  unfoldable pub valve_echo :
      {E : Type 0}
      → State
      → Bytes
      → (ℕ → ℕ)
      → ℕ
      → (State → Bytes → State × Option E)
      → Handled State (Option E) × Option E
  unfolding echo_key echo_limits echo_cost
  valve_echo s sub clock now next =
      let h = middleware L sum256 s (echo_key sub) echo_limits echo_cost clock now next in
      (h, chain_error h.answer)
