-- ===== src/Middleware/Passed.antt =====
-- When the middleware of pkg/middleware calls the handler that follows.
use valve.Common.{
  ℕ, true, false, Bool-cases, ◌≡◌, refl, ◌⊎◌, inl, inr, Bytes, codes, Option, none, some, List, [],
  ◌∷◌, ◌++◌,
}
use valve.Api.{Key, Limits, Cost, Decision, Result, ok, err, message, limit_name}
use valve.Headers
use valve.Http.{Emit, set, write_header, error, encode, Json, str, object, no_fields, field}
use valve.Client.{ApiLimiter}
use valve.Logx.{DenyEvent, deny}
use valve.Middleware.Guard.{
  Rpc, reply, Code, refuse, pass_http, middleware, pass_unary, unary_interceptor,
}

-- The body of a refusal: a client reads the type of the limit in it.
abbrev pub refusal : Decision → Json
refusal d = object (
    field (codes "error")
      (object (
        field (codes "type") (str (codes "rate_limit"))
          (field (codes "limit_type") (str (limit_name d.limit_type)) no_fields)))
      (field (codes "reservation_id") (str d.reservation_id) no_fields))

-- What the two do with a decision or an error. An error is answered with its text, as the status
-- 500 and as `Internal`. An allowed request gets the headers of the decision and the answer of the
-- handler. A refused one gets the headers, the status 429 and the type of the limit, and over gRPC
-- `ResourceExhausted` with the type of the limit, and is logged.
abbrev pub IsPassed :
    {A : Type 0}
    → (Bytes → Bytes)
    → ℕ
    → (ℕ → ℕ)
    → Key
    → Result Decision
    → List Emit
    → Option A
    → Rpc A
    → List DenyEvent
    → Type 0
IsPassed sum256 now clock key (err e) emits answer replied events =
    (emits ≡ error (message e) 500 ∷ [])
    × (answer ≡ none)
    × (replied ≡ Rpc.status Code.internal (codes "valve: " ++ message e))
    × (events ≡ [])
IsPassed {A} sum256 now clock key (ok d) emits answer replied events =
    ((d.allowed ≡ true)
      × (emits ≡ Headers.write d clock)
      × ((a : A) × (answer ≡ some a) × (replied ≡ Rpc.reply a))
      × (events ≡ []))
    ⊎ ((d.allowed ≡ false)
        × (emits
            ≡ Headers.write d clock
              ++ (set (codes "Content-Type") (codes "application/json")
                  ∷ write_header 429
                  ∷ encode (refusal d)
                  ∷ []))
        × (answer ≡ none)
        × (replied
            ≡ Rpc.status Code.resource_exhausted
                (codes "rate limited: " ++ limit_name d.limit_type))
        × (events ≡ deny sum256 now key d ∷ []))

module _ (L : ApiLimiter) (sum256 : Bytes → Bytes) {A : Type 0} (key : Key) (clock : ℕ → ℕ)
    (now : ℕ) (next : L.State → Bytes → L.State × A) where
  -- The handler that follows, for gRPC.
  abbrev pub handler : L.State → Bytes → L.State × Rpc A
  handler s id = let (s', a) = next s id in (s', reply a)

  passed :
      (s : L.State) (r : Result Decision)
      → let h = pass_http L sum256 key clock now next (s, r) in
        let (s', events, a) = pass_unary L sum256 key now handler (s, r) in
        (h.state ≡ s')
        × (h.events ≡ events)
        × IsPassed sum256 now clock key r h.emits h.answer a h.events
  unfolding pass_http pass_unary refuse
  passed s (err e) = (refl, refl, (refl, refl, refl, refl))
  passed s (ok d) = elim (Bool-cases d.allowed) [
    | inl e ↦ rw e (refl, refl, inl (refl, refl, (_, refl, refl), refl))
    | inr e ↦ rw e (refl, refl, inr (refl, refl, refl, refl, refl))
  ]

  -- The HTTP middleware and the gRPC interceptor treat a request alike: both leave the limiter in
  -- the same state, log the same, which is exactly the refusals, and call the handler exactly where
  -- `Check` allows the request. Both answer then what the handler answers, HTTP with the headers of
  -- the decision. A refusal is answered with the headers, the status 429 and a body, and with
  -- `ResourceExhausted`, that name the limit; an error with the status 500 and with `Internal`, with
  -- the text of the error.
  pub middleware-unary_interceptor :
      (s : L.State) (limits : Limits) (cost : Cost)
      → let h = middleware L sum256 s key limits cost clock now next in
        let (s', events, a) = unary_interceptor L sum256 s key limits cost now handler in
        (h.state ≡ s')
        × (h.events ≡ events)
        × IsPassed sum256 now clock key (L.check s key limits cost).1 h.emits h.answer a h.events
  unfolding middleware unary_interceptor
  middleware-unary_interceptor s limits cost =
      passed (L.check s key limits cost).0 (L.check s key limits cost).1
