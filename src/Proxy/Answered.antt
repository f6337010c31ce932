-- ===== src/Proxy/Answered.antt =====
-- What `handleJSON` and `handleStream` of examples/openai-proxy/proxy.go do with a reservation.
use valve.Common.{
  ℕ, ℤ, Bool, true, false, ◌&&◌, ◌≡◌, refl, ◌⊎◌, inl, inr, Bool-cases, Bytes, List, [], ◌∷◌,
}
use valve.Api.{Decision, Result, ok, err}
use valve.Client.{ApiLimiter, Call, settled, refunded, logged}
use valve.Llm.Json.{Library}
use valve.Llm.Usage.{parse_usage_sse}
use valve.Proxy.Serve.{
  Response, Sent, not_built, no_answer, answer, State, Outcome, ended, blocked, is_none, give_back,
  settled_state, handle_json, settle_stream, handle_stream, answered,
}

-- The handler returns, in a state of this kind.
abbrev pub Ends : {S : Type 0} → (State S → Type 0) → Outcome S → Type 0
Ends P (ended h es) = P h
Ends P (blocked h) = ⊥

pub Ends-map :
    {S : Type 0} (P Q : State S → Type 0) (o : Outcome S)
    → ((h : State S) → P h → Q h)
    → Ends P o
    → Ends Q o
Ends-map P Q (ended h es) f p = f h p
Ends-map P Q (blocked h) f p = elim p [ ]

-- The log in the end is the log after the check and one call that settles or refunds the
-- reservation.
abbrev pub IsSettledOnce : Bytes → List Call → List Call → Type 0
IsSettledOnce id log log' = (log' ≡ refunded id ∷ log) ⊎ ((n : ℤ) × (log' ≡ settled id n ∷ log))

-- What follows the check: one such call where it allowed the request, and none where it did not.
abbrev pub IsClosed : Result Decision → List Call → List Call → Type 0
IsClosed (err e) log log' = log' ≡ log
IsClosed (ok d) log log' =
    ((d.allowed ≡ false) × (log' ≡ log))
    ⊎ ((d.allowed ≡ true) × IsSettledOnce d.reservation_id log log')

-- The parser of the stream reads all of it: no line is too long for its buffer.
abbrev pub IsRead : Library → Sent → Type 0
IsRead J not_built = Unit {0}
IsRead J no_answer = Unit {0}
IsRead J (answer res) = (J.scan res.streamed).unread ≡ []

module _ (L : ApiLimiter) where
  abbrev pub log_of : State (L.State × List Call) → List Call
  log_of h = h.limiter.1

  settled_once :
      (h : State (L.State × List Call)) (id : Bytes) (estimated actual : ℤ)
      → (n : ℤ) × (log_of
            (settled_state (logged L) h estimated actual ((logged L).settle h.limiter id actual))
          ≡ settled id n ∷ log_of h)
  settled_once h id estimated actual = (actual, by_answer h estimated actual _ _)
    where
      by_answer :
          (h : State (L.State × List Call)) (estimated actual : ℤ) (s : L.State × List Call)
          (r : Result Decision)
          → log_of (settled_state (logged L) h estimated actual (s, r)) ≡ s.1
      by_answer h estimated actual s (err e) = unfold settled_state in refl
      by_answer h estimated actual s (ok d) = unfold settled_state in refl

  given_back :
      (h : State (L.State × List Call)) (id : Bytes)
      → log_of (give_back (logged L) h id) ≡ refunded id ∷ log_of h
  unfolding give_back
  given_back h id = refl

  module _ (J : Library) where
    json_closes :
        (h : State (L.State × List Call)) (res : Response) (d : Decision) (estimated : ℤ)
        (clock : ℕ → ℕ)
        → Ends
            (λ h'. IsSettledOnce d.reservation_id (log_of h) (log_of h'))
            (handle_json (logged L) J h res d estimated clock)
    unfolding handle_json
    json_closes h res d estimated clock = elim (Bool-cases res.body_broken) [
      | inl e ↦ rw e (inl (given_back h d.reservation_id))
      | inr e ↦ rw e (inr (settled_once h d.reservation_id estimated _))
    ]

    settle_stream_closes :
        (h : State (L.State × List Call)) (res : Response) (d : Decision) (estimated : ℤ)
        → IsSettledOnce d.reservation_id
            (log_of h)
            (log_of (settle_stream (logged L) J h res d estimated))
    unfolding settle_stream
    settle_stream_closes h res d estimated =
        elim (Bool-cases (res.stream_failed && is_none (parse_usage_sse J res.streamed))) [
          | inl e ↦ rw e (inl (given_back h d.reservation_id))
          | inr e ↦ rw e (inr (settled_once h d.reservation_id estimated _))
        ]

    stream_closes :
        (h : State (L.State × List Call)) (res : Response) (d : Decision) (estimated : ℤ)
        (clock : ℕ → ℕ)
        → (J.scan res.streamed).unread ≡ []
        → Ends
            (λ h'. IsSettledOnce d.reservation_id (log_of h) (log_of h'))
            (handle_stream (logged L) J h res d estimated clock)
    unfolding handle_stream
    stream_closes h res d estimated clock read = rw read (settle_stream_closes h res d estimated)

    pub answered_closes :
        (h : State (L.State × List Call)) (stream : Bool) (d : Decision) (estimated : ℤ)
        (clock : ℕ → ℕ) (sent : Sent)
        → IsRead J sent
        → Ends
            (λ h'. IsSettledOnce d.reservation_id (log_of h) (log_of h'))
            (answered (logged L) J h stream d estimated clock sent)
    unfolding answered
    answered_closes h stream d estimated clock not_built v = inl (given_back h d.reservation_id)
    answered_closes h stream d estimated clock no_answer v = inl (given_back h d.reservation_id)
    answered_closes h true d estimated clock (answer res) v =
        stream_closes h res d estimated clock v
    answered_closes h false d estimated clock (answer res) v = json_closes h res d estimated clock
