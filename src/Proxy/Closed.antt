-- ===== src/Proxy/Closed.antt =====
-- Every reservation that the proxy of examples/openai-proxy/proxy.go makes is settled or refunded.
use valve.Common.{
  ℕ, ℤ, Bool, true, false, ◌≡◌, refl, ◌⊎◌, inl, inr, Bool-cases, Bytes, codes, Option, none, some,
  List, [], ◌∷◌, if◌then◌else◌,
}
use valve.Api.{Cost, Decision, Result, ok, err}
use valve.Client.{ApiLimiter, Call, checked, logged}
use valve.Http.{error}
use valve.Redis.Reply.{length}
use valve.Llm.Json.{Library}
use valve.Llm.Gate.{check_bytes, check_input}
use valve.Llm.Metrics.{Metrics}
use valve.Proxy.Request.{Config, Request, read_body, is_stream, estimate, key_of, cost_of}
use valve.Proxy.Serve.{Sent, State, ended, answered, decided, refuse, serve_body, serve_http}
use valve.Proxy.Answered.{Ends, Ends-map, IsSettledOnce, IsClosed, IsRead, log_of, answered_closes}

module _ (L : ApiLimiter) (J : Library) (send : Request → Bytes → Sent) (sum256 : Bytes → Bytes)
    (cfg : Config) where
  decided_closes :
      (h : State (L.State × List Call)) (r : Request) (body : Bytes) (estimated : ℤ) (clock : ℕ → ℕ)
      (s : L.State) (log : List Call) (answer : Result Decision)
      → IsRead J (send r body)
      → Ends
          (λ h'. IsClosed answer log (log_of L h'))
          (decided (logged L) J send sum256 cfg h r body estimated clock ((s, log), answer))
  unfolding decided
  decided_closes h r body estimated clock s log (err e) v = refl
  decided_closes h r body estimated clock s log (ok d) v = by_allowed d.allowed refl
    where
      by_allowed :
          (b : Bool)
          → d.allowed ≡ b
          → Ends
              (λ h'. IsClosed (ok d) log (log_of L h'))
              (if b
                then answered
                    (logged L)
                    J
                    (record h { limiter = (s, log) })
                    (is_stream J body r)
                    d
                    estimated
                    clock
                    (send r body)
                else ended (record h { limiter = (s, log) }) (refuse d clock))
      by_allowed true e =
          Ends-map (λ h'. IsSettledOnce d.reservation_id log (log_of L h'))
            (λ h'. IsClosed (ok d) log (log_of L h'))
            (answered (logged L) J (record h { limiter = (s, log) }) (is_stream J body r) d
              estimated clock (send r body))
            (λ h' c. inr (e, c))
            (answered_closes L J (record h { limiter = (s, log) }) (is_stream J body r) d estimated
              clock (send r body) v)
      by_allowed false e = inl (e, refl)

  abbrev pub estimated_input : Bytes → ℤ
  estimated_input body = (estimate J cfg.tokenizer body).input_tokens

  -- Why a request ends before the check: its body cannot be read, or the gate refuses it.
  abbrev pub IsTurnedAway : Request → Type 0
  IsTurnedAway r =
      (read_body cfg.gate r ≡ none)
      ⊎ ((body : Bytes) × (read_body cfg.gate r ≡ some body)
          × ((check_bytes cfg.gate (length body) ≡ true)
              ⊎ (check_input cfg.gate (estimated_input body) ≡ true)))

  -- The check of a request.
  abbrev pub cost : Bytes → Cost
  cost body = cost_of (estimate J cfg.tokenizer body).total_tokens

  -- What a request leaves in the log.
  abbrev pub IsServed : L.State → List Call → Request → List Call → Type 0
  IsServed s log r log' =
      (IsTurnedAway r × (log' ≡ log))
      ⊎ ((body : Bytes) × (read_body cfg.gate r ≡ some body)
          × IsClosed (L.check s (key_of J sum256 r body) cfg.limits (cost body)).1
              (checked (key_of J sum256 r body) cfg.limits (cost body) ∷ log) log')

  served :
      (s : L.State) (log : List Call) (m : Metrics) (r : Request) (clock : ℕ → ℕ) (body : Bytes)
      → read_body cfg.gate r ≡ some body
      → IsRead J (send r body)
      → Ends
          (λ h. IsServed s log r (log_of L h))
          (serve_body
            (logged L)
            J
            send
            sum256
            cfg
            (record { limiter = (s, log); metrics = m })
            r
            body
            clock)
  unfolding serve_body
  served s log m r clock body p v = elim (Bool-cases (check_bytes cfg.gate (length body))) [
    | inl e ↦ rw e (inl (inr (body, p, inl e), refl))
    | inr e ↦ elim (Bool-cases (check_input cfg.gate (estimated_input body))) [
      | inl e' ↦ rw (e, e') (inl (inr (body, p, inr e'), refl))
      | inr e' ↦
          let answer : Result Decision =
            (L.check s (key_of J sum256 r body) cfg.limits (cost body)).1 in
          let s' : L.State = (L.check s (key_of J sum256 r body) cfg.limits (cost body)).0 in
          let log' : List Call = checked (key_of J sum256 r body) cfg.limits (cost body) ∷ log in
          let h : State (L.State × List Call) = record { limiter = (s, log); metrics = m } in
          let total : ℤ = (estimate J cfg.tokenizer body).total_tokens in
          rw (e, e')
            (Ends-map (λ h'. IsClosed answer log' (log_of L h'))
              (λ h'. IsServed s log r (log_of L h'))
              (decided (logged L) J send sum256 cfg h r body total clock ((s', log'), answer))
              (λ h' c. inr (body, p, c)) (decided_closes h r body total clock s' log' answer v))
    ]
  ]

  -- Where the parser can read every stream that the upstream server answers the request with,
  -- the handler returns. A request that is turned away before the check makes no call of the
  -- limiter. Any other makes one `Check`; where that allows the request, exactly one `Settle` or
  -- `Refund` of its reservation follows, and none where it does not or is an error.
  pub serve_closes :
      (s : L.State) (log : List Call) (m : Metrics) (r : Request) (clock : ℕ → ℕ)
      → ((body : Bytes) → IsRead J (send r body))
      → Ends
          (λ h. IsServed s log r (log_of L h))
          (serve_http
            (logged L)
            J
            send
            sum256
            cfg
            (record { limiter = (s, log); metrics = m })
            r
            clock)
  unfolding serve_http
  serve_closes s log m r clock v = by_body (read_body cfg.gate r) refl
    where
      by_body :
          (o : Option Bytes)
          → read_body cfg.gate r ≡ o
          → Ends
              (λ h. IsServed s log r (log_of L h))
              (elim o [
                | none ↦
                    ended
                      (record { limiter = (s, log); metrics = m })
                      (error (codes "read body") 400 ∷ [])
                | some body ↦
                    serve_body
                      (logged L)
                      J
                      send
                      sum256
                      cfg
                      (record { limiter = (s, log); metrics = m })
                      r
                      body
                      clock
              ])
      by_body none e = inl (inl e, refl)
      by_body (some body) e = served s log m r clock body e (v body)
