-- ===== src/Proxy/Blocked.antt =====
-- A stream with a line that is too long for the parser of pkg/llm/usage.go.
use valve.Common.{ℕ, ℤ, true, false, ◌≡◌, refl, ap, ◌∙◌, Bytes, some, List, ◌∷◌}
use valve.Api.{Decision, Result, ok}
use valve.Client.{ApiLimiter, Call, checked, logged}
use valve.Redis.Reply.{length}
use valve.Llm.Json.{Library}
use valve.Llm.Gate.{check_bytes, check_input}
use valve.Llm.Metrics.{Metrics}
use valve.Proxy.Request.{Config, Request, read_body, is_stream, estimate, key_of, cost_of}
use valve.Proxy.Serve.{
  Response, Sent, answer, State, blocked, handle_stream, answered, decided, serve_body, serve_http,
}

module _ (L : ApiLimiter) (J : Library) (send : Request → Bytes → Sent) (sum256 : Bytes → Bytes)
    (cfg : Config) (s : L.State) (log : List Call) (m : Metrics) (r : Request) (clock : ℕ → ℕ)
    (body : Bytes) (res : Response) where
  abbrev pub checking : Call
  checking =
      checked (key_of J sum256 r body) cfg.limits
        (cost_of (estimate J cfg.tokenizer body).total_tokens)

  stream_blocks :
      (d : Decision) (h : State (L.State × List Call)) (s' : L.State) (log' : List Call) (b : ℕ)
      (rest : Bytes)
      → d.allowed ≡ true
      → is_stream J body r ≡ true
      → send r body ≡ answer res
      → (J.scan res.streamed).unread ≡ b ∷ rest
      → decided
          (logged L)
          J
          send
          sum256
          cfg
          h
          r
          body
          (estimate J cfg.tokenizer body).total_tokens
          clock
          ((s', log'), ok d)
        ≡ blocked (record { limiter = (s', log'); metrics = h.metrics })
  unfolding decided answered handle_stream
  stream_blocks d h s' log' b rest allowed stream sent unread =
      rw (allowed, stream, sent, unread) refl

  -- An admitted request for a stream that the parser leaves a part of unread never returns. Its
  -- reservation is neither settled nor refunded, and the metrics stay as they are.
  pub serve_blocks :
      (d : Decision) (s' : L.State) (b : ℕ) (rest : Bytes)
      → read_body cfg.gate r ≡ some body
      → check_bytes cfg.gate (length body) ≡ false
      → check_input cfg.gate (estimate J cfg.tokenizer body).input_tokens ≡ false
      → L.check s
          (key_of J sum256 r body)
          cfg.limits
          (cost_of (estimate J cfg.tokenizer body).total_tokens)
        ≡ (s', ok d)
      → d.allowed ≡ true
      → is_stream J body r ≡ true
      → send r body ≡ answer res
      → (J.scan res.streamed).unread ≡ b ∷ rest
      → serve_http (logged L) J send sum256 cfg (record { limiter = (s, log); metrics = m }) r clock
        ≡ blocked (record { limiter = (s', checking ∷ log); metrics = m })
  unfolding serve_http serve_body
  serve_blocks d s' b rest read bytes input check allowed stream sent unread =
      let h : State (L.State × List Call) = record { limiter = (s, log); metrics = m } in
      let total : ℤ = (estimate J cfg.tokenizer body).total_tokens in
      rw (read, serve_http, bytes, input, serve_body)
        (ap
            (λ (x : L.State × Result Decision).
              decided (logged L) J send sum256 cfg h r body total clock
                ((x.0, checking ∷ log), x.1))
            check
          ∙ stream_blocks d h s' (checking ∷ log) b rest allowed stream sent unread)
