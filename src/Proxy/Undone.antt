-- ===== src/Proxy/Undone.antt =====
-- The proxy of examples/openai-proxy/proxy.go over the limiter and the memory store.
use valve.Common.{ℕ, ◌+◌, ◌≡◌, refl, Bytes, none, some}
use valve.Api.{Key, Limits, Cost, FailMode}
use valve.Client.{ApiLimiter, limiter}
use valve.Memory.State.{Store}
use valve.Memory.Check
use valve.Memory.Refund
use valve.Memory.Exact.{rpm_bucket, tpm_bucket}
use valve.Limiter.Backend.{Limiter, memory}
use valve.Limiter.Settle.{refund_store}
use valve.Llm.Json.{Library}
use valve.Llm.Metrics.{Metrics}
use valve.Proxy.Request.{Config, Request, estimate, key_of, cost_of}
use valve.Proxy.Serve.{Sent, State}

-- A limiter without leases over the memory store, at one moment and with one identifier.
abbrev pub moment : Bytes → ℕ → ApiLimiter
moment id now = limiter memory (λ n. record { id = some id; again = none; clock = λ i. now })

abbrev pub direct : FailMode → Store → Limiter Store
direct mode s = record { store = s; fail_mode = mode; pool = none }

module _ (s : Store) (now : ℕ) (key : Key) (limits : Limits) (cost : Cost) (id : Bytes)
    (mode : FailMode) (n : ℕ) where
  direct_refund :
      (i : Bytes)
      → ((moment id now).refund (direct mode s, n) i).0
        ≡ (direct mode (Refund.refund s now i).0, n + 1)
  unfolding valve.Limiter.Settle.refund refund_store
  direct_refund i = refl

-- Both buckets of a key are, as later calls at the time load them, those of a store.
abbrev pub IsUndone : Store → ℕ → Key → Limits → State (Limiter Store × ℕ) → Type 0
IsUndone s now key limits h =
    (rpm_bucket h.limiter.0.store now key limits ≡ rpm_bucket s now key limits)
    × (tpm_bucket h.limiter.0.store now key limits ≡ tpm_bucket s now key limits)

module _ (J : Library) (send : Request → Bytes → Sent) (sum256 : Bytes → Bytes) (cfg : Config)
    (s : Store) (now : ℕ) (id : Bytes) (mode : FailMode) (n : ℕ) (m : Metrics) (r : Request)
    (clock : ℕ → ℕ) (body : Bytes) where
  abbrev key : Key
  key = key_of J sum256 r body

  abbrev cost : Cost
  cost = cost_of (estimate J cfg.tokenizer body).total_tokens
