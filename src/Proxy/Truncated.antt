-- ===== src/Proxy/Truncated.antt =====
-- How much of a body the proxy of examples/openai-proxy/proxy.go reads.
use valve.Common.{
  ℕ, zero, suc, ◌≤◌, ◌<◌, pos, ◌≤ℤ◌, add64, wrap64, wrap64_lem, ◌+ℤ◌, +ℤ_parts, eq_of_parts, ◌≡◌,
  refl, ap, ◌∙◌, arith, true, false, Bool-cases, leb, Bytes, [], ◌∷◌, some, ◌⊎◌, inl, inr,
}
use valve.Logx.{take}
use valve.Redis.Reply.{length}
use valve.Llm.Gate.{Gate, check_bytes}
use valve.Client.{ApiLimiter}
use valve.Llm.Json.{Library}
use valve.Proxy.Request.{Config, Request, limit_bytes, read_limited, read_body}
use valve.Proxy.Serve.{Sent, State, serve_body, serve_http}

length-take : (n : ℕ) (s : Bytes) → n ≤ length s → length (take n s) ≡ n
length-take zero s h = refl
length-take (suc n) [] h = absurd (omega arith)
length-take (suc n) (b ∷ s) h = ap suc (length-take n s (omega arith))

take_whole : (n : ℕ) (s : Bytes) → length s ≤ n → take n s ≡ s
take_whole zero [] h = refl
take_whole zero (b ∷ s) h = absurd (omega arith)
take_whole (suc n) [] h = refl
take_whole (suc n) (b ∷ s) h = ap (λ (t : Bytes). b ∷ t) (take_whole n s (omega arith))

-- Reading stops before it can meet an error, where the body is at least as long as asked for.
read_enough :
    (n : ℕ) (r : Request) → n ≤ length r.body → read_limited (pos n) r ≡ some (take n r.body)
unfolding read_limited
read_enough n r h = ground arith

read_all :
    (n : ℕ) (r : Request) → r.body_broken ≡ false → read_limited (pos n) r ≡ some (take n r.body)
unfolding read_limited
read_all n r h = rw h refl

no_limit : (g : Gate) → g.max_request_bytes ≤ℤ pos 0 → add64 (limit_bytes g) (pos 1) ≡ pos 8388609
unfolding limit_bytes ◌+ℤ◌
no_limit g h = rw (default g h) (unfold add64 wrap64 in refl)
  where
    default : (g : Gate) → g.max_request_bytes ≤ℤ pos 0 → limit_bytes g ≡ pos 8388608
    default g h = ground arith

limited :
    (g : Gate) (n : ℕ)
    → g.max_request_bytes ≡ pos n
    → 0 < n
    → n < 9223372036854775807
    → add64 (limit_bytes g) (pos 1) ≡ pos (suc n)
unfolding limit_bytes add64
limited g n e h k = rw (given g n e h) (
    wrap64_lem (pos n +ℤ pos 1) (ground (arith, +ℤ_parts (pos n) (pos 1)))
    ∙ eq_of_parts (pos n +ℤ pos 1) (pos (suc n)) (ground (arith, +ℤ_parts (pos n) (pos 1))))
  where
    given : (g : Gate) (n : ℕ) → g.max_request_bytes ≡ pos n → 0 < n → limit_bytes g ≡ pos n
    given g n e h = ground arith

-- With a limit that is positive and below the largest `int64`, a body that can be read without an error is accepted as it is where it keeps to the
-- limit, and where it does not, one byte more than the limit is read, and the gate refuses it.
pub read_body_limited :
    (g : Gate) (r : Request) (n : ℕ)
    → g.max_request_bytes ≡ pos n
    → 0 < n
    → n < 9223372036854775807
    → r.body_broken ≡ false
    → ((length r.body ≤ n)
        × (read_body g r ≡ some r.body)
        × (check_bytes g (length r.body) ≡ false))
      ⊎ ((n < length r.body)
          × (read_body g r ≡ some (take (suc n) r.body))
          × (check_bytes g (length (take (suc n) r.body)) ≡ true))
unfolding read_body check_bytes
read_body_limited g r n e h k whole = elim (Bool-cases (leb (length r.body) n)) [
  | inl q ↦
      let short : length r.body ≤ n = ground (arith, q) in
      inl (
        short,
        rw (limited g n e h k)
            (read_all (suc n) r whole ∙ ap some (take_whole (suc n) r.body (omega arith))),
        ground arith,
      )
  | inr q ↦
      let long : n < length r.body = ground (arith, q) in
      inr (
        long,
        rw (limited g n e h k) (read_enough (suc n) r (omega arith)),
        ground (arith, length-take (suc n) r.body (omega arith)),
      )
]

unchecked : (g : Gate) (n : ℕ) → g.max_request_bytes ≤ℤ pos 0 → check_bytes g n ≡ false
unfolding check_bytes
unchecked g n h = ground arith

read_first :
    (g : Gate) (r : Request)
    → g.max_request_bytes ≤ℤ pos 0
    → 8388609 < length r.body
    → read_body g r ≡ some (take 8388609 r.body)
unfolding read_body
read_first g r h long = rw (no_limit g h) (read_enough 8388609 r (omega arith))

-- Without a limit in the gate, a body of more than 8388609 bytes is not refused: its first 8388609
-- bytes pass for all of it. They keep to the gate, and the proxy serves the request with these bytes
-- as its body: they are what is checked and forwarded.
pub read_body_truncates :
    (L : ApiLimiter) (lib : Library) (send : Request → Bytes → Sent) (sum256 : Bytes → Bytes)
    (cfg : Config) (s : State L.State) (r : Request) (clock : ℕ → ℕ)
    → cfg.gate.max_request_bytes ≤ℤ pos 0
    → 8388609 < length r.body
    → let b = take 8388609 r.body in
      (read_body cfg.gate r ≡ some b)
      × (length b ≡ 8388609)
      × (check_bytes cfg.gate (length b) ≡ false)
      × (serve_http L lib send sum256 cfg s r clock ≡ serve_body L lib send sum256 cfg s r b clock)
unfolding serve_http
read_body_truncates L lib send sum256 cfg s r clock h long = (
  read_first cfg.gate r h long,
  length-take 8388609 r.body (omega arith),
  unchecked cfg.gate (length (take 8388609 r.body)) h,
  rw (read_first cfg.gate r h long, serve_http) refl,
)
