-- ===== src/Examples/Alike.antt =====
-- The two demo servers, whose configurations are the same, treat a request alike.
use valve.Common.{
  ℕ, Bool, not, true, false, Bool-cases, ◌≡◌, refl, ◌⊎◌, inl, inr, Bytes, Option, none,
}
use valve.Api.{Decision, Result, ok, err}
use valve.Client.{ApiLimiter}
use valve.Middleware.Guard.{pass_http, middleware}
use valve.Examples.{
  gin_key, gin_limits, gin_cost, echo_key, echo_limits, echo_cost, valve_gin, valve_echo,
  was_called, chain_error,
}

-- An allowed request is passed on, and what the chain makes of it is the outcome; any other is
-- aborted, without an error.
abbrev pub IsOutcome :
    {S E : Type 0} → (S → Bytes → S × Option E) → S × Result Decision → S → Bool → Option E → Type 0
IsOutcome next (s, err e) s' aborted error = (s' ≡ s) × (aborted ≡ true) × (error ≡ none)
IsOutcome next (s, ok d) s' aborted error =
    ((d.allowed ≡ true)
      × (s' ≡ (next s d.reservation_id).0)
      × (aborted ≡ false)
      × (error ≡ (next s d.reservation_id).1))
    ⊎ ((d.allowed ≡ false) × (s' ≡ s) × (aborted ≡ true) × (error ≡ none))

module _ (L : ApiLimiter) (sum256 : Bytes → Bytes) {E : Type 0} (sub : Bytes) (clock : ℕ → ℕ)
    (now : ℕ) (next : L.State → Bytes → L.State × Option E) where
  -- What the adapters make of the answer to `Check`.
  outcome :
      (r : L.State × Result Decision)
      → let h = pass_http L sum256 (gin_key sub) clock now next r in
        IsOutcome next r h.state (not (was_called h.answer)) (chain_error h.answer)
  unfolding pass_http
  outcome (s, err e) = (refl, refl, refl)
  outcome (s, ok d) = elim (Bool-cases d.allowed) [
    | inl e ↦ rw e (inl (refl, refl, refl, refl))
    | inr e ↦ rw e (inr (refl, refl, refl, refl))
  ]

  -- A server with Gin and one with Echo treat a request alike: they write and log the same and leave
  -- the limiter in the same state. The chain runs exactly where the check of the subject allows the
  -- request, with the reservation in its context, and its error is what Echo returns; in any other
  -- case Gin aborts the context and Echo returns no error.
  pub valve_gin-valve_echo :
      (s : L.State)
      → let (g, aborted) = valve_gin L sum256 s sub clock now next in
        let (h, error) = valve_echo L sum256 s sub clock now next in
        (g ≡ h) × IsOutcome next (L.check s (gin_key sub) gin_limits gin_cost) g.state aborted error
  unfolding valve_gin valve_echo middleware gin_key gin_limits gin_cost echo_key echo_limits
      echo_cost
  valve_gin-valve_echo s = (refl, outcome (L.check s (gin_key sub) gin_limits gin_cost))
