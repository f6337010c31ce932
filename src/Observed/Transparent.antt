-- ===== src/Observed/Transparent.antt =====
-- What `ObservedLimiter` of pkg/metrics/metrics.go answers and counts over a row of calls.
use valve.Common.{ℕ, ◌+◌, ◌-◌, codes, ℤ, ◌≡◌, refl, ap, arith, List, [], ◌∷◌}
use valve.Api.{Decision, Result, ok, err}
use valve.Client.{ApiLimiter, Call, checked, settled, settled_io, refunded}
use valve.Observed.{
  Counters, inc_check, inc_settle, add_overshoot, count_check, count_settle, count_settle_io,
  count_refund, observed,
}

-- What a call answers.
pub data Answer : Type 0 where
  decision : Result Decision → Answer
  done : Result (Unit {0}) → Answer

-- One call, and a row of calls.
abbrev pub perform : (L : ApiLimiter) → L.State → Call → L.State × Answer
perform L s (checked key limits cost) = let (s', r) = L.check s key limits cost in (s', decision r)
perform L s (settled id n) = let (s', r) = L.settle s id n in (s', decision r)
perform L s (settled_io id n k) = let (s', r) = L.settle_io s id n k in (s', decision r)
perform L s (refunded id) = let (s', r) = L.refund s id in (s', done r)

abbrev pub perform_all : (L : ApiLimiter) → List Call → L.State → L.State × List Answer
perform_all L [] s = (s, [])
perform_all L (c ∷ cs) s =
    let (s', a) = perform L s c in let (s'', as') = perform_all L cs s' in (s'', a ∷ as')

abbrev pub failures : List Answer → ℕ
failures [] = 0
failures (decision (err e) ∷ rest) = failures rest + 1
failures (decision (ok d) ∷ rest) = failures rest
failures (done (err e) ∷ rest) = failures rest + 1
failures (done (ok t) ∷ rest) = failures rest

failures-cons :
    (a : Answer) (rest : List Answer) → failures (a ∷ rest) ≡ failures (a ∷ []) + failures rest
failures-cons (decision (ok d)) rest = omega arith
failures-cons (decision (err e)) rest = omega arith
failures-cons (done (ok t)) rest = omega arith
failures-cons (done (err e)) rest = omega arith

overshoot_errs : (n : ℤ) (c : Counters) → (add_overshoot n c).store_errs ≡ c.store_errs
unfolding add_overshoot
overshoot_errs n c = ground arith

module _ (L : ApiLimiter) (now : L.State → ℕ) where
  check_errs :
      (c : Counters) (r : Result Decision)
      → (count_check c r).store_errs ≡ failures (decision r ∷ []) + c.store_errs
  unfolding count_check inc_check
  check_errs c (ok d) = omega arith
  check_errs c (err e) = omega arith

  settle_errs :
      (c : Counters) (r : Result Decision)
      → (count_settle c r).store_errs ≡ failures (decision r ∷ []) + c.store_errs
  unfolding count_settle inc_settle
  settle_errs c (ok d) = omega (arith, overshoot_errs d.overshoot_tpm (inc_settle (codes "ok") c))
  settle_errs c (err e) = omega arith

  settle_io_errs :
      (c : Counters) (r : Result Decision)
      → (count_settle_io c r).store_errs ≡ failures (decision r ∷ []) + c.store_errs
  unfolding count_settle_io inc_settle
  settle_io_errs c (ok d) = omega (
    arith,
    overshoot_errs d.overshoot_otpm (add_overshoot d.overshoot_itpm (inc_settle (codes "ok") c)),
    overshoot_errs d.overshoot_itpm (inc_settle (codes "ok") c),
  )
  settle_io_errs c (err e) = omega arith

  refund_errs :
      (c : Counters) (r : Result (Unit {0}))
      → (count_refund c r).store_errs ≡ failures (done r ∷ []) + c.store_errs
  unfolding count_refund
  refund_errs c (ok d) = omega arith
  refund_errs c (err e) = omega arith

  -- The two rows of answers, states and counters.
  abbrev pub IsSame : List Call → L.State → Counters → Type 0
  IsSame calls s c =
      ((perform_all (observed L now) calls (s, c)).0.0 ≡ (perform_all L calls s).0)
      × ((perform_all (observed L now) calls (s, c)).1 ≡ (perform_all L calls s).1)
      × ((perform_all (observed L now) calls (s, c)).0.1.store_errs
          ≡ failures (perform_all L calls s).1 + c.store_errs)

  one_more :
      (s : L.State) (c : Counters) (call : Call) (calls : List Call)
      → ((s' : L.State) (c' : Counters) → IsSame calls s' c')
      → IsSame (call ∷ calls) s c
  one_more s c (checked key limits cost) calls ih =
      let (s', r) = L.check s key limits cost in
      let c1 : Counters = record c { durations = (now s' - now s) ∷ c.durations } in
      let c' = count_check c1 r in
      let (state, answers, errs) = ih s' c' in
      (
        state,
        ap (λ (l : List Answer). decision r ∷ l) answers,
        omega (arith, errs, check_errs c1 r, failures-cons (decision r) (perform_all L calls s').1),
      )
  one_more s c (settled id n) calls ih =
      let (s', r) = L.settle s id n in
      let (state, answers, errs) = ih s' (count_settle c r) in
      (
        state,
        ap (λ (l : List Answer). decision r ∷ l) answers,
        omega (arith, errs, settle_errs c r, failures-cons (decision r) (perform_all L calls s').1),
      )
  one_more s c (settled_io id n k) calls ih =
      let (s', r) = L.settle_io s id n k in
      let (state, answers, errs) = ih s' (count_settle_io c r) in
      (
        state,
        ap (λ (l : List Answer). decision r ∷ l) answers,
        omega (
          arith,
          errs,
          settle_io_errs c r,
          failures-cons (decision r) (perform_all L calls s').1,
        ),
      )
  one_more s c (refunded id) calls ih =
      let (s', r) = L.refund s id in
      let (state, answers, errs) = ih s' (count_refund c r) in
      (
        state,
        ap (λ (l : List Answer). done r ∷ l) answers,
        omega (arith, errs, refund_errs c r, failures-cons (done r) (perform_all L calls s').1),
      )

  -- Over any row of calls, the observed limiter answers what the limiter itself answers and leaves
  -- it in the same state, and it counts exactly the calls that are answered with an error.
  pub observed_lem : (calls : List Call) (s : L.State) (c : Counters) → IsSame calls s c
  observed_lem [] s c = (refl, refl, omega arith)
  observed_lem (call ∷ calls) s c = one_more s c call calls (observed_lem calls)
