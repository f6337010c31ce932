-- ===== src/Client.antt =====
-- pkg/api/limiter.go: the interface `Limiter`, which the proxy, the server and the middleware call.
use valve.Common.{ℕ, ◌+◌, ℤ, Bytes, Option, List, ◌∷◌}
use valve.Api.{Key, Limits, Cost, Decision, Result}
use valve.Limiter.Backend.{Backend, Limiter}
use valve.Limiter.Check
use valve.Limiter.Settle

-- A state, the clock included, and the four methods as functions on it.
pub record ApiLimiter : Type 1 where
  pub State : Type 0
  pub check : State → Key → Limits → Cost → State × Result Decision
  pub settle : State → Bytes → ℤ → State × Result Decision
  pub settle_io : State → Bytes → ℤ → ℤ → State × Result Decision
  pub refund : State → Bytes → State × Result (Unit {0})

-- A call of one of the methods.
pub data Call : Type 0 where
  checked : Key → Limits → Cost → Call
  settled : Bytes → ℤ → Call
  settled_io : Bytes → ℤ → ℤ → Call
  refunded : Bytes → Call

-- A limiter with a log of its calls, the last one first.
abbrev pub logged : ApiLimiter → ApiLimiter
logged L = record {
  State = L.State × List Call;
  check = λ (s, log) key limits cost.
      let (s', r) = L.check s key limits cost in ((s', checked key limits cost ∷ log), r);
  settle = λ (s, log) id actual.
      let (s', r) = L.settle s id actual in ((s', settled id actual ∷ log), r);
  settle_io = λ (s, log) id actual_in actual_out.
      let (s', r) = L.settle_io s id actual_in actual_out in
      ((s', settled_io id actual_in actual_out ∷ log), r);
  refund = λ (s, log) id. let (s', r) = L.refund s id in ((s', refunded id ∷ log), r);
}

-- What one call of the limiter takes from outside: identifiers, and the readings of the clock.
pub record Turn : Type 0 where
  pub id : Option Bytes
  pub again : Option Bytes
  pub clock : ℕ → ℕ

-- `limiter.Limiter` as an `api.Limiter`, with the number of calls so far.
abbrev pub limiter : Backend → (ℕ → Turn) → ApiLimiter
limiter B turn = record {
  State = Limiter B.Store × ℕ;
  check = λ (l, n) key limits cost.
      let (l', r) = Check.check B l key limits cost (turn n).id (turn n).again (turn n).clock in
      ((l', n + 1), r);
  settle = λ (l, n) id actual.
      let (l', r) = Settle.settle B l id actual (turn n).clock in ((l', n + 1), r);
  settle_io = λ (l, n) id actual_in actual_out.
      let (l', r) = Settle.settle_io B l id actual_in actual_out (turn n).clock in ((l', n + 1), r);
  refund = λ (l, n) id. let (l', r) = Settle.refund B l id (turn n).clock in ((l', n + 1), r);
}
