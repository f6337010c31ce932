-- ===== src/Limiter/Backend.antt =====
-- The interface `Store` of pkg/store/store.go, and the limiter's state. A backend is the memory
-- store, the Redis store, or any other: a state, and the six methods as functions on it.
use valve.Common.{ℕ, ℤ, Bytes, Option}
use valve.Api.{Key, Limits, Cost, Decision, FailMode, Result}
use valve.Store.{BorrowSpec, BorrowResult}
use valve.Lease.Pool.{Pool}
use valve.Memory.State
use valve.Memory.Check
use valve.Memory.Settle
use valve.Memory.Refund
use valve.Memory.Borrow
use valve.Memory.Return

pub record Backend : Type 1 where
  pub Store : Type 0
  pub check : Store → ℕ → Key → Limits → Cost → Bytes → Store × Result Decision
  pub settle : Store → ℕ → Bytes → ℤ → Store × Result Decision
  pub settle_io : Store → ℕ → Bytes → ℤ → ℤ → Store × Result Decision
  pub refund : Store → ℕ → Bytes → Store × Result (Unit {0})
  pub borrow : Store → ℕ → Key → Limits → BorrowSpec → Store × Result BorrowResult
  pub return_credits : Store → ℕ → Key → Limits → ℤ → ℤ → ℤ → ℤ → Store × Result (Unit {0})

-- The memory store as a backend.
abbrev pub memory : Backend
memory = record {
  Store = State.Store;
  check = Check.check;
  settle = Settle.settle;
  settle_io = Settle.settle_io;
  refund = Refund.refund;
  borrow = Borrow.borrow;
  return_credits = Return.return_credits;
}

-- `Limiter`, over the store's state; the generator of identifiers is an argument of the methods.
pub record Limiter (S : Type 0) : Type 0 where
  pub store : S
  pub fail_mode : FailMode
  pub pool : Option Pool
