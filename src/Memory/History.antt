-- ===== src/Memory/History.antt =====
-- Histories of the memory store: the calls of its clients, one after another under the mutex.
use valve.Common.{ℕ, ℤ, Bytes}
use valve.Api.{Key, Limits, Cost}
use valve.Store.{BorrowSpec}
use valve.Memory.State.{Store}
use valve.Memory.Check.{check}
use valve.Memory.Settle.{settle, settle_io}
use valve.Memory.Refund.{refund}
use valve.Memory.Borrow.{borrow}
use valve.Memory.Return.{return_credits}

pub data Call : Type 0 where
  checks : Key → Limits → Cost → Bytes → Call
  settles : Bytes → ℤ → Call
  settles_io : Bytes → ℤ → ℤ → Call
  refunds : Bytes → Call
  borrows : Key → Limits → BorrowSpec → Call
  returns : Key → Limits → ℤ → ℤ → ℤ → ℤ → Call

-- The store after one call at the time `now`.
unfoldable pub step : Store → ℕ → Call → Store
step s now (Call.checks key limits cost id) = (check s now key limits cost id).0
step s now (Call.settles id actual) = (settle s now id actual).0
step s now (Call.settles_io id x y) = (settle_io s now id x y).0
step s now (Call.refunds id) = (refund s now id).0
step s now (Call.borrows key limits spec) = (borrow s now key limits spec).0
step s now (Call.returns key limits a b c d) = (return_credits s now key limits a b c d).0
