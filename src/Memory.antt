-- ===== src/Memory.antt =====
-- pkg/store/memory/memory.go: the in-process store. Each method holds the mutex from its first read
-- of the state to its return, so that it is one step: a function from the store, its arguments and
-- the clock's reading to the new store and the result.
pub mod State
pub mod Buckets
pub mod Check
pub mod Admission
pub mod Exact
pub mod Lifecycle
pub mod History
pub mod Final
pub mod Valid
pub mod Accounts
pub mod RoundTrip
pub mod Rate
pub mod Loans
pub mod Settle
pub mod Refund
pub mod Borrow
pub mod Return
mod Tests
