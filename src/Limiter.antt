-- ===== src/Limiter.antt =====
-- pkg/limiter/limiter.go: a store with a fail mode, and the fast path over leases when it is
-- enabled. The calls of one client run one after another. The readings of the clock during a call
-- are the values of `clock` in their order, and a new identifier is `none` where the generator
-- fails.
pub mod Backend
pub mod Decide
pub mod Check
pub mod Settle
pub mod Close
pub mod Failure
pub mod Debited
pub mod Paid
pub mod Backing
pub mod Closing
pub mod Remembered
pub mod Overshoot
pub mod Options
mod Tests
