-- ===== src/Lease.antt =====
-- pkg/lease: credits that are borrowed from the store and spent in the process, the reservations
-- that were made from them, and the cache of refusals. A map of the code to a pointer is a map to
-- the value here, and a write through the pointer a write back under its key: every pointer that a
-- method writes through was read from the map, or put into it, under the same lock.
pub mod Config
pub mod DenyCache
pub mod Pool
pub mod Settle
pub mod Refund
pub mod Snapshot
pub mod Keys
pub mod Deny
pub mod Account
pub mod Spend
pub mod Restore
pub mod Handback
pub mod Lifecycle
pub mod Stats
mod Tests
