-- ===== src/Redis/Agree.antt =====
-- The Redis store and the memory store, side by side: `check.lua` and the code around it in
-- pkg/store/redis/redis.go answer as pkg/store/memory/memory.go does.
pub mod Refill
pub mod Keys
pub mod Entries
pub mod Amounts
pub mod Loans
pub mod Alike
pub mod Answers
pub mod Checks
pub mod Runs
pub mod Mirror
