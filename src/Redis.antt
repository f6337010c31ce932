-- ===== src/Redis.antt =====
-- pkg/store/redis/redis.go: a store whose buckets and reservations a Redis server holds.
pub mod Keys
pub mod Server
pub mod Reply
pub mod Parse
pub mod Errors
pub mod Calls
pub mod Lua
pub mod Agree
pub mod Rate
mod Tests
