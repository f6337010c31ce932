-- ===== src/Proxy.antt =====
-- examples/openai-proxy/proxy.go: a reverse proxy that reserves the tokens of a request before it
-- forwards it, and settles what the response used. The upstream server and SHA-256 are parameters.
pub mod Request
pub mod Serve
pub mod Answered
pub mod Closed
pub mod Blocked
pub mod Truncated
pub mod Undone
pub mod Main
mod Tests
