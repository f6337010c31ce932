-- ===== src/Valved.antt =====
-- cmd/valved: the server over HTTP and gRPC. Decoding of requests is an argument of the handlers.
pub mod Convert
pub mod Handlers
pub mod Env
pub mod Agree
pub mod Main
mod Tests
