-- ===== src/Middleware.antt =====
-- pkg/middleware: the HTTP middleware and the gRPC interceptor that check a limiter before the
-- handler.
pub mod Guard
pub mod Passed
mod Tests
