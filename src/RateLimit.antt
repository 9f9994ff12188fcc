-- ===== src/RateLimit.antt =====
-- internal/ratelimit: the in-process limiter with its fixed windows, and the concurrency counter.
pub mod Limiter
pub mod Reserve
pub mod Window
pub mod Admitted
pub mod Concurrency
pub mod InFlight
mod Tests
