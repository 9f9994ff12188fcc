-- ===== src/Handlers.antt =====
-- internal/handlers/handlers.go: what a request passes on its way to a backend.
pub mod Admission
mod Tests
pub mod Holdings
pub mod Leaks
pub mod Screen
pub mod Vetted
pub mod Gate
pub mod Route
pub mod Attempt
pub mod Safe
pub mod Usage
pub mod Forward
pub mod Whole
pub mod Accounting
pub mod Reached
pub mod Charge
pub mod Settled
