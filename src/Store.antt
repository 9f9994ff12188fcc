-- ===== src/Store.antt =====
-- internal/store/store.go: backends and their health, API keys, and the catalog that holds them.
pub mod Backend
pub mod Health
pub mod Slots
pub mod Routable
pub mod Pattern
pub mod Search
pub mod Glob
pub mod Keys
pub mod Permission
pub mod Catalog
pub mod Load
pub mod Resolve
pub mod Registry
pub mod Samples
mod Tests
