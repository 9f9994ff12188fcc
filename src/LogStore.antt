-- ===== src/LogStore.antt =====
-- internal/logstore/logstore.go: the records, the queries, the statistics, and the bounded
-- store in memory.
pub mod Memory
pub mod Retention
pub mod Query
pub mod Stats
pub mod Sums
pub mod Counted
mod Tests
