-- ===== src/Upstream.antt =====
-- internal/ecosystems/container/upstream: the mirrors of an upstream registry.
pub mod Selection
pub mod Health
pub mod Scheduler
pub mod Failover
pub mod Examples
