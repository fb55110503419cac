-- ===== src/CacheGc.antt =====
-- internal/cachegc: the cleanup of cached artifacts shared by all ecosystems. `Records` has the rows
-- of the metadata store, `Classify` the decision about one blob, `References` and `Graph` the digests
-- that live metadata protects, `World` the stores as they change under the cleanup, `Delete` the
-- deletion of one blob and `Cleanup` the pass over all of them.
pub mod Examples
pub mod Records
pub mod Classify
pub mod Outcome
pub mod Graph
pub mod Manifest
pub mod References
pub mod World
pub mod Rows
pub mod Delete
pub mod Cleanup
pub mod Triple
pub mod Safety
pub mod Live
pub mod Roots
pub mod Report
pub mod DryRun
