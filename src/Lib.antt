-- ===== src/Lib.antt =====
-- RegiMux caches artifacts of several ecosystems (containers, Go, Maven, npm, PyPI) in one
-- content-addressable object store with rows of metadata beside it. This library models the parts
-- of it that decide: what a cleanup may delete, what a range of a request covers, what a policy
-- lets through, which endpoint is tried, and how much JSON is read.
--
-- Parts, with paths from the repository's root:
-- - `CacheGc` is internal/cachegc, the cleanup. `Records` has the rows of internal/store/meta,
--   `Classify` the options, the report and the decision about one blob (cleanup.go,
--   cleanup_helpers.go), `References` the roots (references.go), `Graph` the walk over the
--   manifests (references_graph.go), `Manifest` their decoding (graph_parse.go), `World` the two
--   stores with other writers, `Rows` the compare-and-delete of rows (delete.go and
--   internal/store/meta/sql_gc_delete.go), `Delete` the deletion of one blob (delete.go) and
--   `Cleanup` the pass (cleanup.go). `Triple` reasons about the trace of a pass; `Safety`,
--   `DryRun` and `Report` use it, and `Roots` is about references.go.
-- - `JsonBudget` is internal/jsonbudget, which the decoding of manifests calls first.
-- - `ByteRange` is internal/store/object/range.go: `Text` parses and prints, the parent resolves.
-- - `DiskCache` is the capacity of the local cache of objects in internal/store/object
--   (disk_cache_capacity.go): `Fills` has the calls that change it, of disk_cache_shared.go,
--   disk_cache_flight_producer.go, disk_cache_publish.go, disk_cache_fill.go, disk_cache_read.go
--   and disk_cache_read_cache.go. How calls on files end is told to each call.
-- - `Transfer` is the check of partial responses in internal/transfer/range.go, over `ByteRange`.
-- - `Auth` is internal/auth: scope.go, `Allows` of user_directory.go, and validateRequestedScopes and
--   authorize of service.go. The reasons of a decision are its constructors, and nil lists are empty.
-- - `Policy` is internal/policy (dependency.go, rbac.go).
-- - `Endpoints` is internal/ecosystem/endpoint_selector.go.
-- - `MavenVersion` is internal/ecosystems/maven/version.go, the order of Maven versions; the lower
--   case of a text is an argument `to_lower`.
-- - `Coalescer` is internal/coalescer: one fill of a key at a time, for callers in any order.
-- - `Upstream` is internal/ecosystems/container/upstream, the mirrors of a registry: `Health` the
--   states and scores of the endpoints (endpoint_health_types.go, endpoint_health_score.go),
--   `Health.Tracker` the calls on their table (endpoint_health_tracker.go) and `Health.Events`
--   histories of them; `Selection` the choice of the healthy ones (pool_selection_helpers.go);
--   `Scheduler` and `Scheduler.Reservations` the order of the endpoints of a blob and the calls
--   reserved on them (layer_scheduler.go, layer_scheduler_reservations.go), over the snapshots of
--   `Health`; `Failover` the decision to try the next endpoint and the sequential loop
--   (failover_decision.go, failover.go), `Failover.Blob` the attempts that run at the same time
--   (failover_blob.go).
-- - `Prelude` has what they share: int64 over the native numbers, bytes and lists.
--
-- Conventions. Functions keep their names in snake case, and records have the fields that the
-- modelled code reads. An error is a constructor of the component's error type, without its text.
-- A call of a store in `CacheGc` is one step of the state monad `Gc`: before it any number of
-- writes by others happen, and it may fail before or after it took effect, as the list of events
-- says. The trace notes what was read and removed. Times are numbers of nanoseconds with 0 as Go's
-- zero time; `Now` is the time already chosen. Map and set keys that the code joins by a NUL byte
-- are tuples. A test of the context inside a loop stands with the next call of a store. Strings
-- that are parsed are lists of bytes, and others are opaque.
--
-- Bounds. Byte totals and counters of a report are taken not to overflow; sizes and offsets of
-- ranges and scores of endpoints wrap around as int64 does (`wrap64`). The walk over the graph
-- takes fuel: one round for each record of its budget and one more, which is enough because each
-- queued digest is charged to the budget. Making room takes one round for each entry and one more,
-- which is enough because each round but the last removes an entry. The bytes of the local cache are
-- taken not to overflow. Counters of the endpoints wrap around; histories are taken
-- shorter than 2 ^ 63 where that matters.
--
-- Parameters: `Decoder` (JSON decoding and media types), `less` (Go's order of strings), `first_of`
-- (the range set of collectionx), `sort` (its sort of a list), `average` (the moving average of
-- latencies, in floats), `Attempting` (a request to an endpoint and the records of its outcome),
-- `ConcurrentMap` (its map), `Collections` (`Any` and `FilterMap` of lists), `wildcard` (the regular
-- expression of a repository pattern), `to_lower` (strings.ToLower), utf8.Valid and json.Valid.
--
-- Not modelled: streams of bodies, HTTP handlers, SQL and S3 access, schedulers, configuration,
-- passwords and the signatures of tokens, admin pages and the proxies of each ecosystem, which are
-- I/O around these parts. The walk over the graph reads all objects at one moment. The snapshot of
-- the metadata is read in one step.
pub mod Prelude
pub mod Auth
pub mod ByteRange
pub mod CacheGc
pub mod Coalescer
pub mod DiskCache
pub mod Endpoints
pub mod JsonBudget
pub mod MavenVersion
pub mod Policy
pub mod Transfer
pub mod Upstream
