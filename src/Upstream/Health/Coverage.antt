-- ===== src/Upstream/Health/Coverage.antt =====
-- A failure of one repository, in
-- internal/ecosystems/container/upstream/endpoint_health_tracker.go, and the other snapshots.
use regimux.Prelude.{ℕ, ◌≡◌, [], ◌∷◌, Option, none, some}
use regimux.Prelude.Bytes.{Bytes}
use regimux.Upstream.Health.{
  EndpointHealthOptions, EndpointHealthState, EndpointHealthSnapshot, fresh, snapshot_of,
  combined_snapshot,
}
use regimux.Upstream.Health.Tracker.{EndpointHealthTracker, store, options}
use regimux.Upstream.Health.Table.{normalize_twice}

-- What a snapshot depends on.
abbrev endpoint_at : EndpointHealthTracker → Bytes → EndpointHealthState
endpoint_at t row = elim (t.states row []) [ some s ↦ s | none ↦ fresh row [] ]

abbrev view :
    EndpointHealthOptions
    → EndpointHealthState
    → Option EndpointHealthState
    → ℕ
    → EndpointHealthSnapshot
view o endpoint none now = snapshot_of o endpoint now
view o endpoint (some repo) now = combined_snapshot o endpoint repo now

abbrev seen : EndpointHealthTracker → Bytes → Bytes → ℕ → EndpointHealthSnapshot
seen t row [] now = snapshot_of (options t) (endpoint_at t row) now
seen t row (b ∷ s) now = view (options t) (endpoint_at t row) (t.states row (b ∷ s)) now

pub store-options :
    (t : EndpointHealthTracker) (registry repository : Bytes) (s : EndpointHealthState)
    → options (store registry repository s t) ≡ options t
unfolding store options
store-options t registry repository s = normalize_twice t.opts
