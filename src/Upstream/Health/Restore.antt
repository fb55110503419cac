-- ===== src/Upstream/Health/Restore.antt =====
-- Taking a snapshot and restoring it, in
-- internal/ecosystems/container/upstream/endpoint_health_tracker.go.
use regimux.Prelude.{ℕ, ◌≡◌, refl, false, List, [], ◌∷◌, arith}
use regimux.Prelude.Int.{ℤ, pos}
use regimux.Prelude.Bytes.{Bytes, is_empty, bytes_eq_iff}
use regimux.Upstream.Health.{
  EndpointHealthOptions, EndpointHealthState, normalize_endpoint_health_options,
  normalize_endpoint_health_registry, record_failure, snapshot_of, record_success,
  record_content_mismatch,
}
use regimux.Upstream.Health.Tracker.{
  EndpointHealthTracker, new_endpoint_health_tracker, put, state_of, store, options, probed,
  snapshot, restore_snapshot,
}
use regimux.Upstream.Health.Events.{Event, run}
use regimux.Upstream.Health.Table.{
  Change, kept, succeeded, failed, mismatched, probe_failed_too, more, less, measured, change,
  Keeps, normalize_twice, state_of-P, apply-Keeps,
}

-- The state carries the names that it stands under.
abbrev IsNamed : Bytes → Bytes → EndpointHealthState → Type 0
IsNamed row column s = (s.registry ≡ row) × (s.repository ≡ column)

change-IsNamed :
    (average : ℤ → ℤ → ℤ) (o : EndpointHealthOptions) (now : ℕ) (c : Change) (row column : Bytes)
    (s : EndpointHealthState)
    → IsNamed row column s
    → IsNamed row column (change average o now c column s)
unfolding change record_success record_failure record_content_mismatch probed
change-IsNamed average o now kept row column s k = k
change-IsNamed average o now succeeded row column s k = k
change-IsNamed average o now failed row [] s k = k
change-IsNamed average o now failed row (b ∷ column) s k = (k.0, refl)
change-IsNamed average o now mismatched row column s k = k
change-IsNamed average o now probe_failed_too row [] s k = k
change-IsNamed average o now probe_failed_too row (b ∷ column) s k = (k.0, refl)
change-IsNamed average o now more row column s k = k
change-IsNamed average o now less row column s k = k
change-IsNamed average o now (measured latency) row column s k = k

run-IsNamed :
    (average : ℤ → ℤ → ℤ) (o : EndpointHealthOptions) (events : List (Event × ℕ))
    (t : EndpointHealthTracker)
    → Keeps o IsNamed t
    → Keeps o IsNamed (run average events t)
unfolding run
run-IsNamed average o [] t k = k
run-IsNamed average o ((e, now) ∷ events) t k = run-IsNamed average o events _ (
    apply-Keeps average o IsNamed (λ row column. (refl, refl)) now (change-IsNamed average o now) e
      t k)

pub store-state_of :
    (t : EndpointHealthTracker) (registry repository : Bytes) (s : EndpointHealthState)
    → state_of (store registry repository s t) registry repository ≡ s
unfolding store put state_of
store-state_of t registry repository s = ground (
  arith,
  bytes_eq_iff (normalize_endpoint_health_registry registry)
      (normalize_endpoint_health_registry registry),
  bytes_eq_iff repository repository,
)

restored :
    (opts : EndpointHealthOptions) (t : EndpointHealthTracker) (registry : Bytes) (now : ℕ)
    → normalize_endpoint_health_registry (normalize_endpoint_health_registry registry)
      ≡ normalize_endpoint_health_registry registry
    → is_empty (normalize_endpoint_health_registry registry) ≡ false
    → IsNamed (normalize_endpoint_health_registry registry) [] (state_of t registry [])
    → state_of
        (restore_snapshot (snapshot registry now t) (new_endpoint_health_tracker opts))
        registry
        []
      ≡ record (state_of t registry []) { inflight = pos 0 }
unfolding restore_snapshot snapshot snapshot_of store put state_of
restored opts t registry now same some_name (p, q) = ground (
  arith,
  bytes_eq_iff (normalize_endpoint_health_registry registry)
      (normalize_endpoint_health_registry registry),
  bytes_eq_iff [] [],
  bytes_eq_iff (normalize_endpoint_health_registry registry)
      (normalize_endpoint_health_registry (state_of t registry []).registry),
  bytes_eq_iff [] (state_of t registry []).repository,
)

-- What a snapshot of an endpoint, after any history of calls, restores in a new tracker is the state
-- it was taken of but for the calls in flight, which start at zero; the normalised registry is
-- not empty and is its own normal form.
pub restore_snapshot-snapshot :
    (average : ℤ → ℤ → ℤ) (opts new_opts : EndpointHealthOptions) (events : List (Event × ℕ))
    (registry : Bytes) (now : ℕ)
    → normalize_endpoint_health_registry (normalize_endpoint_health_registry registry)
      ≡ normalize_endpoint_health_registry registry
    → is_empty (normalize_endpoint_health_registry registry) ≡ false
    → state_of
        (restore_snapshot
          (snapshot registry now (run average events (new_endpoint_health_tracker opts)))
          (new_endpoint_health_tracker new_opts))
        registry
        []
      ≡ record (state_of (run average events (new_endpoint_health_tracker opts)) registry []) {
        inflight = pos 0;
      }
unfolding options
restore_snapshot-snapshot average opts new_opts events registry now same some_name =
    restored new_opts _ registry now same some_name (
      state_of-P average _ IsNamed (λ row column. (refl, refl)) _ registry []
        (run-IsNamed average (normalize_endpoint_health_options opts) events
          (new_endpoint_health_tracker opts)
          (normalize_twice opts, λ row column s e. ground arith)))
