-- ===== src/Upstream/Health/Events.antt =====
-- Histories of the calls of internal/ecosystems/container/upstream/endpoint_health_tracker.go, each call
-- with the time that it is given.
use regimux.Prelude.{ℕ, List, [], ◌∷◌}
use regimux.Prelude.Int.{ℤ}
use regimux.Prelude.Bytes.{Bytes}
use regimux.Upstream.Health.Tracker.{
  EndpointHealthTracker, record_request_success, record_request_failure,
  record_repository_request_failure, record_content_inconsistent, record_probe_failure,
  record_probe_success, acquire, release, runtime_snapshot,
}

pub data Event : Type 0 where
  probe_succeeded : (registry : Bytes) (latency : ℤ) → Event
  probe_failed : (registry : Bytes) → Event
  request_succeeded : (registry repository : Bytes) → Event
  request_failed : (registry repository : Bytes) → Event
  repository_failed : (registry repository : Bytes) → Event
  content_inconsistent : (registry repository : Bytes) → Event
  acquired : (registry : Bytes) → Event
  released : (registry : Bytes) → Event
  looked_at : (registry repository : Bytes) → Event

module _ (average : ℤ → ℤ → ℤ) where
  unfoldable pub apply : Event → ℕ → EndpointHealthTracker → EndpointHealthTracker
  apply (probe_succeeded registry latency) now t =
      (record_probe_success average registry latency now t).0
  apply (probe_failed registry) now t = (record_probe_failure registry now t).0
  apply (request_succeeded registry repository) now t =
      (record_request_success registry repository now t).0
  apply (request_failed registry repository) now t =
      (record_request_failure registry repository now t).0
  apply (repository_failed registry repository) now t =
      (record_repository_request_failure registry repository now t).0
  apply (content_inconsistent registry repository) now t =
      (record_content_inconsistent registry repository now t).0
  apply (acquired registry) now t = acquire registry t
  apply (released registry) now t = release registry t
  apply (looked_at registry repository) now t = (runtime_snapshot registry repository now t).0

  unfoldable pub run : List (Event × ℕ) → EndpointHealthTracker → EndpointHealthTracker
  run [] t = t
  run ((e, now) ∷ events) t = run events (apply e now t)
