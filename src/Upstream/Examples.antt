-- ===== src/Upstream/Examples.antt =====
-- internal/ecosystems/container/upstream at concrete endpoints and histories.
use regimux.Prelude.{
  ℕ, ◌+◌, ◌≡◌, refl, true, false, ◌&&◌, List, [], ◌∷◌, none, some, ltb, arith, inl, inr, min,
}
use regimux.Prelude.Int.{ℤ, pos, leb_ℤ}
use regimux.Prelude.Bytes.{Bytes, is_empty, trim_right, trim_space}
use regimux.Upstream.Selection.{filter_healthy_items}
use regimux.Upstream.Selection.Filter.{IsSelection, filter_healthy_items-IsSelection}
use regimux.Upstream.Health.{
  EndpointHealthOptions, fresh, snapshot_of, normalize_endpoint_health_registry, add_time,
}
use regimux.Upstream.Health.Tracker.{
  new_endpoint_health_tracker, state_of, options, snapshot, restore_snapshot,
  record_request_success,
}
use regimux.Upstream.Health.Events.{
  Event, request_failed, content_inconsistent, acquired, released, run,
}
use regimux.Upstream.Health.Recovery.{Step, occurred, restored}
use regimux.Upstream.Health.Inflight.{in_flight_behind, run-in_flight_behind}
use regimux.Upstream.Health.Restore.{restore_snapshot-snapshot}
use regimux.Upstream.Health.Threshold.{fail_all, fail_all-in_cooldown}
use regimux.Upstream.Scheduler.{UpstreamRuntime, EndpointRuntimeCandidate, LayerSchedulerCandidate}
use regimux.Upstream.Scheduler.Reservations.{Action, scheduled, called, act_all}
use regimux.Upstream.Scheduler.Counts.{counted}
use regimux.Upstream.Scheduler.Refinement.{start, outstanding, outstanding_of, act_all-outstanding}
use regimux.Upstream.Failover.{
  Failure, FailoverRequest, Operation, ErrorKind, Attempting, failed_with, answered,
  do_with_sequential_failover,
}
use regimux.Upstream.Failover.Blob.{new_runner, wait}
use regimux.Upstream.Failover.Attempts.{failures, Ends, wait-failures}
use regimux.Upstream.Failover.Terminal.{terminal_error-ends}

filter_healthy_items-IsSelection_example :
    IsSelection
      (λ n. ltb n 5)
      (1 ∷ 7 ∷ 2 ∷ [])
      (filter_healthy_items (λ n. ltb n 5) (1 ∷ 7 ∷ 2 ∷ []))
filter_healthy_items-IsSelection_example =
    filter_healthy_items-IsSelection (λ n. ltb n 5) (1 ∷ 7 ∷ 2 ∷ [])

-- "a" and "r".
abbrev name : Bytes
name = 97 ∷ []

abbrev repo : Bytes
repo = 114 ∷ []

-- The latest latency in place of an average.
abbrev latest : ℤ → ℤ → ℤ
latest old new = new

-- Everything as it is by default.
abbrev opts : EndpointHealthOptions
opts = record {
  failure_penalty = pos 0;
  inflight_penalty = pos 0;
  cooldown = pos 0;
  unknown_latency = pos 0;
  failure_threshold = pos 0;
  content_mismatch_cooldown = pos 0;
}

abbrev history : List (Event × ℕ)
history =
    (acquired name, 1)
    ∷ (request_failed name repo, 2)
    ∷ (content_inconsistent name repo, 3)
    ∷ (acquired name, 4)
    ∷ (released name, 5)
    ∷ []

-- A snapshot of "a" that keeps it back until 7, restored before two calls fail.
abbrev steps : List Step
steps =
    restored
      (snapshot_of opts (record (fresh name []) { cooldown_until = 7; degraded_until = 6 }) 0)
    ∷ occurred (request_failed name repo) 2
    ∷ occurred (content_inconsistent name repo) 5
    ∷ []

run-in_flight_behind_example :
    (state_of (run latest history (new_endpoint_health_tracker opts)) name []).inflight
    ≡ pos (in_flight_behind history (normalize_endpoint_health_registry name) 0)
run-in_flight_behind_example = run-in_flight_behind latest opts history name (omega arith)

restore_snapshot-snapshot_example :
    state_of
      (restore_snapshot
        (snapshot name 9 (run latest history (new_endpoint_health_tracker opts)))
        (new_endpoint_health_tracker opts))
      name
      []
    ≡ record (state_of (run latest history (new_endpoint_health_tracker opts)) name []) {
      inflight = pos 0;
    }
unfolding normalize_endpoint_health_registry trim_right trim_space
restore_snapshot-snapshot_example =
    restore_snapshot-snapshot latest opts opts history name 9 refl refl

fail_all-in_cooldown_example :
    (snapshot name 9 (
      fail_all name
        (5 ∷ 6 ∷ [])
        (record_request_success name [] 4 (new_endpoint_health_tracker opts)).0)).in_cooldown
    ≡ (leb_ℤ (options (new_endpoint_health_tracker opts)).failure_threshold (pos 2)
        && ltb 9 (add_time 6 (options (new_endpoint_health_tracker opts)).cooldown))
fail_all-in_cooldown_example =
    fail_all-in_cooldown (new_endpoint_health_tracker opts) name 4 5 9 (6 ∷ []) (omega arith)

abbrev runtime : UpstreamRuntime
runtime = record { registry = name; is_mirror = true; authenticated = false }

abbrev candidate : EndpointRuntimeCandidate
candidate = record { runtime = runtime; state = snapshot name 9 (new_endpoint_health_tracker opts) }

-- Two reservations of two places each, the first of which is released twice.
abbrev actions : List Action
actions =
    scheduled repo (candidate ∷ candidate ∷ []) (pos 1) (pos 2) 10
    ∷ called 0
    ∷ scheduled repo (candidate ∷ candidate ∷ []) (pos 0) (pos 2) 11
    ∷ called 1
    ∷ []

abbrev unsorted : List LayerSchedulerCandidate → List LayerSchedulerCandidate
unsorted cs = cs

act_all-outstanding_example :
    ((k : Bytes)
      → (act_all unsorted actions (start opts)).scheduler.in_flight k
        ≡ counted (outstanding (act_all unsorted actions (start opts)).reservations k))
    × ((d k : Bytes)
        → is_empty d ≡ false
        → (act_all unsorted actions (start opts)).scheduler.digest_in_flight (d, k)
          ≡ counted (outstanding_of (act_all unsorted actions (start opts)).reservations d k))
act_all-outstanding_example = act_all-outstanding unsorted opts actions (omega arith)

-- Three endpoints, two at a time: the second result comes first.
wait-failures_example :
    Ends false (min 2 3) 3 2 (wait false (failures (1 ∷ 0 ∷ [])) (new_runner 2 3))
wait-failures_example =
    wait-failures false 2 3 (1 ∷ 0 ∷ []) (omega arith) (omega arith)
      (omega arith, (omega arith, tt))

-- The answer 401.
abbrev unauthorized : Failure
unauthorized = record {
  allowlist_forbidden = false;
  authenticated_status = false;
  upstream_status = some (pos 401);
  distribution_status = none;
  kind = ErrorKind.unknown;
}

-- Every endpoint answers 401; the world is the number of attempts.
abbrev client : Attempting ℕ
client = record {
  attempt = λ runtime n. (n + 1, some unauthorized);
  ended = λ n. false;
  record_endpoint_success = λ req runtime n. n;
  record_endpoint_failure = λ req runtime e n. n;
}

abbrev request : FailoverRequest
request = record {
  operation = Operation.manifest;
  repository = repo;
  allow_public_mirror_forbidden = false;
  endpoint_is_mirror = false;
  endpoint_authenticated = false;
}

terminal_error-ends_example :
    do_with_sequential_failover client true request (runtime ∷ runtime ∷ []) answered 0
    ≡ (1, failed_with unauthorized)
terminal_error-ends_example =
    terminal_error-ends client true request runtime (runtime ∷ []) answered 0 1 unauthorized refl
      (refl, inr (inr (inl refl)))
