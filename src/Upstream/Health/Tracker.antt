-- ===== src/Upstream/Health/Tracker.antt =====
-- internal/ecosystems/container/upstream/endpoint_health_tracker.go: the table of states and the calls on
-- it, each of which runs under the lock. `average` stands for the moving average in floats, whose
-- arguments are the average so far and the new latency.
use regimux.Prelude.{ℕ, true, false, ◌&&◌, [], Option, none, some, if◌then◌else◌}
use regimux.Prelude.Int.{ℤ, pos, ltb_ℤ, eqb_ℤ, add64, sub64}
use regimux.Prelude.Bytes.{Bytes, is_empty, bytes_eq}
use regimux.Upstream.Health.{
  EndpointHealthOptions, EndpointHealthState, EndpointHealthSnapshot,
  normalize_endpoint_health_options, normalize_endpoint_health_registry, fresh, record_success,
  record_failure, record_content_mismatch, snapshot_of, combined_snapshot,
}

-- Rows are normalised registries and columns are repositories.
abbrev pub Table : Type 0
Table = Bytes → Bytes → Option EndpointHealthState

pub record EndpointHealthTracker : Type 0 where
  pub opts : EndpointHealthOptions
  pub states : Table

abbrev pub new_endpoint_health_tracker : EndpointHealthOptions → EndpointHealthTracker
new_endpoint_health_tracker opts = record {
  opts = normalize_endpoint_health_options opts;
  states = λ registry repository. none;
}

unfoldable pub put : Bytes → Bytes → EndpointHealthState → Table → Table
put registry repository s t row column =
    if bytes_eq row registry && bytes_eq column repository then some s else t row column

-- The state behind the pointer that `stateLocked` returns.
unfoldable pub state_of : EndpointHealthTracker → Bytes → Bytes → EndpointHealthState
state_of t registry repository =
    let row = normalize_endpoint_health_registry registry in
    elim (t.states row repository) [ some s ↦ s | none ↦ fresh row repository ]

-- The options that `stateLocked` and `optionsLocked` leave behind.
unfoldable pub options : EndpointHealthTracker → EndpointHealthOptions
options t = normalize_endpoint_health_options t.opts

-- `stateLocked`, and then the write through its pointer.
unfoldable pub store :
    Bytes → Bytes → EndpointHealthState → EndpointHealthTracker → EndpointHealthTracker
unfolding put options
store registry repository s t = record {
  opts = options t;
  states = put (normalize_endpoint_health_registry registry) repository s t.states;
}

-- `stateLocked` where nothing is written: the state is made.
unfoldable pub touch : Bytes → EndpointHealthTracker → EndpointHealthTracker
unfolding store state_of
touch registry t = store registry [] (state_of t registry []) t

-- A change of the endpoint's state, and of the repository's where there is one, and the snapshot behind it.
unfoldable pub update_both :
    (EndpointHealthState → EndpointHealthState)
    → (EndpointHealthState → EndpointHealthState)
    → Bytes
    → Bytes
    → ℕ
    → EndpointHealthTracker
    → EndpointHealthTracker × EndpointHealthSnapshot
unfolding state_of store options
update_both on_endpoint on_repo registry repository now t =
    let endpoint = on_endpoint (state_of t registry []) in
    let u = store registry [] endpoint t in
    let repo = on_repo (state_of u registry repository) in
    if is_empty repository
    then (u, snapshot_of (options u) endpoint now)
    else (store registry repository repo u, combined_snapshot (options u) endpoint repo now)

unfoldable pub record_request_success :
    Bytes → Bytes → ℕ → EndpointHealthTracker → EndpointHealthTracker × EndpointHealthSnapshot
unfolding update_both
record_request_success registry repository now t =
    update_both (λ s. record_success s now) (λ s. record_success s now) registry repository now t

unfoldable pub record_request_failure :
    Bytes → Bytes → ℕ → EndpointHealthTracker → EndpointHealthTracker × EndpointHealthSnapshot
unfolding update_both options
record_request_failure registry repository now t =
    update_both (λ s. record_failure (options t) s [] now)
      (λ s. record_failure (options t) s repository now) registry repository now t

unfoldable pub record_repository_request_failure :
    Bytes → Bytes → ℕ → EndpointHealthTracker → EndpointHealthTracker × EndpointHealthSnapshot
unfolding update_both options
record_repository_request_failure registry repository now t =
    update_both (λ s. s) (λ s. record_failure (options t) s repository now) registry repository now
      t

unfoldable pub record_content_inconsistent :
    Bytes → Bytes → ℕ → EndpointHealthTracker → EndpointHealthTracker × EndpointHealthSnapshot
unfolding update_both options
record_content_inconsistent registry repository now t =
    update_both (λ s. record_content_mismatch (options t) s now)
      (λ s. record_content_mismatch (options t) s now) registry repository now t

unfoldable pub record_probe_failure :
    Bytes → ℕ → EndpointHealthTracker → EndpointHealthTracker × EndpointHealthSnapshot
unfolding state_of store options
record_probe_failure registry now t =
    let failed = record_failure (options t) (state_of t registry []) [] now in
    let s = record failed { last_probe_at = now } in
    (store registry [] s t, snapshot_of (options t) s now)

module _ (average : ℤ → ℤ → ℤ) where
  -- What `RecordProbeSuccess` does to the state; the latency is not negative.
  unfoldable pub probed : EndpointHealthState → ℤ → ℕ → EndpointHealthState
  probed state latency now = record state {
    latency_ewma =
        if eqb_ℤ state.latency_samples (pos 0) then latency else average state.latency_ewma latency;
    latency_samples = add64 state.latency_samples (pos 1);
    consecutive_failures = pos 0;
    cooldown_until = 0;
    last_success_at = now;
    last_probe_at = now;
  }

  unfoldable pub record_probe_success :
      Bytes → ℤ → ℕ → EndpointHealthTracker → EndpointHealthTracker × EndpointHealthSnapshot
  unfolding state_of store options
  record_probe_success registry latency now t =
      let measured = if ltb_ℤ latency (pos 0) then pos 0 else latency in
      let s = probed (state_of t registry []) measured now in
      (store registry [] s t, snapshot_of (options t) s now)

unfoldable pub acquire : Bytes → EndpointHealthTracker → EndpointHealthTracker
unfolding state_of store
acquire registry t =
    let state = state_of t registry [] in
    store registry [] (record state { inflight = add64 state.inflight (pos 1) }) t

unfoldable pub release : Bytes → EndpointHealthTracker → EndpointHealthTracker
unfolding state_of store
release registry t =
    let state = state_of t registry [] in
    store registry []
      (record state {
        inflight =
            if ltb_ℤ (pos 0) state.inflight then sub64 state.inflight (pos 1) else state.inflight;
      })
      t

-- `optionsLocked` normalises the stored options; nothing else changes.
unfoldable pub snapshot : Bytes → ℕ → EndpointHealthTracker → EndpointHealthSnapshot
unfolding state_of options
snapshot registry now t = snapshot_of (options t) (state_of t registry []) now

unfoldable pub restore_snapshot :
    EndpointHealthSnapshot → EndpointHealthTracker → EndpointHealthTracker
unfolding state_of store
restore_snapshot snapshot t =
    let state = state_of t snapshot.registry snapshot.repository in
    if is_empty snapshot.registry
    then t
    else store snapshot.registry snapshot.repository
        (record state {
          latency_ewma = snapshot.latency_ewma;
          latency_samples = snapshot.latency_samples;
          consecutive_failures = snapshot.consecutive_failures;
          cooldown_until = snapshot.cooldown_until;
          degraded_until = snapshot.degraded_until;
          last_success_at = snapshot.last_success_at;
          last_failure_at = snapshot.last_failure_at;
          last_probe_at = snapshot.last_probe_at;
          success_count = snapshot.success_count;
          failure_count = snapshot.failure_count;
          content_mismatch_count = snapshot.content_mismatch_count;
        })
        t

-- The endpoint's state is made where it is missing.
unfoldable pub runtime_snapshot :
    Bytes → Bytes → ℕ → EndpointHealthTracker → EndpointHealthTracker × EndpointHealthSnapshot
unfolding state_of touch options
runtime_snapshot registry repository now t =
    let endpoint = state_of t registry [] in
    let row = normalize_endpoint_health_registry registry in
    (
      touch registry t,
      elim (is_empty repository) [
        | true ↦ snapshot_of (options t) endpoint now
        | false ↦ elim (t.states row repository) [
          | none ↦ snapshot_of (options t) endpoint now
          | some repo ↦ combined_snapshot (options t) endpoint repo now
        ]
      ],
    )
