-- ===== src/Upstream/Health.antt =====
-- internal/ecosystems/container/upstream/endpoint_health_types.go and endpoint_health_score.go: what is
-- known of an endpoint, and of a repository behind it. Times are ℕ with 0 as the zero time, and
-- durations and counters are integers of 64 bits. The success rate, a float, is left out.
pub mod Tracker
pub mod Events
pub mod Table
pub mod Recovery
pub mod Inflight
pub mod Coverage
pub mod Restore
pub mod Threshold
use regimux.Prelude.{ℕ, ◌+◌, ◌-◌, ◌<◌, ◌≡◌, ltb, Bool, true, false, not, ◌&&◌, arith, if◌then◌else◌}
use regimux.Prelude.Int.{ℤ, pos, pos_part, neg_part, ltb_ℤ, leb_ℤ, add64, sub64, mul64, sub_ℕ}
use regimux.Prelude.Bytes.{Bytes, is_empty, trim_space, trim_right}
use regimux.Prelude.Order.{Compared, first, second, either, compare_ℕ, compare_ℤ}

-- Without the weight of the average, which stands in the parameter that computes the average.
pub record EndpointHealthOptions : Type 0 where
  pub failure_penalty : ℤ
  pub inflight_penalty : ℤ
  pub cooldown : ℤ
  pub unknown_latency : ℤ
  pub failure_threshold : ℤ
  pub content_mismatch_cooldown : ℤ

pub record EndpointHealthState : Type 0 where
  pub registry : Bytes
  pub repository : Bytes
  pub latency_ewma : ℤ
  pub latency_samples : ℤ
  pub consecutive_failures : ℤ
  pub cooldown_until : ℕ
  pub degraded_until : ℕ
  pub inflight : ℤ
  pub last_success_at : ℕ
  pub last_failure_at : ℕ
  pub last_probe_at : ℕ
  pub success_count : ℤ
  pub failure_count : ℤ
  pub content_mismatch_count : ℤ

pub record EndpointHealthSnapshot : Type 0 where
  pub registry : Bytes
  pub repository : Bytes
  pub latency_ewma : ℤ
  pub latency_samples : ℤ
  pub has_latency : Bool
  pub consecutive_failures : ℤ
  pub cooldown_until : ℕ
  pub degraded_until : ℕ
  pub inflight : ℤ
  pub last_success_at : ℕ
  pub last_failure_at : ℕ
  pub last_probe_at : ℕ
  pub success_count : ℤ
  pub failure_count : ℤ
  pub content_mismatch_count : ℤ
  pub has_success_rate : Bool
  pub score : ℤ
  pub in_cooldown : Bool
  pub in_degraded : Bool

-- `if value <= 0 { value = fallback }`.
abbrev pub positive_or : ℤ → ℤ → ℤ
positive_or value fallback = if leb_ℤ value (pos 0) then fallback else value

unfoldable pub normalize_endpoint_health_options : EndpointHealthOptions → EndpointHealthOptions
normalize_endpoint_health_options opts = record {
  failure_penalty = positive_or opts.failure_penalty (pos 500000000);
  inflight_penalty = positive_or opts.inflight_penalty (pos 50000000);
  cooldown = positive_or opts.cooldown (pos 120000000000);
  unknown_latency = positive_or opts.unknown_latency (pos 1000000000);
  failure_threshold = positive_or opts.failure_threshold (pos 1);
  content_mismatch_cooldown = positive_or opts.content_mismatch_cooldown (pos 300000000000);
}

-- The slash is 47.
unfoldable pub normalize_endpoint_health_registry : Bytes → Bytes
normalize_endpoint_health_registry registry = trim_right 47 (trim_space registry)

-- The state that has recorded nothing.
abbrev pub fresh : Bytes → Bytes → EndpointHealthState
fresh registry repository = record {
  registry = registry;
  repository = repository;
  latency_ewma = pos 0;
  latency_samples = pos 0;
  consecutive_failures = pos 0;
  cooldown_until = 0;
  degraded_until = 0;
  inflight = pos 0;
  last_success_at = 0;
  last_failure_at = 0;
  last_probe_at = 0;
  success_count = pos 0;
  failure_count = pos 0;
  content_mismatch_count = pos 0;
}

-- `now.Add(d)`.
abbrev pub add_time : ℕ → ℤ → ℕ
add_time now d = now + pos_part d - neg_part d

abbrev pub max_time : ℕ → ℕ → ℕ
max_time left right = if ltb left right then right else left

unfoldable pub success_rate : ℤ → ℤ → Bool
success_rate successes failures = ltb_ℤ (pos 0) (add64 successes failures)

unfoldable pub record_success : EndpointHealthState → ℕ → EndpointHealthState
record_success s now = record s {
  success_count = add64 s.success_count (pos 1);
  consecutive_failures = pos 0;
  cooldown_until = 0;
  last_success_at = now;
}

unfoldable pub record_failure :
    EndpointHealthOptions → EndpointHealthState → Bytes → ℕ → EndpointHealthState
record_failure opts s repository now =
    let failures = add64 s.consecutive_failures (pos 1) in
    record s {
      failure_count = add64 s.failure_count (pos 1);
      consecutive_failures = failures;
      cooldown_until =
          if leb_ℤ opts.failure_threshold failures
          then add_time now opts.cooldown
          else s.cooldown_until;
      last_failure_at = now;
      repository = if is_empty repository then s.repository else repository;
    }

unfoldable pub record_content_mismatch :
    EndpointHealthOptions → EndpointHealthState → ℕ → EndpointHealthState
record_content_mismatch opts s now = record s {
  content_mismatch_count = add64 s.content_mismatch_count (pos 1);
  failure_count = add64 s.failure_count (pos 1);
  degraded_until = add_time now opts.content_mismatch_cooldown;
  last_failure_at = now;
}

unfoldable pub snapshot_of :
    EndpointHealthOptions → EndpointHealthState → ℕ → EndpointHealthSnapshot
snapshot_of opts s now =
    let has_latency = ltb_ℤ (pos 0) s.latency_samples in
    let score =
      add64
        (add64 (if has_latency then s.latency_ewma else opts.unknown_latency)
          (mul64 s.consecutive_failures opts.failure_penalty))
        (mul64 s.inflight opts.inflight_penalty) in
    record {
      registry = s.registry;
      repository = s.repository;
      latency_ewma = s.latency_ewma;
      latency_samples = s.latency_samples;
      has_latency = has_latency;
      consecutive_failures = s.consecutive_failures;
      cooldown_until = s.cooldown_until;
      degraded_until = s.degraded_until;
      inflight = s.inflight;
      last_success_at = s.last_success_at;
      last_failure_at = s.last_failure_at;
      last_probe_at = s.last_probe_at;
      success_count = s.success_count;
      failure_count = s.failure_count;
      content_mismatch_count = s.content_mismatch_count;
      has_success_rate = success_rate s.success_count s.failure_count;
      score = if ltb now s.degraded_until then add64 score opts.failure_penalty else score;
      in_cooldown = ltb now s.cooldown_until;
      in_degraded = ltb now s.degraded_until;
    }

unfoldable pub combined_snapshot :
    EndpointHealthOptions → EndpointHealthState → EndpointHealthState → ℕ → EndpointHealthSnapshot
unfolding snapshot_of
combined_snapshot opts endpoint repo now =
    let snapshot = snapshot_of opts endpoint now in
    let degraded = max_time snapshot.degraded_until repo.degraded_until in
    let cooldown = max_time snapshot.cooldown_until repo.cooldown_until in
    let failed =
      if ltb_ℤ (pos 0) repo.failure_count
      then add64 snapshot.score (mul64 repo.failure_count opts.failure_penalty)
      else snapshot.score in
    record snapshot {
      repository = repo.repository;
      success_count = repo.success_count;
      failure_count = repo.failure_count;
      content_mismatch_count = repo.content_mismatch_count;
      has_success_rate = (snapshot_of opts repo now).has_success_rate;
      degraded_until = degraded;
      cooldown_until = cooldown;
      in_cooldown = ltb now cooldown;
      last_success_at = max_time snapshot.last_success_at repo.last_success_at;
      last_failure_at = max_time snapshot.last_failure_at repo.last_failure_at;
      in_degraded = ltb now degraded;
      score = if ltb now degraded then add64 failed opts.failure_penalty else failed;
    }

abbrev pub differ : Bool → Bool → Bool
differ true b = not b
differ false b = b

unfoldable pub compare_endpoint_state : EndpointHealthSnapshot → EndpointHealthSnapshot → Compared
compare_endpoint_state left right =
    if differ left.in_cooldown right.in_cooldown
    then (if left.in_cooldown then second else first)
    else if differ left.in_degraded right.in_degraded
    then (if left.in_degraded then second else first)
    else compare_ℤ left.score right.score

-- `endpointAvailable` of pool_selection_helpers.go.
unfoldable pub endpoint_available : EndpointHealthSnapshot → Bool
endpoint_available s = not s.in_cooldown && not s.in_degraded
