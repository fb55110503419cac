-- ===== src/Upstream/Health/Recovery.antt =====
-- How long internal/ecosystems/container/upstream/endpoint_health_tracker.go keeps an endpoint back.
use regimux.Prelude.{ℕ, ◌+◌, ◌≤◌, List, [], ◌∷◌}
use regimux.Prelude.Int.{ℤ, pos_part}
use regimux.Prelude.Bytes.{Bytes}
use regimux.Upstream.Health.{EndpointHealthOptions, EndpointHealthState, EndpointHealthSnapshot}
use regimux.Upstream.Health.Tracker.{EndpointHealthTracker, restore_snapshot}
use regimux.Upstream.Health.Events.{Event, apply}
use regimux.Upstream.Health.Table.{Keeps}

-- The deadlines of the state are over at `moment`.
abbrev IsOver : ℕ → EndpointHealthState → Type 0
IsOver moment s = (s.cooldown_until ≤ moment) × (s.degraded_until ≤ moment)

-- What is behind both cooldowns of a call at `now`.
abbrev pub IsBehind : EndpointHealthOptions → ℕ → ℕ → Type 0
IsBehind o now moment =
    (now + pos_part o.cooldown ≤ moment) × (now + pos_part o.content_mismatch_cooldown ≤ moment)

abbrev Holds : EndpointHealthOptions → ℕ → EndpointHealthTracker → Type 0
Holds o moment t = Keeps o (λ row column s. IsOver moment s) t

-- A call with its time, or a snapshot that is restored.
pub data Step : Type 0 where
  occurred : Event → ℕ → Step
  restored : EndpointHealthSnapshot → Step

unfoldable pub run_steps : (ℤ → ℤ → ℤ) → List Step → EndpointHealthTracker → EndpointHealthTracker
unfolding apply restore_snapshot
run_steps average [] t = t
run_steps average (occurred e now ∷ steps) t = run_steps average steps (apply average e now t)
run_steps average (restored s ∷ steps) t = run_steps average steps (restore_snapshot s t)

-- At `moment` both cooldowns of each call and both deadlines of each restored snapshot are over.
abbrev pub AreOver : EndpointHealthOptions → ℕ → List Step → Type 0
AreOver o moment [] = Unit {0}
AreOver o moment (occurred e now ∷ steps) = IsBehind o now moment × AreOver o moment steps
AreOver o moment (restored s ∷ steps) =
    ((s.cooldown_until ≤ moment) × (s.degraded_until ≤ moment)) × AreOver o moment steps
