-- ===== src/Upstream/Scheduler/Reservations.antt =====
-- internal/ecosystems/container/upstream/layer_scheduler_reservations.go, the ranking and the whole of
-- `schedule` of layer_scheduler.go, and histories of them.
use regimux.Prelude.{
  ℕ, zero, suc, ◌==◌, Bool, true, false, ◌&&◌, ◌||◌, not, List, [], ◌∷◌, ◌++◌, Option, none, some,
  map, foldl, min, length, take, if◌then◌else◌, leb,
}
use regimux.Prelude.Int.{ℤ, pos, pos_part, sub_ℕ, leb_ℤ}
use regimux.Prelude.Bytes.{Bytes, is_empty, bytes_eq}
use regimux.Upstream.Health.{normalize_endpoint_health_registry}
use regimux.Upstream.Scheduler.{
  UpstreamRuntime, EndpointRuntimeCandidate, LayerSchedulerCandidate, LayerScheduler, initialised,
  score_candidates, not_selected, top_count, update, pair_eq, increment, decrement,
}

unfoldable pub prune_recent : LayerScheduler → ℕ → LayerScheduler
prune_recent s now = record s {
  recent = λ registry. elim (s.recent registry) [
    | none ↦ none
    | some assigned_at ↦
        if not (leb_ℤ s.opts.recent_window (pos 0))
          && leb_ℤ s.opts.recent_window (sub_ℕ now assigned_at)
        then none
        else some assigned_at
  ];
}

unfoldable pub reserve_digest : Bytes → Bytes → LayerScheduler → LayerScheduler
reserve_digest digest registry s = record s {
  digest_in_flight =
      if is_empty digest
      then s.digest_in_flight
      else increment pair_eq (digest, registry) s.digest_in_flight;
}

-- One turn of the loop of `reserveLocked`.
unfoldable pub reserve_one : Bytes → ℕ → LayerScheduler → Bytes → LayerScheduler
unfolding reserve_digest increment
reserve_one digest now s registry = reserve_digest digest registry (record s {
  in_flight = increment bytes_eq registry s.in_flight;
  recent = update bytes_eq registry (some now) s.recent;
})

abbrev pub registry_of : LayerSchedulerCandidate → Bytes
registry_of c = normalize_endpoint_health_registry c.runtime.registry

-- The registries are those that the returned function releases; `none` stands for nil.
unfoldable pub reserve :
    Bytes
    → List LayerSchedulerCandidate
    → ℤ
    → ℕ
    → LayerScheduler
    → LayerScheduler × Option (List Bytes)
unfolding reserve_one
reserve digest candidates reserve_count now s =
    let registries =
      map registry_of (take (min (pos_part reserve_count) (length candidates)) candidates) in
    if leb_ℤ reserve_count (pos 0) || leb (length candidates) 0
    then (s, none)
    else (foldl (reserve_one digest now) s registries, some registries)

unfoldable pub release_digest : Bytes → Bytes → LayerScheduler → LayerScheduler
release_digest digest registry s = record s {
  digest_in_flight =
      if is_empty digest
      then s.digest_in_flight
      else decrement pair_eq (digest, registry) s.digest_in_flight;
}

-- One turn of the loop of `release`.
unfoldable pub release_one : Bytes → LayerScheduler → Bytes → LayerScheduler
unfolding release_digest decrement
release_one digest s registry =
    release_digest digest registry
      (record s { in_flight = decrement bytes_eq registry s.in_flight })

unfoldable pub release : Bytes → List Bytes → LayerScheduler → LayerScheduler
unfolding release_one
release digest registries s = foldl (release_one digest) s registries

module _ (sort : List LayerSchedulerCandidate → List LayerSchedulerCandidate) where
  unfoldable pub sort_top_n_candidates :
      List LayerSchedulerCandidate → ℤ → List LayerSchedulerCandidate
  sort_top_n_candidates candidates top_n =
      let n = top_count top_n (length candidates) in
      let selected = take n (sort candidates) in
      if n == length candidates
      then sort candidates
      else selected ++ not_selected selected candidates

  -- The scheduler behind the call, the runtimes in order and what is to be released.
  unfoldable pub schedule :
      Bytes
      → List EndpointRuntimeCandidate
      → ℤ
      → ℤ
      → ℕ
      → LayerScheduler
      → LayerScheduler × List UpstreamRuntime × Option (List Bytes)
  unfolding prune_recent sort_top_n_candidates reserve
  schedule digest candidates top_n reserve_count now s =
      let ready = prune_recent (initialised s) now in
      let scored = score_candidates ready digest candidates 0 now in
      let sorted = sort_top_n_candidates scored top_n in
      let (reserved, registries) = reserve digest sorted reserve_count now ready in
      if leb (length candidates) 1
      then (s, map (λ c. c.runtime) candidates, none)
      else (reserved, map (λ c. c.runtime) sorted, registries)

-- The function that `reserveLocked` returns, with the state of its `sync.Once`.
pub record Reservation : Type 0 where
  pub digest : Bytes
  pub registries : List Bytes
  pub done : Bool

pub record System : Type 0 where
  pub scheduler : LayerScheduler
  pub reservations : List Reservation

pub data Action : Type 0 where
  scheduled :
      (digest : Bytes)
      → List EndpointRuntimeCandidate
      → (top_n reserve_count : ℤ) → (now : ℕ) → Action
  -- The function at this place is called, the latest one being at 0.
  called : ℕ → Action

unfoldable pub mark_done : ℕ → List Reservation → List Reservation
mark_done i [] = []
mark_done zero (r ∷ rs) = record r { done = true } ∷ rs
mark_done (suc i) (r ∷ rs) = r ∷ mark_done i rs

-- What the call of the function at the place does to the scheduler.
unfoldable pub call : ℕ → List Reservation → LayerScheduler → LayerScheduler
unfolding release
call i [] s = s
call zero (r ∷ rs) s = if r.done then s else release r.digest r.registries s
call (suc i) (r ∷ rs) s = call i rs s

-- The system behind a call of `schedule`, whose function is kept where it returns one.
unfoldable pub with_reservation :
    Bytes → List Reservation → LayerScheduler × List UpstreamRuntime × Option (List Bytes) → System
with_reservation digest rs (after, _, none) = record { scheduler = after; reservations = rs }
with_reservation digest rs (after, _, some ks) = record {
  scheduler = after;
  reservations = record { digest = digest; registries = ks; done = false } ∷ rs;
}

module _ (sort : List LayerSchedulerCandidate → List LayerSchedulerCandidate) where
  unfoldable pub act : Action → System → System
  unfolding schedule mark_done call with_reservation
  act (scheduled digest candidates top_n reserve_count now) s =
      with_reservation digest s.reservations
        (schedule sort digest candidates top_n reserve_count now s.scheduler)
  act (called i) s = record {
    scheduler = call i s.reservations s.scheduler;
    reservations = mark_done i s.reservations;
  }

  unfoldable pub act_all : List Action → System → System
  unfolding act
  act_all [] s = s
  act_all (a ∷ actions) s = act_all actions (act a s)
