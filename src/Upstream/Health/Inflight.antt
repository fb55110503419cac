-- ===== src/Upstream/Health/Inflight.antt =====
-- The count of calls in flight that internal/ecosystems/container/upstream/endpoint_health_tracker.go
-- keeps for each endpoint.
use regimux.Prelude.{
  ℕ, suc, ◌+◌, ◌-◌, ◌≤◌, ◌<◌, ◌≡◌, refl, sym, ap, ◌∙◌, List, [], ◌∷◌, none, some, arith,
  if◌then◌else◌, length,
}
use regimux.Prelude.Int.{ℤ, pos, add64, sub64, add64-pos, sub64-pos, half_word, ltb_ℤ}
use regimux.Prelude.Bytes.{Bytes, bytes_eq, bytes_eq_iff}
use regimux.Upstream.Health.{
  EndpointHealthOptions, EndpointHealthState, normalize_endpoint_health_registry, record_success,
  record_failure, record_content_mismatch,
}
use regimux.Upstream.Health.Tracker.{
  EndpointHealthTracker, new_endpoint_health_tracker, put, state_of, store, options, probed,
  runtime_snapshot, touch, update_both, record_request_success, record_request_failure,
  record_repository_request_failure, record_content_inconsistent, record_probe_failure,
  record_probe_success, acquire, release,
}
use regimux.Upstream.Health.Events.{
  Event, probe_succeeded, probe_failed, request_succeeded, request_failed, repository_failed,
  content_inconsistent, acquired, released, looked_at, apply, run,
}

-- The calls in flight on a normalised registry behind a history, where `n` were before it: a call
-- that starts adds one, and one that ends takes one away as long as there is one.
abbrev pub in_flight_behind : List (Event × ℕ) → Bytes → ℕ → ℕ
in_flight_behind [] row n = n
in_flight_behind ((acquired registry, now) ∷ events) row n =
    in_flight_behind events row
      (if bytes_eq row (normalize_endpoint_health_registry registry) then suc n else n)
in_flight_behind ((released registry, now) ∷ events) row n =
    in_flight_behind events row
      (if bytes_eq row (normalize_endpoint_health_registry registry) then n - 1 else n)
in_flight_behind ((e, now) ∷ events) row n = in_flight_behind events row n

-- The count in a row of the table.
abbrev count : EndpointHealthTracker → Bytes → ℤ
count t row = elim (t.states row []) [ none ↦ pos 0 | some s ↦ s.inflight ]

store-count :
    (t : EndpointHealthTracker) (registry repository row : Bytes) (s : EndpointHealthState)
    → s.inflight ≡ (state_of t registry repository).inflight
    → count (store registry repository s t) row ≡ count t row
unfolding store put state_of
store-count t registry repository row s e = ground (
  arith,
  bytes_eq_iff row (normalize_endpoint_health_registry registry),
  bytes_eq_iff [] repository,
)

update_both-count :
    (f g : EndpointHealthState → EndpointHealthState)
    → ((s : EndpointHealthState) → (f s).inflight ≡ s.inflight)
    → ((s : EndpointHealthState) → (g s).inflight ≡ s.inflight)
    → (t : EndpointHealthTracker) (registry repository row : Bytes) (now : ℕ)
    → count (update_both f g registry repository now t).0 row ≡ count t row
unfolding update_both
update_both-count f g p q t registry [] row now =
    store-count t registry [] row (f (state_of t registry [])) (p (state_of t registry []))
update_both-count f g p q t registry (b ∷ repository) row now =
    let s = f (state_of t registry []) in
    let u = store registry [] s t in
    let r = state_of u registry (b ∷ repository) in
    store-count u registry (b ∷ repository) row (g r) (q r)
    ∙ store-count t registry [] row s (p (state_of t registry []))

-- One call that counts, by its step on the count.
store-step :
    (t : EndpointHealthTracker) (registry row : Bytes) (s : EndpointHealthState) (n m : ℕ)
    → count t row ≡ pos n
    → (count t (normalize_endpoint_health_registry registry) ≡ pos n → s.inflight ≡ pos m)
    → count (store registry [] s t) row
      ≡ pos (if bytes_eq row (normalize_endpoint_health_registry registry) then m else n)
unfolding store put state_of
store-step t registry row s n m e f =
    ground
      (arith, bytes_eq_iff row (normalize_endpoint_health_registry registry), bytes_eq_iff [] [], f)

state_of-count :
    (t : EndpointHealthTracker) (registry : Bytes) (n : ℕ)
    → count t (normalize_endpoint_health_registry registry) ≡ pos n
    → (state_of t registry []).inflight ≡ pos n
unfolding state_of
state_of-count t registry n e = ground arith

acquire-count :
    (t : EndpointHealthTracker) (registry row : Bytes) (n : ℕ)
    → suc n < half_word
    → count t row ≡ pos n
    → count (acquire registry t) row
      ≡ pos (if bytes_eq row (normalize_endpoint_health_registry registry) then suc n else n)
unfolding acquire
acquire-count t registry row n h e = store-step t registry row _ n (suc n) e (λ q.
    ap (λ i. add64 i (pos 1)) (state_of-count t registry n q)
    ∙ add64-pos n 1 (omega arith)
    ∙ ap pos (omega arith))

release-count :
    (t : EndpointHealthTracker) (registry row : Bytes) (n : ℕ)
    → n < half_word
    → count t row ≡ pos n
    → count (release registry t) row
      ≡ pos (if bytes_eq row (normalize_endpoint_health_registry registry) then n - 1 else n)
unfolding release
release-count t registry row n h e = store-step t registry row _ n (n - 1) e (λ q.
    ap (λ i. if ltb_ℤ (pos 0) i then sub64 i (pos 1) else i) (state_of-count t registry n q)
    ∙ less_one n h)
  where
    less_one :
        (n : ℕ)
        → n < half_word
        → (if ltb_ℤ (pos 0) (pos n) then sub64 (pos n) (pos 1) else pos n) ≡ pos (n - 1)
    less_one n h = ground (arith, sub64-pos n 1)

apply-count :
    (average : ℤ → ℤ → ℤ) (e : Event) (now : ℕ) (t : EndpointHealthTracker) (row : Bytes) (n : ℕ)
    → suc n < half_word
    → count t row ≡ pos n
    → count (apply average e now t) row ≡ pos (in_flight_behind ((e, now) ∷ []) row n)
unfolding apply record_probe_success record_probe_failure record_request_success
    record_request_failure record_repository_request_failure record_content_inconsistent
    runtime_snapshot touch record_success record_failure record_content_mismatch probed
apply-count average (probe_succeeded registry latency) now t row n h k =
    store-count t registry [] row _ refl ∙ k
apply-count average (probe_failed registry) now t row n h k =
    store-count t registry [] row _ refl ∙ k
apply-count average (request_succeeded registry repository) now t row n h k =
    update_both-count (λ s. record_success s now) (λ s. record_success s now) (λ s. refl)
      (λ s. refl) t registry repository row now
    ∙ k
apply-count average (request_failed registry repository) now t row n h k =
    update_both-count (λ s. record_failure (options t) s [] now)
      (λ s. record_failure (options t) s repository now) (λ s. refl) (λ s. refl) t registry
      repository row now
    ∙ k
apply-count average (repository_failed registry repository) now t row n h k =
    update_both-count (λ s. s) (λ s. record_failure (options t) s repository now) (λ s. refl)
      (λ s. refl) t registry repository row now
    ∙ k
apply-count average (content_inconsistent registry repository) now t row n h k =
    update_both-count (λ s. record_content_mismatch (options t) s now)
      (λ s. record_content_mismatch (options t) s now) (λ s. refl) (λ s. refl) t registry repository
      row now
    ∙ k
apply-count average (acquired registry) now t row n h k = acquire-count t registry row n h k
apply-count average (released registry) now t row n h k =
    release-count t registry row n (omega arith) k
apply-count average (looked_at registry repository) now t row n h k =
    store-count t registry [] row _ refl ∙ k

step-le :
    (e : Event) (now : ℕ) (row : Bytes) (n : ℕ) → in_flight_behind ((e, now) ∷ []) row n ≤ suc n
step-le (acquired registry) now row n = ground arith
step-le (released registry) now row n = ground arith
step-le (probe_succeeded _ _) now row n = omega arith
step-le (probe_failed _) now row n = omega arith
step-le (request_succeeded _ _) now row n = omega arith
step-le (request_failed _ _) now row n = omega arith
step-le (repository_failed _ _) now row n = omega arith
step-le (content_inconsistent _ _) now row n = omega arith
step-le (looked_at _ _) now row n = omega arith

first_step :
    (e : Event) (now : ℕ) (events : List (Event × ℕ)) (row : Bytes) (n : ℕ)
    → in_flight_behind ((e, now) ∷ events) row n
      ≡ in_flight_behind events row (in_flight_behind ((e, now) ∷ []) row n)
first_step (acquired registry) now events row n = refl
first_step (released registry) now events row n = refl
first_step (probe_succeeded _ _) now events row n = refl
first_step (probe_failed _) now events row n = refl
first_step (request_succeeded _ _) now events row n = refl
first_step (request_failed _ _) now events row n = refl
first_step (repository_failed _ _) now events row n = refl
first_step (content_inconsistent _ _) now events row n = refl
first_step (looked_at _ _) now events row n = refl

run-count :
    (average : ℤ → ℤ → ℤ) (events : List (Event × ℕ)) (t : EndpointHealthTracker) (row : Bytes)
    (n : ℕ)
    → n + length events < half_word
    → count t row ≡ pos n
    → count (run average events t) row ≡ pos (in_flight_behind events row n)
unfolding run
run-count average [] t row n h k = k
run-count average ((e, now) ∷ events) t row n h k =
    let m = in_flight_behind ((e, now) ∷ []) row n in
    run-count average events (apply average e now t) row m (omega (arith, step-le e now row n))
      (apply-count average e now t row n (omega arith) k)
    ∙ ap pos (sym (first_step e now events row n))

-- The count of calls in flight on an endpoint is that of the abstract counter: behind any history of
-- fewer than 2 ^ 63 calls it is the number of calls that started and did not end, where an
-- ending call without a started one counts for nothing; so it is never below zero.
pub run-in_flight_behind :
    (average : ℤ → ℤ → ℤ) (opts : EndpointHealthOptions) (events : List (Event × ℕ))
    (registry : Bytes)
    → length events < half_word
    → (state_of (run average events (new_endpoint_health_tracker opts)) registry []).inflight
      ≡ pos (in_flight_behind events (normalize_endpoint_health_registry registry) 0)
run-in_flight_behind average opts events registry h =
    state_of-count (run average events (new_endpoint_health_tracker opts)) registry _ (
      run-count average events (new_endpoint_health_tracker opts)
        (normalize_endpoint_health_registry registry) 0 (omega arith) refl)
