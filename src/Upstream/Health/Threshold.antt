-- ===== src/Upstream/Health/Threshold.antt =====
-- When failures put an endpoint into cooldown, in
-- internal/ecosystems/container/upstream/endpoint_health_score.go.
use regimux.Prelude.{
  ℕ, suc, ◌+◌, ◌<◌, ◌≡◌, subst, ap, ◌∙◌, false, ◌&&◌, ltb, List, [], ◌∷◌, arith, if◌then◌else◌,
  length,
}
use regimux.Prelude.Int.{pos, add64, add64-pos, leb_ℤ, half_word}
use regimux.Prelude.Bytes.{Bytes}
use regimux.Upstream.Health.{
  EndpointHealthOptions, EndpointHealthState, normalize_endpoint_health_options, record_failure,
  snapshot_of, record_success, add_time,
}
use regimux.Upstream.Health.Tracker.{
  EndpointHealthTracker, state_of, store, options, snapshot, update_both, record_request_success,
  record_request_failure,
}
use regimux.Upstream.Health.Coverage.{store-options}
use regimux.Upstream.Health.Restore.{store-state_of}

-- Failures of requests to the registry at the times, one behind the other.
unfoldable pub fail_all : Bytes → List ℕ → EndpointHealthTracker → EndpointHealthTracker
fail_all registry [] t = t
fail_all registry (now ∷ times) t =
    fail_all registry times (record_request_failure registry [] now t).0

abbrev pub last_or : ℕ → List ℕ → ℕ
last_or now [] = now
last_or now (time ∷ times) = last_or time times

-- What `n` failures in a row, the last one at `last`, leave behind.
abbrev AfterRun : EndpointHealthOptions → EndpointHealthTracker → Bytes → ℕ → ℕ → Type 0
AfterRun o t registry n last =
    (options t ≡ o)
    × ((state_of t registry []).consecutive_failures ≡ pos n)
    × ((state_of t registry []).cooldown_until
        ≡ (if leb_ℤ o.failure_threshold (pos n) then add_time last o.cooldown else 0))

failed_once :
    (o : EndpointHealthOptions) (s : EndpointHealthState) (n last now : ℕ)
    → suc n < half_word
    → s.consecutive_failures ≡ pos n
    → s.cooldown_until ≡ (if leb_ℤ o.failure_threshold (pos n) then add_time last o.cooldown else 0)
    → ((record_failure o s [] now).consecutive_failures ≡ pos (suc n))
      × ((record_failure o s [] now).cooldown_until
          ≡ (if leb_ℤ o.failure_threshold (pos (suc n)) then add_time now o.cooldown else 0))
unfolding record_failure
failed_once o s n last now h e f =
    let more : add64 s.consecutive_failures (pos 1) ≡ pos (suc n) =
      ap (λ i. add64 i (pos 1)) e ∙ add64-pos n 1 (omega arith) ∙ ap pos (omega arith) in
    (more, deadline more)
  where
    deadline :
        add64 s.consecutive_failures (pos 1) ≡ pos (suc n)
        → (if leb_ℤ o.failure_threshold (add64 s.consecutive_failures (pos 1))
            then add_time now o.cooldown
            else s.cooldown_until)
          ≡ (if leb_ℤ o.failure_threshold (pos (suc n)) then add_time now o.cooldown else 0)
    deadline more =
        ap (λ i. if leb_ℤ o.failure_threshold i then add_time now o.cooldown else s.cooldown_until)
          more
        ∙ ground arith

one_more :
    (t : EndpointHealthTracker) (registry : Bytes) (n last now : ℕ)
    → suc n < half_word
    → AfterRun (options t) t registry n last
    → AfterRun (options t) (record_request_failure registry [] now t).0 registry (suc n) now
unfolding record_request_failure update_both
one_more t registry n last now h (_, e, f) =
    let s = state_of t registry [] in
    let failed = record_failure (options t) s [] now in
    let stored = store-state_of t registry [] failed in
    let (g, k) = failed_once (options t) s n last now h e f in
    (
      store-options t registry [] failed,
      ap (λ s. s.consecutive_failures) stored ∙ g,
      ap (λ s. s.cooldown_until) stored ∙ k,
    )

fail_all-AfterRun :
    (o : EndpointHealthOptions) (times : List ℕ) (t : EndpointHealthTracker) (registry : Bytes)
    (n last : ℕ)
    → n + length times < half_word
    → AfterRun o t registry n last
    → AfterRun o (fail_all registry times t) registry (n + length times) (last_or last times)
unfolding fail_all
fail_all-AfterRun o [] t registry n last h k =
    subst (λ m. AfterRun o t registry m last) (omega arith) k
fail_all-AfterRun o (now ∷ times) t registry n last h k =
    subst
      (λ m.
        AfterRun o (fail_all registry times (record_request_failure registry [] now t).0) registry m
          (last_or now times))
      (omega arith)
      (fail_all-AfterRun o times (record_request_failure registry [] now t).0 registry (suc n) now
        (omega arith)
        (subst
          (λ x.
            AfterRun x t registry n last
            → AfterRun x (record_request_failure registry [] now t).0 registry (suc n) now)
          k.0 (one_more t registry n last now (omega arith)) k))

threshold-positive :
    (t : EndpointHealthTracker) → leb_ℤ (options t).failure_threshold (pos 0) ≡ false
unfolding options normalize_endpoint_health_options
threshold-positive t = ground arith

succeeded :
    (t : EndpointHealthTracker) (registry : Bytes) (start : ℕ)
    → AfterRun
        (options t)
        (store registry [] (record_success (state_of t registry []) start) t)
        registry
        0
        0
unfolding record_success
succeeded t registry start =
    let s = record_success (state_of t registry []) start in
    let stored = store-state_of t registry [] s in
    (
      store-options t registry [] s,
      ap (λ s. s.consecutive_failures) stored,
      ap (λ s. s.cooldown_until) stored ∙ ground (arith, threshold-positive t),
    )

-- Behind a successful request to a registry, failures of requests at the given times put it into
-- cooldown exactly if they are at least as many as the threshold, and until the cooldown is over
-- that is counted from the last of them; both as normalised.
pub fail_all-in_cooldown :
    (t : EndpointHealthTracker) (registry : Bytes) (start now later : ℕ) (times : List ℕ)
    → suc (length times) < half_word
    → (snapshot registry later (
        fail_all registry (now ∷ times) (record_request_success registry [] start t).0)).in_cooldown
      ≡ (leb_ℤ (options t).failure_threshold (pos (suc (length times)))
          && ltb later (add_time (last_or now times) (options t).cooldown))
unfolding snapshot snapshot_of record_request_success update_both record_success
fail_all-in_cooldown t registry start now later times h = ap (ltb later) (run.2) ∙ ground arith
  where
    run :
        AfterRun
          (options t)
          (fail_all registry
            (now ∷ times)
            (store registry [] (record_success (state_of t registry []) start) t))
          registry
          (suc (length times))
          (last_or now times)
    run =
        subst
          (λ m.
            AfterRun (options t)
              (fail_all registry (now ∷ times)
                (store registry [] (record_success (state_of t registry []) start) t))
              registry m (last_or now times))
          (omega arith)
          (fail_all-AfterRun (options t) (now ∷ times)
            (store registry [] (record_success (state_of t registry []) start) t) registry 0 0
            (omega arith) (succeeded t registry start))
