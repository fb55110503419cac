-- ===== src/Upstream/Health/Table.antt =====
-- What a property of the states must satisfy so that every call of
-- internal/ecosystems/container/upstream/endpoint_health_tracker.go keeps it.
use regimux.Prelude.{
  ℕ, ◌≡◌, refl, sym, subst, ◌∙◌, false, [], ◌∷◌, Option, none, some, arith, if◌then◌else◌,
}
use regimux.Prelude.Int.{ℤ, pos, leb_ℤ, add64, sub64, ltb_ℤ}
use regimux.Prelude.Bytes.{Bytes, bytes_eq_iff}
use regimux.Upstream.Health.{
  EndpointHealthOptions, EndpointHealthState, normalize_endpoint_health_options,
  normalize_endpoint_health_registry, fresh, record_success, record_failure,
  record_content_mismatch, positive_or,
}
use regimux.Upstream.Health.Tracker.{
  EndpointHealthTracker, put, state_of, store, options, touch, update_both, record_request_success,
  record_request_failure, record_repository_request_failure, record_content_inconsistent,
  record_probe_failure, record_probe_success, probed, acquire, release, runtime_snapshot,
}
use regimux.Upstream.Health.Events.{
  Event, probe_succeeded, probe_failed, request_succeeded, request_failed, repository_failed,
  content_inconsistent, acquired, released, looked_at, apply,
}

positive_or_twice :
    (v f : ℤ) → leb_ℤ f (pos 0) ≡ false → positive_or (positive_or v f) f ≡ positive_or v f
positive_or_twice v f h = ground arith

pub normalize_twice :
    (o : EndpointHealthOptions)
    → normalize_endpoint_health_options (normalize_endpoint_health_options o)
      ≡ normalize_endpoint_health_options o
unfolding normalize_endpoint_health_options
normalize_twice o = rw (
  positive_or_twice o.failure_penalty (pos 500000000) refl,
  positive_or_twice o.inflight_penalty (pos 50000000) refl,
  positive_or_twice o.cooldown (pos 120000000000) refl,
  positive_or_twice o.unknown_latency (pos 1000000000) refl,
  positive_or_twice o.failure_threshold (pos 1) refl,
  positive_or_twice o.content_mismatch_cooldown (pos 300000000000) refl,
)

-- The tracker goes by the options, and each state in it has the property.
abbrev pub Keeps :
    EndpointHealthOptions
    → (Bytes → Bytes → EndpointHealthState → Type 0)
    → EndpointHealthTracker
    → Type 0
Keeps o P t =
    (options t ≡ o)
    × ((row column : Bytes) (s : EndpointHealthState)
        → t.states row column ≡ some s
        → P row column s)

-- The changes of one state that the calls are made of.
pub data Change : Type 0 where
  kept succeeded failed mismatched probe_failed_too more less : Change
  measured : ℤ → Change

module _ (average : ℤ → ℤ → ℤ) (o : EndpointHealthOptions) (now : ℕ) where
  unfoldable pub change : Change → Bytes → EndpointHealthState → EndpointHealthState
  change kept column s = s
  change succeeded column s = record_success s now
  change failed column s = record_failure o s column now
  change mismatched column s = record_content_mismatch o s now
  change probe_failed_too column s = record (record_failure o s column now) { last_probe_at = now }
  change more column s = record s { inflight = add64 s.inflight (pos 1) }
  change less column s = record s {
    inflight = if ltb_ℤ (pos 0) s.inflight then sub64 s.inflight (pos 1) else s.inflight;
  }
  change (measured latency) column s = probed average s latency now

module _ (average : ℤ → ℤ → ℤ) (o : EndpointHealthOptions)
    (P : Bytes → Bytes → EndpointHealthState → Type 0)
    (P-fresh : (row column : Bytes) → P row column (fresh row column)) where
  pub state_of-P :
      (t : EndpointHealthTracker) (registry repository : Bytes)
      → Keeps o P t
      → P (normalize_endpoint_health_registry registry) repository (state_of t registry repository)
  unfolding state_of
  state_of-P t registry repository (_, h) =
      go (t.states (normalize_endpoint_health_registry registry) repository) refl
    where
      go :
          (r : Option EndpointHealthState)
          → t.states (normalize_endpoint_health_registry registry) repository ≡ r
          → P (normalize_endpoint_health_registry registry) repository (elim r [
            | some s ↦ s
            | none ↦ fresh (normalize_endpoint_health_registry registry) repository
          ])
      go none e = P-fresh _ _
      go (some s) e = h _ _ s e

  pub store-Keeps :
      (t : EndpointHealthTracker) (registry repository : Bytes) (s : EndpointHealthState)
      → P (normalize_endpoint_health_registry registry) repository s
      → Keeps o P t
      → Keeps o P (store registry repository s t)
  unfolding store put options
  store-Keeps t registry repository s p (e, h) = (normalize_twice t.opts ∙ e, go)
    where
      go :
          (row column : Bytes) (q : EndpointHealthState)
          → put (normalize_endpoint_health_registry registry) repository s t.states row column
            ≡ some q
          → P row column q
      go row column q eq = ground (
        arith,
        bytes_eq_iff row (normalize_endpoint_health_registry registry),
        bytes_eq_iff column repository,
        h row column q,
      )

  module _ (now : ℕ)
      (stable : (c : Change) (row column : Bytes) (s : EndpointHealthState)
        → P row column s
        → P row column (change average o now c column s)) where
    -- One change of one state, stored.
    once :
        (c : Change) (t : EndpointHealthTracker) (registry repository : Bytes)
        → Keeps o P t
        → Keeps o P (
            store registry repository
              (change average o now c repository (state_of t registry repository))
              t)
    once c t registry repository k =
        store-Keeps t registry repository _
          (stable c _ repository _ (state_of-P t registry repository k)) k

    update_both-Keeps :
        (c d : Change) (t : EndpointHealthTracker) (registry repository : Bytes)
        → Keeps o P t
        → Keeps o P
            (update_both
              (change average o now c [])
              (change average o now d repository)
              registry
              repository
              now
              t).0
    unfolding update_both
    update_both-Keeps c d t registry [] k = once c t registry [] k
    update_both-Keeps c d t registry (b ∷ repository) k =
        once d _ registry (b ∷ repository) (once c t registry [] k)

    pub apply-Keeps :
        (e : Event) (t : EndpointHealthTracker) → Keeps o P t → Keeps o P (apply average e now t)
    unfolding apply change record_probe_success record_probe_failure record_request_success
        record_request_failure record_repository_request_failure record_content_inconsistent acquire
        release runtime_snapshot touch
    apply-Keeps (probe_succeeded registry latency) t k = once (measured _) t registry [] k
    apply-Keeps (probe_failed registry) t k =
        subst
          (λ x. Keeps o P (
            store registry []
              (record (record_failure x (state_of t registry []) [] now) { last_probe_at = now })
              t))
          (sym k.0) (once probe_failed_too t registry [] k)
    apply-Keeps (request_succeeded registry repository) t k =
        update_both-Keeps succeeded succeeded t registry repository k
    apply-Keeps (request_failed registry repository) t k =
        subst
          (λ x.
            Keeps o P
              (update_both (λ s. record_failure x s [] now) (λ s. record_failure x s repository now)
                registry repository now t).0)
          (sym k.0) (update_both-Keeps failed failed t registry repository k)
    apply-Keeps (repository_failed registry repository) t k =
        subst
          (λ x.
            Keeps o P
              (update_both (λ s. s) (λ s. record_failure x s repository now) registry repository now
                t).0)
          (sym k.0) (update_both-Keeps kept failed t registry repository k)
    apply-Keeps (content_inconsistent registry repository) t k =
        subst
          (λ x.
            Keeps o P
              (update_both (λ s. record_content_mismatch x s now)
                (λ s. record_content_mismatch x s now) registry repository now t).0)
          (sym k.0) (update_both-Keeps mismatched mismatched t registry repository k)
    apply-Keeps (acquired registry) t k = once more t registry [] k
    apply-Keeps (released registry) t k = once less t registry [] k
    apply-Keeps (looked_at registry repository) t k = once kept t registry [] k
