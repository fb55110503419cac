-- ===== src/CacheGc/Graph/Budget.antt =====
-- The budget of the manifest graph walk of internal/cachegc, and why the walk ends.
use text.Mathlib.Text.{◌==◌}
use regimux.Prelude.{
  ℕ, zero, suc, ◌+◌, ◌-◌, ◌≤◌, ◌<◌, ◌≡◌, refl, ◌≢◌, inl, inr, true, false, ◌||◌, List, [], ◌∷◌,
  ◌++◌, none, some, String, arith, length, length-append, Bool-cases, List-cases, ap,
}
use regimux.CacheGc.Records.{ManifestRecord, contains, insert}
use regimux.CacheGc.Outcome.{Error, Result, ok, err, >>=-eq-ok, Result-cases}
use regimux.CacheGc.Graph.{
  Limits, ManifestGraphWalk, records_of, reserve, protect_one, protect, push_roots,
  new_manifest_graph_walk, protect_manifests, protect_manifest_digest, visit, walk_graph,
  protect_manifest_graph,
}

-- Every digest that joins the queue is paid for.
pub record Charged (w v : ManifestGraphWalk) : Type 0 where
  pub limits : v.limits ≡ w.limits
  pub paid : v.records + length w.queue ≡ w.records + length v.queue
  pub within : w.records ≤ w.limits.max_records → v.records ≤ w.limits.max_records
  pub bytes : w.bytes ≤ w.limits.max_bytes → v.bytes ≤ w.limits.max_bytes

Charged-refl : (w : ManifestGraphWalk) → Charged w w
Charged-refl w = record { limits = refl; paid = refl; within = λ h. h; bytes = λ h. h }

Charged-trans : (u v w : ManifestGraphWalk) → Charged u v → Charged v w → Charged u w
Charged-trans u v w a b = record {
  limits = ground (arith, a.limits, b.limits);
  paid = omega (arith, a.paid, b.paid);
  within = λ h. ground (arith, a.limits, b.limits, a.within h, b.within);
  bytes = λ h. ground (arith, a.limits, b.limits, a.bytes h, b.bytes);
}

push_one-Charged :
    (w v : ManifestGraphWalk) (digest : String)
    → reserve w digest ≡ ok v
    → Charged w (record v { queue = v.queue ++ digest ∷ [] })
unfolding reserve
push_one-Charged w v digest h = record {
  limits = ground arith;
  paid = ground (arith, length-append {0} w.queue (digest ∷ []));
  within = λ p. ground arith;
  bytes = λ p. ground arith;
}

-- What `protect` does with one digest: nothing, or it reserves, protects and queues it.
pub data Protects (w : ManifestGraphWalk) (digest : String) (v : ManifestGraphWalk) : Type 0 where
  skipped : (digest == "" || contains digest w.protected) ≡ true → v ≡ w → Protects w digest v
  queued :
      (u : ManifestGraphWalk)
      → (digest == "" || contains digest w.protected) ≡ false
      → reserve w digest ≡ ok u
      → v ≡ record u { protected = insert digest u.protected; queue = u.queue ++ digest ∷ [] }
      → Protects w digest v

pub protect_one-Protects :
    (w v : ManifestGraphWalk) (digest : String) → protect_one w digest ≡ ok v → Protects w digest v
unfolding protect_one
protect_one-Protects w v digest h =
    elim (Bool-cases (digest == "" || contains digest w.protected)) [
      | inl e ↦ skipped e (ground arith)
      | inr e ↦ elim (Result-cases (reserve w digest)) [
        | inl (u, r) ↦ queued u e r (ground arith)
        | inr (x, r) ↦ absurd (ground arith)
      ]
    ]

protect_one-Charged :
    (w v : ManifestGraphWalk) (digest : String) → Protects w digest v → Charged w v
protect_one-Charged w v digest (skipped _ e) = rw e (Charged-refl w)
protect_one-Charged w v digest (queued u _ r e) =
    let c = push_one-Charged w u digest r in
    rw e (record { limits = c.limits; paid = c.paid; within = c.within; bytes = c.bytes })

pub protect-Charged :
    (ds : List String) (w v : ManifestGraphWalk) → protect w ds ≡ ok v → Charged w v
unfolding protect
protect-Charged [] w v h = ground (arith, Charged-refl w)
protect-Charged (d ∷ ds) w v h =
    let (u, first, rest) = >>=-eq-ok (protect_one w d) (λ next. protect next ds) h in
    Charged-trans w u v (protect_one-Charged w u d (protect_one-Protects w u d first))
      (protect-Charged ds u v rest)

push_roots-Charged :
    (ds : List String) (w v : ManifestGraphWalk) → push_roots w ds ≡ ok v → Charged w v
unfolding push_roots
push_roots-Charged [] w v h = ground (arith, Charged-refl w)
push_roots-Charged (d ∷ ds) w v h =
    let (u, first, rest) = >>=-eq-ok (reserve w d) _ h in
    Charged-trans w _ v (push_one-Charged w u d first) (push_roots-Charged ds _ v rest)

module _ (manifests : List ManifestRecord) (children : ManifestRecord → Result (List String)) where
  protect_manifests-Charged :
      (ms : List ManifestRecord) (w v : ManifestGraphWalk)
      → protect_manifests manifests children w ms ≡ ok v
      → Charged w v
  unfolding protect_manifests
  protect_manifests-Charged [] w v h = ground (arith, Charged-refl w)
  protect_manifests-Charged (m ∷ ms) w v h =
      let (own, a, h₁) = >>=-eq-ok (protect w (m.digest ∷ m.object_key ∷ [])) _ h in
      let (digests, b, h₂) = >>=-eq-ok (children m) _ h₁ in
      let (next, c, h₃) = >>=-eq-ok (protect own digests) _ h₂ in
      Charged-trans w own v (protect-Charged _ w own a) (
        Charged-trans own next v (protect-Charged digests own next c)
          (protect_manifests-Charged ms next v h₃))

  -- A round takes one digest off the queue and pays for those that it adds.
  visit-Charged :
      (w v : ManifestGraphWalk) (digest : String) (rest : List String)
      → visit manifests children w digest rest ≡ ok v
      → Charged (record w { queue = rest }) v
  unfolding visit protect_manifest_digest
  visit-Charged w v digest rest h = elim (Bool-cases (contains digest w.visited)) [
    | inl seen ↦ let e : record w { queue = rest } ≡ v = ground arith in rw (← e) (Charged-refl _)
    | inr new ↦
        let c =
          protect_manifests-Charged (records_of digest manifests)
            (record w { queue = rest; visited = insert digest w.visited }) v (ground arith) in
        record { limits = c.limits; paid = c.paid; within = c.within; bytes = c.bytes }
  ]

  pub walk_graph-nil :
      (fuel : ℕ) (w : ManifestGraphWalk)
      → w.queue ≡ []
      → walk_graph manifests children (suc fuel) w ≡ some (ok w)
  unfolding walk_graph
  walk_graph-nil fuel w e = ground arith

  pub walk_graph-ok :
      (fuel : ℕ) (w next : ManifestGraphWalk) (d : String) (rest : List String)
      → w.queue ≡ d ∷ rest
      → visit manifests children w d rest ≡ ok next
      → walk_graph manifests children (suc fuel) w ≡ walk_graph manifests children fuel next
  unfolding walk_graph
  walk_graph-ok fuel w next d rest e v = ground arith

  pub walk_graph-err :
      (fuel : ℕ) (w : ManifestGraphWalk) (x : Error) (d : String) (rest : List String)
      → w.queue ≡ d ∷ rest
      → visit manifests children w d rest ≡ err x
      → walk_graph manifests children (suc fuel) w ≡ some (err x)
  unfolding walk_graph
  walk_graph-err fuel w x d rest e v = ground arith

  walk_graph_total :
      (fuel : ℕ) (w : ManifestGraphWalk)
      → w.records ≤ w.limits.max_records
      → length w.queue + (w.limits.max_records - w.records) < fuel
      → walk_graph manifests children fuel w ≢ none
  walk_graph_total zero w p h = absurd (omega arith)
  walk_graph_total (suc fuel) w p h = elim (List-cases w.queue) [
    | inl e ↦ rw (walk_graph-nil fuel w e) (λ x. cc)
    | inr (d, rest, e) ↦ elim (Result-cases (visit manifests children w d rest)) [
      | inr (x, v) ↦ rw (walk_graph-err fuel w x d rest e v) (λ x. cc)
      | inl (next, v) ↦
          let c = visit-Charged w next d rest v in
          let within : next.records ≤ next.limits.max_records =
            ground (arith, c.limits, c.within p) in
          rw (walk_graph-ok fuel w next d rest e v) (
            walk_graph_total fuel next within
              (ground (arith, c.limits, c.paid, c.within p, ap (λ (q : List String). length q) e)))
    ]
  ]

  -- The walk of `protectManifestGraph` ends, whatever the graph is, within one round for each record of
  -- its budget and one more.
  pub protect_manifest_graph_total :
      (limits : Limits) (roots : List String)
      → protect_manifest_graph manifests children limits roots ≢ none
  unfolding protect_manifest_graph
  protect_manifest_graph_total limits roots =
      elim (Result-cases (new_manifest_graph_walk limits roots)) [
        | inr (x, e) ↦ rw (e, protect_manifest_graph) (λ x. cc)
        | inl (w, e) ↦
            let c = push_roots-Charged roots _ w (unfold new_manifest_graph_walk in e) in
            let total =
              walk_graph_total (suc limits.max_records) w
                (ground (arith, c.limits, c.within (omega arith)))
                (ground (arith, c.limits, c.paid, c.within (omega arith))) in
            rw (e, protect_manifest_graph) (ground (arith, total))
      ]
