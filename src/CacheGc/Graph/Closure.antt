-- ===== src/CacheGc/Graph/Closure.antt =====
-- The manifest graph walk of internal/cachegc protects exactly what its roots reach.
use text.Mathlib.TextEquality.{eq_iff}
use regimux.Prelude.{
  ℕ, zero, suc, ◌≡◌, refl, ◌↔◌, ◌⊎◌, inl, inr, ◌||◌, List, [], ◌∷◌, Option, none, some, String,
  arith, Bool-cases, List-cases, subst, ◌∙◌,
}
use regimux.CacheGc.Records.{ManifestRecord, contains, insert}
use regimux.CacheGc.Outcome.{Error, Result, ok, err, >>=-eq-ok, Result-cases}
use regimux.CacheGc.Graph.{
  Limits, ManifestGraphWalk, reserve, push_roots, new_manifest_graph_walk, visit, walk_graph,
  protect_manifest_graph,
}
use regimux.CacheGc.Graph.Member.{contains-cons, contains-nil, contains-append, contains-insert}
use regimux.CacheGc.Graph.Budget.{walk_graph-nil, walk_graph-ok, walk_graph-err}
use regimux.CacheGc.Graph.Round.{Has, Edge, visit-seen, visit-new, reserve_same}

-- A walk that did not return a state, or the state that it returned.
Walked-cases :
    (r : Option (Result ManifestGraphWalk))
    → ((r ≡ none) ⊎ ((e : Error) × (r ≡ some (err e))))
      ⊎ ((v : ManifestGraphWalk) × (r ≡ some (ok v)))
Walked-cases none = inl (inl refl)
Walked-cases (some (err e)) = inl (inr (e, refl))
Walked-cases (some (ok v)) = inr (v, refl)

cons-cases : (x d : String) (xs : List String) → Has x (d ∷ xs) → (x ≡ d) ⊎ Has x xs
cons-cases x d xs h = ground (arith, contains-cons x d xs, eq_iff d x)

insert-cases : (x d : String) (xs : List String) → Has x (insert d xs) → (x ≡ d) ⊎ Has x xs
insert-cases x d xs h = ground (arith, contains-insert x d xs, eq_iff d x)

-- The roots are queued; nothing else changes.
record Pushed (ds : List String) (w v : ManifestGraphWalk) : Type 0 where
  protected : v.protected ≡ w.protected
  visited : v.visited ≡ w.visited
  queue : (x : String) → contains x v.queue ≡ (contains x w.queue || contains x ds)

push_roots-Pushed :
    (ds : List String) (w v : ManifestGraphWalk) → push_roots w ds ≡ ok v → Pushed ds w v
unfolding push_roots
push_roots-Pushed [] w v h = record {
  protected = ground arith;
  visited = ground arith;
  queue = λ x. ground (arith, contains-nil x);
}
push_roots-Pushed (d ∷ ds) w v h =
    let (u, first, rest) = >>=-eq-ok (reserve w d) _ h in
    let r = push_roots-Pushed ds _ v rest in
    let (p, q, s) = reserve_same w u d first in
    record {
      protected = r.protected ∙ p;
      visited = r.visited ∙ s;
      queue = λ x. ground (
        arith,
        r.queue x,
        q,
        contains-append x w.queue (d ∷ []),
        contains-cons x d [],
        contains-nil x,
        contains-cons x d ds,
      );
    }

module _ (manifests : List ManifestRecord) (children : ManifestRecord → Result (List String))
    (roots : List String) where
  -- What the roots reach along the edges of the manifest graph.
  pub data Reach : String → Type 0 where
    root : {d : String} → Has d roots → Reach d
    step : {d c : String} → Reach d → Edge manifests children d c → Reach c

  record Inv (w : ManifestGraphWalk) : Type 0 where
    sound : (x : String) → Has x w.protected → Reach x
    rooted : (x : String) → Has x roots → Has x w.protected
    queued : (x : String) → Has x w.queue → Has x w.protected
    split : (x : String) → Has x w.protected → Has x w.visited ⊎ Has x w.queue
    closed : (x y : String) → Has x w.visited → Edge manifests children x y → Has y w.protected

  visit-Inv :
      (w v : ManifestGraphWalk) (d : String) (rest : List String)
      → w.queue ≡ d ∷ rest
      → visit manifests children w d rest ≡ ok v
      → Inv w
      → Inv v
  visit-Inv w v d rest e h inv = elim (Bool-cases (contains d w.visited)) [
    | inl seen ↦ rw (visit-seen manifests children w v d rest seen h) (record {
      sound = inv.sound;
      rooted = inv.rooted;
      queued = λ x q. inv.queued x (ground (arith, contains-cons x d rest));
      split = λ x p. ground (arith, inv.split x p, contains-cons x d rest, eq_iff d x);
      closed = inv.closed;
    })
    | inr new ↦
        let a = visit-new manifests children w v d rest new h in
        let here : Has d w.protected =
          inv.queued d (ground (arith, contains-cons d d rest, eq_iff d d)) in
        record {
          sound = λ x p. elim (a.sound x p) [
            | inl old ↦ inv.sound x old
            | inr edge ↦ step (inv.sound d here) edge
          ];
          rooted = λ x r. a.mono x (inv.rooted x r);
          queued = λ x q. elim (a.queue_sound x q) [
            | inl old ↦ a.mono x (inv.queued x (ground (arith, contains-cons x d rest)))
            | inr p ↦ p
          ];
          split = λ x p. elim (a.track x p) [
            | inl old ↦ elim (inv.split x old) [
              | inl seen ↦ inl (rw a.visited (ground (arith, contains-insert x d w.visited)))
              | inr q ↦ elim (cons-cases x d rest (rw e at q)) [
                | inl is_d ↦
                    inl (rw a.visited (ground (arith, contains-insert x d w.visited, eq_iff d x)))
                | inr r ↦ inr (a.queue_mono x r)
              ]
            ]
            | inr q ↦ inr q
          ];
          closed = λ x y p edge. elim (insert-cases x d w.visited (rw a.visited at p)) [
            | inl is_d ↦ a.adds y (subst (λ k. Edge manifests children k y) is_d edge)
            | inr old ↦ a.mono y (inv.closed x y old edge)
          ];
        }
  ]

  walk_graph-Inv :
      (fuel : ℕ) (w v : ManifestGraphWalk)
      → walk_graph manifests children fuel w ≡ some (ok v)
      → Inv w
      → Inv v × (v.queue ≡ [])
  unfolding walk_graph
  walk_graph-Inv zero w v h inv = absurd (ground arith)
  walk_graph-Inv (suc fuel) w v h inv = elim (List-cases w.queue) [
    | inl e ↦
        let same : w ≡ v = ground (arith, walk_graph-nil manifests children fuel w e) in
        (subst Inv same inv, rw (← same) e)
    | inr (d, rest, e) ↦ elim (Result-cases (visit manifests children w d rest)) [
      | inr (x, r) ↦ absurd (ground (arith, walk_graph-err manifests children fuel w x d rest e r))
      | inl (next, r) ↦
          walk_graph-Inv fuel next v
            (ground (arith, walk_graph-ok manifests children fuel w next d rest e r))
            (visit-Inv w next d rest e r inv)
    ]
  ]

  covered :
      (v : ManifestGraphWalk) → Inv v → v.queue ≡ [] → (x : String) → Reach x → Has x v.protected
  covered v inv empty x (root r) = inv.rooted x r
  covered v inv empty x (step {d} r edge) = elim (inv.split d (covered v inv empty d r)) [
    | inl seen ↦ inv.closed d x seen edge
    | inr q ↦ absurd (ground (arith, empty, contains-nil d))
  ]

  new_walk-Inv :
      (limits : Limits) (w : ManifestGraphWalk)
      → new_manifest_graph_walk limits roots ≡ ok w
      → Inv w
  unfolding new_manifest_graph_walk
  new_walk-Inv limits w h =
      let r = push_roots-Pushed roots _ w h in
      record {
        sound = λ x p. root (ground (arith, r.protected));
        rooted = λ x p. ground (arith, r.protected);
        queued = λ x p. ground (arith, r.protected, r.queue x, contains-nil x);
        split = λ x p. inr (ground (arith, r.protected, r.queue x));
        closed = λ x y p edge. absurd (ground (arith, r.visited, contains-nil x));
      }

  -- When the walk succeeds, a digest is protected exactly if the roots reach it along what the
  -- manifests of protected digests name.
  pub protect_manifest_graph_iff :
      (limits : Limits) (protected : List String) (x : String)
      → protect_manifest_graph manifests children limits roots ≡ some (ok protected)
      → Has x protected ↔ Reach x
  unfolding protect_manifest_graph
  protect_manifest_graph_iff limits protected x h =
      elim (Result-cases (new_manifest_graph_walk limits roots)) [
        | inr (e, r) ↦ absurd (ground (arith, r))
        | inl (w, r) ↦
            elim (Walked-cases (walk_graph manifests children (suc limits.max_records) w)) [
              | inl bad ↦ absurd (ground (arith, bad))
              | inr (v, done) ↦
                  let (inv, empty) =
                    walk_graph-Inv (suc limits.max_records) w v done (new_walk-Inv limits w r) in
                  let e : protected ≡ v.protected = ground arith in
                  rw e (inv.sound x, covered v inv empty x)
            ]
      ]
