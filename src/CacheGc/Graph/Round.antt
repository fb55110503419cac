-- ===== src/CacheGc/Graph/Round.antt =====
-- What one round of the manifest graph walk of internal/cachegc adds to the protected set.
use text.Mathlib.TextEquality.{eq_iff}
use regimux.Prelude.{
  ◌≡◌, refl, ◌∙◌, ◌≢◌, ◌↔◌, ◌⊎◌, inl, inr, true, false, List, [], ◌∷◌, String, arith, subst,
}
use regimux.CacheGc.Records.{ManifestRecord, contains, insert}
use regimux.CacheGc.Outcome.{Result, ok, >>=-eq-ok}
use regimux.CacheGc.Graph.{
  ManifestGraphWalk, records_of, reserve, protect_one, protect, protect_manifests,
  protect_manifest_digest, visit,
}
use regimux.CacheGc.Graph.Member.{contains-cons, contains-nil, contains-append, contains-insert}
use regimux.CacheGc.Graph.Budget.{Protects, skipped, queued, protect_one-Protects}

abbrev pub Has : String → List String → Type 0
Has x xs = contains x xs ≡ true

-- Membership of a manifest in a list of them.
abbrev pub In : ManifestRecord → List ManifestRecord → Type 0
In m [] = ⊥
In m (x ∷ xs) = (m ≡ x) ⊎ In m xs

-- `v` protects what `w` does and what is new, and queues all of the latter that `w` does not protect.
pub record Adds (New : String → Type 0) (w v : ManifestGraphWalk) : Type 0 where
  pub mono : (x : String) → Has x w.protected → Has x v.protected
  pub adds : (x : String) → New x → Has x v.protected
  pub sound : (x : String) → Has x v.protected → Has x w.protected ⊎ New x
  pub track : (x : String) → Has x v.protected → Has x w.protected ⊎ Has x v.queue
  pub queue_mono : (x : String) → Has x w.queue → Has x v.queue
  pub queue_sound : (x : String) → Has x v.queue → Has x w.queue ⊎ Has x v.protected
  pub visited : v.visited ≡ w.visited

Adds-refl : (w : ManifestGraphWalk) → Adds (λ _. ⊥) w w
Adds-refl w = record {
  mono = λ x h. h;
  adds = λ x h. absurd h;
  sound = λ x h. inl h;
  track = λ x h. inl h;
  queue_mono = λ x h. h;
  queue_sound = λ x h. inl h;
  visited = refl;
}

Adds-trans :
    (N M : String → Type 0) (u v w : ManifestGraphWalk)
    → Adds N u v
    → Adds M v w
    → Adds (λ x. N x ⊎ M x) u w
Adds-trans N M u v w a b = record {
  mono = λ x h. b.mono x (a.mono x h);
  adds = λ x. elim [ inl n ↦ b.mono x (a.adds x n) | inr m ↦ b.adds x m ];
  sound = λ x h. elim (b.sound x h) [
    | inl old ↦ elim (a.sound x old) [ inl p ↦ inl p | inr n ↦ inr (inl n) ]
    | inr m ↦ inr (inr m)
  ];
  track = λ x h. elim (b.track x h) [
    | inl old ↦ elim (a.track x old) [ inl p ↦ inl p | inr q ↦ inr (b.queue_mono x q) ]
    | inr q ↦ inr q
  ];
  queue_mono = λ x h. b.queue_mono x (a.queue_mono x h);
  queue_sound = λ x h. elim (b.queue_sound x h) [
    | inl old ↦ elim (a.queue_sound x old) [ inl q ↦ inl q | inr p ↦ inr (b.mono x p) ]
    | inr p ↦ inr p
  ];
  visited = b.visited ∙ a.visited;
}

-- The new digests under another description.
Adds-iff :
    (N M : String → Type 0) (w v : ManifestGraphWalk)
    → ((x : String) → N x ↔ M x)
    → Adds N w v
    → Adds M w v
Adds-iff N M w v same a = record {
  mono = a.mono;
  adds = λ x m. a.adds x ((same x).1 m);
  sound = λ x h. elim (a.sound x h) [ inl p ↦ inl p | inr n ↦ inr ((same x).0 n) ];
  track = a.track;
  queue_mono = a.queue_mono;
  queue_sound = a.queue_sound;
  visited = a.visited;
}

pub reserve_same :
    (w u : ManifestGraphWalk) (d : String)
    → reserve w d ≡ ok u
    → (u.protected ≡ w.protected) × (u.queue ≡ w.queue) × (u.visited ≡ w.visited)
unfolding reserve
reserve_same w u d h = ground arith

abbrev Only : String → String → Type 0
Only d x = (x ≡ d) × (x ≢ "")

protect_one-Adds : (w v : ManifestGraphWalk) (d : String) → Protects w d v → Adds (Only d) w v
protect_one-Adds w v d (skipped s e) = rw e (record {
  mono = λ x h. h;
  adds = λ x n. ground (arith, eq_iff d "");
  sound = λ x h. inl h;
  track = λ x h. inl h;
  queue_mono = λ x h. h;
  queue_sound = λ x h. inl h;
  visited = refl;
})
protect_one-Adds w v d (queued u new r e) =
    let (p, q, s) = reserve_same w u d r in
    rw (e, p, q, s)
      (record {
        mono = λ x h. ground (arith, contains-insert x d w.protected);
        adds = λ x n. ground (arith, contains-insert x d w.protected, eq_iff d x);
        sound = λ x h. ground (arith, contains-insert x d w.protected, eq_iff d x, eq_iff d "");
        track = λ x h. ground (
          arith,
          contains-insert x d w.protected,
          contains-append x w.queue (d ∷ []),
          contains-cons x d [],
        );
        queue_mono = λ x h. ground (arith, contains-append x w.queue (d ∷ []));
        queue_sound = λ x h. ground (
          arith,
          contains-append x w.queue (d ∷ []),
          contains-cons x d [],
          contains-nil x,
          contains-insert x d w.protected,
        );
        visited = refl;
      })

abbrev Named : List String → String → Type 0
Named ds x = Has x ds × (x ≢ "")

Named-cons :
    (d : String) (ds : List String) (x : String) → (Only d x ⊎ Named ds x) ↔ Named (d ∷ ds) x
Named-cons d ds x = ground (arith, contains-cons x d ds, eq_iff d x)

protect-Adds :
    (ds : List String) (w v : ManifestGraphWalk) → protect w ds ≡ ok v → Adds (Named ds) w v
unfolding protect
protect-Adds [] w v h =
    let e : w ≡ v = ground arith in
    rw (← e) (
      Adds-iff (λ _. ⊥) (Named []) w w (λ x. (λ a. absurd a, λ n. ground (arith, contains-nil x)))
        (Adds-refl w))
protect-Adds (d ∷ ds) w v h =
    let (u, first, rest) = >>=-eq-ok (protect_one w d) (λ next. protect next ds) h in
    Adds-iff (λ x. Only d x ⊎ Named ds x) (Named (d ∷ ds)) w v (Named-cons d ds)
      (Adds-trans (Only d) (Named ds) w u v
        (protect_one-Adds w u d (protect_one-Protects w u d first)) (protect-Adds ds u v rest))

module _ (manifests : List ManifestRecord) (children : ManifestRecord → Result (List String)) where
  -- What the record of a manifest names: itself, its object and its children.
  abbrev pub Names : ManifestRecord → String → Type 0
  Names m x =
      ((x ≡ m.digest) ⊎ (x ≡ m.object_key) ⊎ ((ds : List String) × (children m ≡ ok ds) × Has x ds))
      × (x ≢ "")

  -- An edge from a digest to what one of its manifests names.
  abbrev pub Edge : String → String → Type 0
  Edge d x = (m : ManifestRecord) × In m (records_of d manifests) × Names m x

  Names-iff :
      (m : ManifestRecord) (ds : List String) (x : String)
      → children m ≡ ok ds
      → (Named (m.digest ∷ m.object_key ∷ []) x ⊎ Named ds x) ↔ Names m x
  Names-iff m ds x e = (
    elim [
      | inl n ↦ ground (
        arith,
        contains-cons x m.digest (m.object_key ∷ []),
        contains-cons x m.object_key [],
        contains-nil x,
        eq_iff m.digest x,
        eq_iff m.object_key x,
      )
      | inr n ↦ (inr (inr (ds, e, n.0)), n.1)
    ],
    λ n. elim n.0 [
      | inl d ↦ inl (
        ground (
          arith,
          contains-cons x m.digest (m.object_key ∷ []),
          contains-cons x m.object_key [],
          contains-nil x,
          eq_iff m.digest x,
        ),
        n.1,
      )
      | inr (inl k) ↦ inl (
        ground (
          arith,
          contains-cons x m.digest (m.object_key ∷ []),
          contains-cons x m.object_key [],
          contains-nil x,
          eq_iff m.object_key x,
        ),
        n.1,
      )
      | inr (inr (ds', e', h)) ↦ inr (ground arith, n.1)
    ],
  )

  abbrev AnyNames : List ManifestRecord → String → Type 0
  AnyNames ms x = (m : ManifestRecord) × In m ms × Names m x

  AnyNames-cons :
      (m : ManifestRecord) (ms : List ManifestRecord) (ds : List String) (x : String)
      → children m ≡ ok ds
      → ((Named (m.digest ∷ m.object_key ∷ []) x ⊎ Named ds x) ⊎ AnyNames ms x)
        ↔ AnyNames (m ∷ ms) x
  AnyNames-cons m ms ds x e = (
    elim [ inl n ↦ (m, inl refl, (Names-iff m ds x e).0 n) | inr (m', i, n) ↦ (m', inr i, n) ],
    λ (m', i, n). elim i [
      | inl same ↦ inl ((Names-iff m ds x e).1 (subst (λ k. Names k x) same n))
      | inr old ↦ inr (m', old, n)
    ],
  )

  protect_manifests-Adds :
      (ms : List ManifestRecord) (w v : ManifestGraphWalk)
      → protect_manifests manifests children w ms ≡ ok v
      → Adds (λ x. (m : ManifestRecord) × In m ms × Names m x) w v
  unfolding protect_manifests
  protect_manifests-Adds [] w v h =
      let e : w ≡ v = ground arith in
      rw (← e) (Adds-iff (λ _. ⊥) _ w w (λ x. (λ a. absurd a, λ n. absurd n.1)) (Adds-refl w))
  protect_manifests-Adds (m ∷ ms) w v h =
      let (own, a, h₁) = >>=-eq-ok (protect w (m.digest ∷ m.object_key ∷ [])) _ h in
      let (digests, b, h₂) = >>=-eq-ok (children m) _ h₁ in
      let (next, c, h₃) = >>=-eq-ok (protect own digests) _ h₂ in
      let both =
        Adds-trans _ _ w own next (protect-Adds _ w own a) (protect-Adds digests own next c) in
      Adds-iff _ _ w v (λ x. AnyNames-cons m ms digests x b)
        (Adds-trans _ _ w next v both (protect_manifests-Adds ms next v h₃))

  pub visit-seen :
      (w v : ManifestGraphWalk) (d : String) (rest : List String)
      → contains d w.visited ≡ true
      → visit manifests children w d rest ≡ ok v
      → v ≡ record w { queue = rest }
  unfolding visit
  visit-seen w v d rest seen h = ground arith

  pub visit-new :
      (w v : ManifestGraphWalk) (d : String) (rest : List String)
      → contains d w.visited ≡ false
      → visit manifests children w d rest ≡ ok v
      → Adds (Edge d) (record w { queue = rest; visited = insert d w.visited }) v
  unfolding visit protect_manifest_digest
  visit-new w v d rest new h =
      protect_manifests-Adds (records_of d manifests)
        (record w { queue = rest; visited = insert d w.visited }) v (ground arith)
