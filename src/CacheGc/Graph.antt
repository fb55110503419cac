-- ===== src/CacheGc/Graph.antt =====
-- internal/cachegc/references_graph.go: the walk over the manifest graph that protects every digest
-- which a protected manifest refers to, within a budget of records and bytes. The set's iteration
-- order is that of the list; `children` is what `readManifestChildren` returns in this walk. The loop
-- takes fuel, and `none` means that it ran out.
pub mod Member
pub mod Budget
pub mod Round
pub mod Closure
use Prim.Native.String.{len}
use text.Mathlib.Text.{◌==◌}
use regimux.Prelude.{
  ℕ, zero, suc, ◌+◌, ◌-◌, Bool, true, false, ◌||◌, List, [], ◌∷◌, ◌++◌, Option, none, some, String,
  leb, ltb, if◌then◌else◌,
}
use regimux.CacheGc.Records.{ManifestRecord, contains, insert}
use regimux.CacheGc.Outcome.{Result, ok, err, graph_limit, ◌>>=◌}

pub record Limits : Type 0 where
  pub max_records : ℕ
  pub max_bytes : ℕ

-- The map `byDigest` is the list of manifests, looked up by `records_of`.
pub record ManifestGraphWalk : Type 0 where
  pub protected : List String
  pub visited : List String
  pub queue : List String
  pub limits : Limits
  pub records : ℕ
  pub bytes : ℕ

-- `byDigest[digest]`.
unfoldable pub records_of : String → List ManifestRecord → List ManifestRecord
records_of digest [] = []
records_of digest (m ∷ ms) =
    let rest = records_of digest ms in if m.digest == digest then m ∷ rest else rest

unfoldable pub reserve : ManifestGraphWalk → String → Result ManifestGraphWalk
reserve walk digest =
    let bytes = len digest in
    if leb walk.limits.max_records walk.records || ltb (walk.limits.max_bytes - walk.bytes) bytes
    then err graph_limit
    else ok (record walk { records = walk.records + 1; bytes = walk.bytes + bytes })

-- One round of the loop of `protect`.
unfoldable pub protect_one : ManifestGraphWalk → String → Result ManifestGraphWalk
protect_one walk digest = if digest == "" || contains digest walk.protected then ok walk else do
  reserved ← reserve walk digest
  ok (record reserved {
    protected = insert digest reserved.protected;
    queue = reserved.queue ++ digest ∷ [];
  })

unfoldable pub protect : ManifestGraphWalk → List String → Result ManifestGraphWalk
protect walk [] = ok walk
protect walk (digest ∷ rest) = protect_one walk digest >>= λ next. protect next rest

-- The loop over `protected.Range`.
unfoldable pub push_roots : ManifestGraphWalk → List String → Result ManifestGraphWalk
push_roots walk [] = ok walk
push_roots walk (digest ∷ rest) = reserve walk digest >>= λ reserved.
    push_roots (record reserved { queue = reserved.queue ++ digest ∷ [] }) rest

unfoldable pub new_manifest_graph_walk : Limits → List String → Result ManifestGraphWalk
unfolding push_roots reserve
new_manifest_graph_walk limits protected =
    push_roots
      (record {
        protected = protected;
        visited = [];
        queue = [];
        limits = limits;
        records = 0;
        bytes = 0;
      })
      protected

module _ (manifests : List ManifestRecord) (children : ManifestRecord → Result (List String)) where
  -- The loop of `protectManifestDigest`.
  unfoldable pub protect_manifests :
      ManifestGraphWalk → List ManifestRecord → Result ManifestGraphWalk
  protect_manifests walk [] = ok walk
  protect_manifests walk (m ∷ ms) = protect walk (m.digest ∷ m.object_key ∷ []) >>= λ own.
      children m >>= λ digests. protect own digests >>= λ next. protect_manifests next ms

  unfoldable pub protect_manifest_digest : String → ManifestGraphWalk → Result ManifestGraphWalk
  unfolding protect_manifests
  protect_manifest_digest digest walk = protect_manifests walk (records_of digest manifests)

  -- One round of the loop of `protectManifestGraph` at a non-empty queue, `pop` included.
  unfoldable pub visit : ManifestGraphWalk → String → List String → Result ManifestGraphWalk
  unfolding protect_manifest_digest
  visit walk digest rest =
      let popped = record walk { queue = rest } in
      if contains digest walk.visited
      then ok popped
      else protect_manifest_digest digest (record popped { visited = insert digest walk.visited })

  unfoldable pub walk_graph : ℕ → ManifestGraphWalk → Option (Result ManifestGraphWalk)
  walk_graph zero walk = none
  walk_graph (suc fuel) walk = elim walk.queue [
    | [] ↦ some (ok walk)
    | digest ∷ rest ↦ elim (visit walk digest rest) [
      | err e ↦ some (err e)
      | ok next ↦ walk_graph fuel next
    ]
  ]

  -- The protected set behind the walk. Every record that is queued was reserved, so the budget
  -- bounds the rounds.
  unfoldable pub protect_manifest_graph : Limits → List String → Option (Result (List String))
  unfolding new_manifest_graph_walk
  protect_manifest_graph limits protected = elim (new_manifest_graph_walk limits protected) [
    | err e ↦ some (err e)
    | ok walk ↦ elim (walk_graph (suc limits.max_records) walk) [
      | none ↦ none
      | some (err e) ↦ some (err e)
      | some (ok final) ↦ some (ok final.protected)
    ]
  ]
