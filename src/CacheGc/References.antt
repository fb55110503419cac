-- ===== src/CacheGc/References.antt =====
-- internal/cachegc/references.go: which rows of a snapshot are in use, and the digests that they
-- protect. The loops test for cancellation at each row and then fail with nothing changed; here the
-- tests stand with the calls of the store (module `World`).
use text.Mathlib.Text.{◌==◌}
use regimux.Prelude.{
  ℕ, Bool, true, false, not, ◌||◌, List, [], ◌∷◌, ◌++◌, Option, none, some, String, if◌then◌else◌,
}
use regimux.CacheGc.Records.{
  BlobRecord, ManifestRecord, TagRecord, RepoBlobRecord, PullRecord, CleanupSnapshot, Key, key_eq,
  contains_key, insert,
}
use regimux.CacheGc.Classify.{is_recent}
use regimux.CacheGc.Outcome.{Result, ok, err, graph_limit, ◌>>=◌}
use regimux.CacheGc.Graph.{Limits, protect_manifest_graph}
use regimux.CacheGc.Manifest.{Decoder, ObjectState, read_manifest_children}

pub record ReferenceSnapshot : Type 0 where
  pub protected : List String
  pub stale_tags : List TagRecord
  pub stale_manifests : List ManifestRecord
  pub stale_repo_blobs : List RepoBlobRecord

abbrev pub tag_key : TagRecord → Key
tag_key t = (t.alias, t.repository, t.reference)

abbrev pub pull_key : PullRecord → Key
pull_key p = (p.alias, p.repository, p.reference)

-- The key of the manifest that a row belongs to.
abbrev pub manifest_key : ManifestRecord → Key
manifest_key m = (m.alias, m.repository, m.digest)

abbrev pub tagged_key : TagRecord → Key
tagged_key t = (t.alias, t.repository, t.digest)

-- `add`: the empty string is no digest.
unfoldable pub add : String → List String → List String
add v values = if v == "" then values else insert v values

unfoldable pub protect_recent_blob_activity : ℕ → List BlobRecord → List String → List String
protect_recent_blob_activity cutoff [] protected = protected
protect_recent_blob_activity cutoff (b ∷ bs) protected = protect_recent_blob_activity cutoff bs (
    if is_recent cutoff (b.last_access_at ∷ b.updated_at ∷ b.created_at ∷ [])
    then add b.object_key (add b.digest protected)
    else protected)

unfoldable pub active_pull_references : ℕ → List PullRecord → List Key
active_pull_references cutoff [] = []
active_pull_references cutoff (p ∷ ps) =
    let rest = active_pull_references cutoff ps in
    if is_recent cutoff (p.last_pull_at ∷ p.updated_at ∷ p.created_at ∷ [])
    then pull_key p ∷ rest
    else rest

unfoldable pub tag_active : ℕ → List Key → TagRecord → Bool
tag_active cutoff active_pulls t =
    is_recent cutoff (t.updated_at ∷ t.created_at ∷ []) || contains_key (tag_key t) active_pulls

-- The map `activeTags`, whose last write for a key wins: the newest entry stands first.
unfoldable pub active_tags : ℕ → List Key → List TagRecord → List (Key × Bool) → List (Key × Bool)
active_tags cutoff active_pulls [] found = found
active_tags cutoff active_pulls (t ∷ ts) found =
    active_tags cutoff active_pulls ts ((tag_key t, tag_active cutoff active_pulls t) ∷ found)

unfoldable pub active_manifests : ℕ → List Key → List TagRecord → List Key
active_manifests cutoff active_pulls [] = []
active_manifests cutoff active_pulls (t ∷ ts) =
    let rest = active_manifests cutoff active_pulls ts in
    if tag_active cutoff active_pulls t then tagged_key t ∷ rest else rest

-- A read of the map; a missing key reads as false.
unfoldable pub lookup_flag : Key → List (Key × Bool) → Bool
lookup_flag k [] = false
lookup_flag k ((j, flag) ∷ rest) = if key_eq j k then flag else lookup_flag k rest

unfoldable pub manifest_active : ℕ → List Key → ManifestRecord → Bool
manifest_active cutoff active_keys m =
    is_recent cutoff (m.updated_at ∷ m.created_at ∷ []) || contains_key (manifest_key m) active_keys

unfoldable pub classify_manifest_references :
    ℕ → List ManifestRecord → List Key → ReferenceSnapshot → ReferenceSnapshot
classify_manifest_references cutoff [] active_keys out = out
classify_manifest_references cutoff (m ∷ ms) active_keys out =
    classify_manifest_references cutoff ms active_keys (
      if manifest_active cutoff active_keys m
      then record out { protected = add m.object_key (add m.digest out.protected) }
      else record out { stale_manifests = out.stale_manifests ++ m ∷ [] })

unfoldable pub classify_tag_references :
    List TagRecord → List (Key × Bool) → ReferenceSnapshot → ReferenceSnapshot
classify_tag_references [] active out = out
classify_tag_references (t ∷ ts) active out = classify_tag_references ts active (
    if lookup_flag (tag_key t) active
    then record out { protected = add t.digest out.protected }
    else record out { stale_tags = out.stale_tags ++ t ∷ [] })

unfoldable pub link_recent : ℕ → RepoBlobRecord → Bool
link_recent cutoff r =
    is_recent cutoff (r.last_access_at ∷ r.last_verified_at ∷ r.updated_at ∷ r.created_at ∷ [])

unfoldable pub classify_repo_blob_references :
    ℕ → List RepoBlobRecord → ReferenceSnapshot → ReferenceSnapshot
classify_repo_blob_references cutoff [] out = out
classify_repo_blob_references cutoff (r ∷ rs) out = classify_repo_blob_references cutoff rs (
    if link_recent cutoff r
    then record out { protected = add r.digest out.protected }
    else record out { stale_repo_blobs = out.stale_repo_blobs ++ r ∷ [] })

-- The roots and the stale rows of a pruning pass, before the walk over the graph.
unfoldable pub prune_roots : ℕ → CleanupSnapshot → ReferenceSnapshot
prune_roots cutoff s =
    let pulls = active_pull_references cutoff s.pulls in
    let blobs = protect_recent_blob_activity cutoff s.blobs [] in
    let start : ReferenceSnapshot = record {
      protected = blobs;
      stale_tags = [];
      stale_manifests = [];
      stale_repo_blobs = [];
    } in
    let manifests =
      classify_manifest_references cutoff s.manifests (active_manifests cutoff pulls s.tags)
        start in
    let tags = classify_tag_references s.tags (active_tags cutoff pulls s.tags []) manifests in
    classify_repo_blob_references cutoff s.repo_blobs tags

-- The roots of `protectAllManifestReferences`.
unfoldable pub all_manifest_roots : List ManifestRecord → List String → List String
all_manifest_roots [] protected = protected
all_manifest_roots (m ∷ ms) protected =
    all_manifest_roots ms (add m.object_key (add m.digest protected))

-- The walk always ends (Graph.Budget), so that `none` stands for no run of the code.
unfoldable pub settle : Option (Result (List String)) → Result (List String)
settle none = err graph_limit
settle (some r) = r

module _ (d : Decoder) (limits : Limits) (objects : String → ObjectState) where
  abbrev pub graph : Bool → List ManifestRecord → List String → Result (List String)
  unfolding settle
  graph strict manifests roots =
      settle
        (protect_manifest_graph manifests (read_manifest_children objects d strict) limits roots)

  unfoldable pub protect_all_manifest_references : List ManifestRecord → Result ReferenceSnapshot
  protect_all_manifest_references manifests = do
    protected ← graph false manifests (all_manifest_roots manifests [])
    ok (record {
      protected = protected;
      stale_tags = [];
      stale_manifests = [];
      stale_repo_blobs = [];
    })

  unfoldable pub load_references_from_snapshot :
      ℕ → Bool → CleanupSnapshot → Result ReferenceSnapshot
  unfolding protect_all_manifest_references
  load_references_from_snapshot cutoff prune s =
      if not prune then protect_all_manifest_references s.manifests else do
        let out = prune_roots cutoff s
        protected ← graph true s.manifests out.protected
        ok (record out { protected = protected })
