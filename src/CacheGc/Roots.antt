-- ===== src/CacheGc/Roots.antt =====
-- Which digests are the roots of a pruning pass: internal/cachegc/references.go before its walk over
-- the graph.
use text.Mathlib.TextEquality.{eq_iff}
use regimux.Prelude.{ℕ, ◌≡◌, ◌≢◌, ◌↔◌, ◌⊎◌, inl, inr, true, List, [], ◌∷◌, ◌++◌, String, arith}
use regimux.CacheGc.Records.{
  BlobRecord, ManifestRecord, TagRecord, RepoBlobRecord, PullRecord, CleanupSnapshot, contains,
  insert,
}
use regimux.CacheGc.Live.{
  Some, Recent, Recent-iff, IsActiveManifest, manifest_active_iff, LastIsActive, last_active_iff,
}
use regimux.CacheGc.References.{
  ReferenceSnapshot, add, tag_key, protect_recent_blob_activity, active_pull_references,
  active_tags, active_manifests, classify_manifest_references, classify_tag_references, link_recent,
  classify_repo_blob_references, prune_roots,
}

-- A row names a digest that is not the empty string.
abbrev pub Is : String → String → Type 0
Is d v = (v ≡ d) × (d ≢ "")

contains-add :
    (d v : String) (xs : List String)
    → (contains d (add v xs) ≡ true) ↔ ((contains d xs ≡ true) ⊎ Is d v)
unfolding add insert contains
contains-add d v xs = ground (arith, eq_iff v d, eq_iff v "")

module _ (cutoff : ℕ) (d : String) where
  -- A blob with recent activity names the digest, by its own or by the key of its object.
  abbrev pub LiveBlob : BlobRecord → Type 0
  LiveBlob b =
      Recent cutoff (b.last_access_at ∷ b.updated_at ∷ b.created_at ∷ [])
      × (Is d b.digest ⊎ Is d b.object_key)

  blobs_iff :
      (bs : List BlobRecord) (out : List String)
      → (contains d (protect_recent_blob_activity cutoff bs out) ≡ true)
        ↔ ((contains d out ≡ true) ⊎ Some LiveBlob bs)
  unfolding protect_recent_blob_activity
  blobs_iff [] out = ((λ h. inl h), elim [ inl h ↦ h | inr h ↦ elim h [ ] ])
  blobs_iff (b ∷ bs) out = ground (
    arith,
    blobs_iff bs out,
    blobs_iff bs (add b.object_key (add b.digest out)),
    contains-add d b.object_key (add b.digest out),
    contains-add d b.digest out,
    Recent-iff cutoff (b.last_access_at ∷ b.updated_at ∷ b.created_at ∷ []),
  )

  -- An active manifest names the digest.
  abbrev pub LiveManifest : List PullRecord → List TagRecord → ManifestRecord → Type 0
  LiveManifest pulls tags m =
      IsActiveManifest cutoff pulls tags m × (Is d m.digest ⊎ Is d m.object_key)

  manifests_iff :
      (pulls : List PullRecord) (tags : List TagRecord) (ms : List ManifestRecord)
      (out : ReferenceSnapshot)
      → (contains d
            (classify_manifest_references cutoff ms
              (active_manifests cutoff (active_pull_references cutoff pulls) tags)
              out).protected
          ≡ true)
        ↔ ((contains d out.protected ≡ true) ⊎ Some (LiveManifest pulls tags) ms)
  unfolding classify_manifest_references
  manifests_iff pulls tags [] out = ((λ h. inl h), elim [ inl h ↦ h | inr h ↦ elim h [ ] ])
  manifests_iff pulls tags (m ∷ ms) out =
      let kept = record out { protected = add m.object_key (add m.digest out.protected) } in
      let stale = record out { stale_manifests = out.stale_manifests ++ m ∷ [] } in
      ground (
        arith,
        manifests_iff pulls tags ms kept,
        manifests_iff pulls tags ms stale,
        manifest_active_iff cutoff pulls tags m,
        contains-add d m.object_key (add m.digest out.protected),
        contains-add d m.digest out.protected,
      )

  -- A tag names the digest, and the last tag of its name is active.
  abbrev pub LiveTag : List PullRecord → List TagRecord → TagRecord → Type 0
  LiveTag pulls tags t = LastIsActive cutoff pulls (tag_key t) tags × Is d t.digest

  tags_iff :
      (pulls : List PullRecord) (tags ts : List TagRecord) (out : ReferenceSnapshot)
      → (contains d
            (classify_tag_references ts
              (active_tags cutoff (active_pull_references cutoff pulls) tags [])
              out).protected
          ≡ true)
        ↔ ((contains d out.protected ≡ true) ⊎ Some (LiveTag pulls tags) ts)
  unfolding classify_tag_references
  tags_iff pulls tags [] out = ((λ h. inl h), elim [ inl h ↦ h | inr h ↦ elim h [ ] ])
  tags_iff pulls tags (t ∷ ts) out =
      let kept = record out { protected = add t.digest out.protected } in
      let stale = record out { stale_tags = out.stale_tags ++ t ∷ [] } in
      ground (
        arith,
        tags_iff pulls tags ts kept,
        tags_iff pulls tags ts stale,
        last_active_iff cutoff pulls (tag_key t) tags,
        contains-add d t.digest out.protected,
      )

  -- A recent link of a repository names the digest.
  abbrev pub LiveLink : RepoBlobRecord → Type 0
  LiveLink r =
      Recent cutoff (r.last_access_at ∷ r.last_verified_at ∷ r.updated_at ∷ r.created_at ∷ [])
      × Is d r.digest

  links_iff :
      (rs : List RepoBlobRecord) (out : ReferenceSnapshot)
      → (contains d (classify_repo_blob_references cutoff rs out).protected ≡ true)
        ↔ ((contains d out.protected ≡ true) ⊎ Some LiveLink rs)
  unfolding classify_repo_blob_references link_recent
  links_iff [] out = ((λ h. inl h), elim [ inl h ↦ h | inr h ↦ elim h [ ] ])
  links_iff (r ∷ rs) out =
      let kept = record out { protected = add r.digest out.protected } in
      let stale = record out { stale_repo_blobs = out.stale_repo_blobs ++ r ∷ [] } in
      ground (
        arith,
        links_iff rs kept,
        links_iff rs stale,
        contains-add d r.digest out.protected,
        Recent-iff cutoff
            (r.last_access_at ∷ r.last_verified_at ∷ r.updated_at ∷ r.created_at ∷ []),
      )

  -- What keeps a digest alive in a snapshot.
  abbrev pub Live : CleanupSnapshot → Type 0
  Live s =
      Some LiveBlob s.blobs
      ⊎ Some (LiveManifest s.pulls s.tags) s.manifests
      ⊎ Some (LiveTag s.pulls s.tags) s.tags
      ⊎ Some LiveLink s.repo_blobs

  -- A digest is a root of a pruning pass exactly if it is not empty and one of these rows names it: a
  -- recent blob, by its digest or the key of its object; so a manifest that is recent or that a
  -- recent or recently pulled tag points to; a tag, where the last tag of its name is recent or
  -- was pulled recently; or a recent link of a repository. A row is recent if none of its times is
  -- set or one that is set is not before the cutoff.
  pub prune_roots_iff :
      (s : CleanupSnapshot) → (contains d (prune_roots cutoff s).protected ≡ true) ↔ Live s
  unfolding prune_roots contains
  prune_roots_iff s =
      let pulls = active_pull_references cutoff s.pulls in
      let start : ReferenceSnapshot = record {
        protected = protect_recent_blob_activity cutoff s.blobs [];
        stale_tags = [];
        stale_manifests = [];
        stale_repo_blobs = [];
      } in
      let manifests =
        classify_manifest_references cutoff s.manifests (active_manifests cutoff pulls s.tags)
          start in
      let tags = classify_tag_references s.tags (active_tags cutoff pulls s.tags []) manifests in
      ground (
        arith,
        blobs_iff s.blobs [],
        manifests_iff s.pulls s.tags s.manifests start,
        tags_iff s.pulls s.tags s.tags manifests,
        links_iff s.repo_blobs tags,
      )
