-- ===== src/CacheGc/Delete.antt =====
-- internal/cachegc/delete.go: the deletion of one blob. The row and the references are read again
-- before and after the object is looked at, and the object goes only if both readings still allow it.
use text.Mathlib.Text.{◌==◌}
use regimux.Prelude.{
  ℕ, ◌+◌, Bool, true, false, not, List, [], ◌∷◌, ◌++◌, none, some, String, if◌then◌else◌,
}
use regimux.CacheGc.Records.{BlobRecord}
use regimux.CacheGc.Classify.{
  CleanupOptions, CleanupReport, classify, candidate_eligible, record_skip, remaining,
}
use regimux.CacheGc.Graph.{Limits}
use regimux.CacheGc.Manifest.{Decoder}
use regimux.CacheGc.References.{ReferenceSnapshot, load_references_from_snapshot}
use regimux.CacheGc.World.{
  Gc, pure, lift, check_context, read_snapshot, read_objects, blob, CandidateStat, stat_candidate,
  delete_object, ◌>>=◌, ◌>>◌,
}
use regimux.CacheGc.Rows.{
  Relation, delete_if_unchanged, same_blob_revision, blob_rows, tag_rows, manifest_rows,
  repo_blob_rows,
}

pub record Service : Type 0 where
  pub decoder : Decoder
  pub limits : Limits
  -- Whether the metadata store deletes conditionally in one statement.
  pub conditional : Bool

-- What a pass carries along: the references last read, and the report.
pub record Pass : Type 0 where
  pub refs : ReferenceSnapshot
  pub report : CleanupReport

-- The row and the references of a blob that may go, or the report without it.
pub data Check : Type 0 where
  allowed : BlobRecord → ReferenceSnapshot → Check
  refused : CleanupReport → Check

module _ (s : Service) (opts : CleanupOptions) (cutoff : ℕ) where
  unfoldable pub load_references : Gc ReferenceSnapshot
  load_references = read_snapshot >>= λ snapshot. read_objects >>= λ objects. lift (
      load_references_from_snapshot s.decoder s.limits objects cutoff opts.prune_references
        snapshot)

  -- The second half of `loadEligibleBlob` and of `confirmEligibleBlob`.
  unfoldable pub recheck : BlobRecord → CleanupReport → Gc Check
  recheck current report = do
    refs ← load_references
    let reason = classify current cutoff refs.protected opts.prune_references
    pure (
        if candidate_eligible opts report reason
        then allowed current refs
        else refused (record_skip report reason))

  unfoldable pub load_eligible_blob : String → CleanupReport → Gc Check
  load_eligible_blob digest report = blob digest >>= λ found. elim found [
    | none ↦ pure (refused report)
    | some current ↦ recheck current report
  ]

  unfoldable pub confirm_eligible_blob : BlobRecord → CleanupReport → Gc Check
  confirm_eligible_blob original report =
      check_context
      >> (blob original.digest >>= λ found. elim found [
        | none ↦ pure (refused report)
        | some current ↦
            if same_blob_revision original current
            then recheck current report
            else pure (refused report)
      ])

  -- The loop of `pruneTags`, `pruneManifests` and `pruneRepoBlobs`.
  unfoldable pub prune_rows : {A : Type 0} → Relation A → (A → String) → String → List A → Gc Bool
  prune_rows r digest_of digest [] = pure true
  prune_rows r digest_of digest (x ∷ xs) =
      let rest = prune_rows r digest_of digest xs in
      if digest_of x == digest
      then (delete_if_unchanged s.conditional r x >>= λ deleted.
          if deleted then rest else pure false)
      else rest

  unfoldable pub prune_references_for_digest : String → ReferenceSnapshot → Gc Bool
  prune_references_for_digest digest refs =
      prune_rows tag_rows (λ t. t.digest) digest refs.stale_tags >>= λ tags.
      if not tags
      then pure false
      else (prune_rows manifest_rows (λ m. m.digest) digest refs.stale_manifests >>= λ manifests.
          if not manifests
          then pure false
          else (prune_rows repo_blob_rows (λ r. r.digest) digest refs.stale_repo_blobs))

  unfoldable pub finish_blob_deletion : String → BlobRecord → ReferenceSnapshot → Gc Bool
  finish_blob_deletion digest latest refs =
      (if opts.prune_references then prune_references_for_digest digest refs else pure true)
      >>= λ pruned.
          if not pruned then pure false else delete_if_unchanged s.conditional blob_rows latest

  unfoldable pub record_deletion :
      String → BlobRecord → CandidateStat → ReferenceSnapshot → CleanupReport → Pass
  record_deletion digest b stat refs report = record {
    refs = refs;
    report = record report {
      bytes_deleted = report.bytes_deleted + stat.size;
      missing_objects = if stat.missing then report.missing_objects + 1 else report.missing_objects;
      deleted_blobs = report.deleted_blobs + 1;
      deleted_digests = report.deleted_digests ++ digest ∷ [];
      bytes_after = remaining report.bytes_after b.size;
    };
  }

  -- The part of `deleteBlob` behind the second check.
  unfoldable pub remove_confirmed :
      String
      → BlobRecord
      → CandidateStat
      → BlobRecord
      → ReferenceSnapshot
      → CleanupReport
      → Gc (Bool × Pass)
  remove_confirmed digest b stat latest refs report = do
    delete_object digest
    deleted ← finish_blob_deletion digest latest refs
    pure (
        if deleted
        then (true, record_deletion digest b stat refs report)
        else (false, record { refs = refs; report = report }))

  -- Whether the blob was counted as deleted, and the pass behind it.
  unfoldable pub delete_blob : String → Pass → Gc (Bool × Pass)
  delete_blob digest pass = load_eligible_blob digest pass.report >>= λ first. elim first [
    | refused report ↦ pure (false, record pass { report = report })
    | allowed b refs ↦ stat_candidate digest >>= λ stat.
        confirm_eligible_blob b pass.report >>= λ second. elim second [
          | refused report ↦ pure (false, record { refs = refs; report = report })
          | allowed latest current ↦ remove_confirmed digest b stat latest current pass.report
        ]
  ]
