-- ===== src/CacheGc/Examples.antt =====
-- A cleanup of internal/cachegc over a store with one blob that nothing refers to.
use regimux.Prelude.{◌<◌, ◌≡◌, ◌≢◌, refl, ◌↔◌, Bool, true, false, List, [], ◌∷◌, none, some, String}
use regimux.Prelude.Int.{pos}
use regimux.CacheGc.Records.{
  contains_key, CleanupSnapshot, BlobRecord, ManifestRecord, contains, insert,
}
use regimux.CacheGc.Classify.{
  latest_of, reason_eligible, is_recent, CleanupOptions, CleanupReport, cutoff_of, validate_options,
  new_report_from_records, classify, candidate_eligible, record_skip, remaining, limit_reached,
  total_size, plan_delete,
}
use regimux.CacheGc.Outcome.{Result, ok}
use regimux.CacheGc.Graph.{
  reserve, visit, protect_manifest_digest, protect_manifests, records_of, protect, protect_one,
  protect_manifest_graph, new_manifest_graph_walk, push_roots, walk_graph,
}
use regimux.CacheGc.Graph.Round.{Has}
use regimux.CacheGc.Graph.Closure.{Reach, protect_manifest_graph_iff}
use regimux.CacheGc.Graph.Budget.{protect_manifest_graph_total}
use regimux.CacheGc.Manifest.{other, Decoder, stored}
use regimux.CacheGc.World.{
  World, ◌>>=◌ as gc_bind, check_context, operation, begin, conclude, pure, raise, lift,
  read_snapshot, read_objects, blob, find_blob, stat_candidate, delete_object,
}
use regimux.CacheGc.Delete.{
  Service, delete_blob, load_eligible_blob, load_references, recheck, confirm_eligible_blob,
  remove_confirmed, finish_blob_deletion, record_deletion,
}
use regimux.CacheGc.Cleanup.{
  cleanup, run_pass, cleanup_candidates, cleanup_blob_candidate, process_eligible_candidate,
  order_blob_records, sort_blobs, insert_blob,
}
use regimux.CacheGc.Rows.{
  delete_if_unchanged, read_row, find_where, same_blob_revision, delete_row, without, blob_rows,
}
use regimux.CacheGc.References.{
  protect_recent_blob_activity, active_pull_references, tag_active, active_tags, active_manifests,
  lookup_flag, manifest_active, classify_manifest_references, classify_tag_references, link_recent,
  classify_repo_blob_references, add, prune_roots, load_references_from_snapshot,
  protect_all_manifest_references, settle, all_manifest_roots,
}
use regimux.CacheGc.Classify.Recent.{AnySet, AllBefore, is_recent_iff, classify_eligible_iff}
use regimux.CacheGc.Roots.{Live, prune_roots_iff}
use regimux.CacheGc.Safety.{IsSafe}
use regimux.CacheGc.Safety.Sweep.{cleanup_safe}
use regimux.CacheGc.DryRun.{removals, cleanup_dry_run}
use regimux.CacheGc.Report.{Agrees}
use regimux.CacheGc.Report.Sweep.{cleanup-Agrees}

abbrev less : String → String → Bool
less a b = false

abbrev decoder : Decoder
decoder = record {
  normalize_media_type = λ s. other;
  envelope = λ b. none;
  manifest = λ b. none;
  index = λ b. none;
  utf8_valid = λ b. true;
  json_valid = λ b. true;
}

abbrev service : Service
service = record {
  decoder = decoder;
  limits = record { max_records = 10; max_bytes = 100 };
  conditional = false;
}

abbrev old_blob : BlobRecord
old_blob = record {
  digest = "a";
  size = pos 3;
  object_key = "a";
  created_at = 1;
  updated_at = 1;
  last_access_at = 1;
}

abbrev world : World
world = record {
  shared = record {
    metadata = record {
      manifests = [];
      tags = [];
      blobs = old_blob ∷ [];
      repo_blobs = [];
      pulls = [];
    };
    objects = λ k. stored (1 ∷ 2 ∷ 3 ∷ []);
  };
  events = [];
  trace = [];
}

abbrev options : Bool → CleanupOptions
options dry = record {
  unused_for = pos 10;
  max_deletes = pos 5;
  max_scan = pos 5;
  max_bytes = pos 0;
  target_bytes = pos 0;
  dry_run = dry;
  now = 100;
  prune_references = false;
  candidates = none;
}

cleanup_safe_example :
    IsSafe service
      (options false)
      (cutoff_of (options false))
      (cleanup less service (options false) world).1.trace
cleanup_safe_example = cleanup_safe less service (options false) world tt

cleanup_dry_run_example :
    removals (cleanup less service (options true) world).1.trace ≡ removals world.trace
cleanup_dry_run_example = cleanup_dry_run less service (options true) world refl

abbrev manifest : ManifestRecord
manifest = record {
  alias = "h";
  repository = "r";
  digest = "m";
  media_type = "";
  size = pos 1;
  object_key = "";
  created_at = 1;
  updated_at = 1;
}

abbrev children : ManifestRecord → Result (List String)
children m = ok ("c" ∷ [])

protect_manifest_graph_total_example :
    protect_manifest_graph
      (manifest ∷ [])
      children
      (record { max_records = 3; max_bytes = 9 })
      ("m" ∷ [])
    ≢ none
protect_manifest_graph_total_example =
    protect_manifest_graph_total (manifest ∷ []) children
      (record { max_records = 3; max_bytes = 9 }) ("m" ∷ [])

-- The object and its row.
removes_two : removals (cleanup less service (options false) world).1.trace ≡ 2
unfolding gc_bind check_context operation begin conclude pure raise lift read_snapshot read_objects
    blob find_blob stat_candidate delete_object validate_options new_report_from_records classify
    candidate_eligible record_skip remaining limit_reached total_size plan_delete cleanup run_pass
    cleanup_candidates cleanup_blob_candidate process_eligible_candidate order_blob_records
    sort_blobs insert_blob delete_blob load_eligible_blob load_references recheck
    confirm_eligible_blob remove_confirmed finish_blob_deletion record_deletion delete_if_unchanged
    read_row find_where same_blob_revision delete_row without blob_rows
    load_references_from_snapshot protect_all_manifest_references settle all_manifest_roots contains
    insert protect_manifest_graph new_manifest_graph_walk push_roots walk_graph cutoff_of
removes_two = refl

abbrev report : CleanupReport
report = record {
  dry_run = false;
  scanned_blobs = 1;
  recent_blobs = 0;
  missing_access_time_blobs = 0;
  protected_blobs = 0;
  eligible_blobs = 1;
  deleted_blobs = 1;
  missing_objects = 0;
  bytes_before = 3;
  bytes_after = 0;
  bytes_target = 0;
  bytes_deleted = 3;
  capacity_exceeded = false;
  limit_reached = false;
  deleted_digests = "a" ∷ [];
}

reports : (cleanup less service (options false) world).0 ≡ ok report
unfolding gc_bind check_context operation begin conclude pure raise lift read_snapshot read_objects
    blob find_blob stat_candidate delete_object validate_options new_report_from_records classify
    candidate_eligible record_skip remaining limit_reached total_size plan_delete cleanup run_pass
    cleanup_candidates cleanup_blob_candidate process_eligible_candidate order_blob_records
    sort_blobs insert_blob delete_blob load_eligible_blob load_references recheck
    confirm_eligible_blob remove_confirmed finish_blob_deletion record_deletion delete_if_unchanged
    read_row find_where same_blob_revision delete_row without blob_rows
    load_references_from_snapshot protect_all_manifest_references settle all_manifest_roots contains
    insert protect_manifest_graph new_manifest_graph_walk push_roots walk_graph cutoff_of
reports = refl

cleanup-Agrees_example : Agrees (options false) report
cleanup-Agrees_example = cleanup-Agrees less service (options false) world report reports

walks :
    protect_manifest_graph
      (manifest ∷ [])
      children
      (record { max_records = 3; max_bytes = 9 })
      ("m" ∷ [])
    ≡ some (ok ("c" ∷ "m" ∷ []))
unfolding protect_manifest_graph new_manifest_graph_walk push_roots walk_graph reserve visit
    protect_manifest_digest protect_manifests records_of protect protect_one contains insert
walks = refl

protect_manifest_graph_iff_example :
    Has "c" ("c" ∷ "m" ∷ []) ↔ Reach (manifest ∷ []) children ("m" ∷ []) "c"
protect_manifest_graph_iff_example =
    protect_manifest_graph_iff (manifest ∷ []) children ("m" ∷ [])
      (record { max_records = 3; max_bytes = 9 }) ("c" ∷ "m" ∷ []) "c" walks

is_recent_iff_example :
    (is_recent 10 (0 ∷ 4 ∷ []) ≡ false) ↔ (AnySet (0 ∷ 4 ∷ []) × AllBefore 10 (0 ∷ 4 ∷ []))
is_recent_iff_example = is_recent_iff 10 (0 ∷ 4 ∷ [])

classify_eligible_iff_example :
    ((classify old_blob 90 [] true ≡ reason_eligible) ↔ (
      (contains old_blob.digest [] ≡ false)
      × AnySet (1 ∷ 1 ∷ 1 ∷ [])
      × AllBefore 90 (1 ∷ 1 ∷ 1 ∷ [])))
    × ((classify old_blob 90 [] false ≡ reason_eligible) ↔ (
        (contains old_blob.digest [] ≡ false)
        × (old_blob.last_access_at ≢ 0)
        × (old_blob.last_access_at < 90)))
classify_eligible_iff_example = classify_eligible_iff old_blob 90 []

-- An old manifest and its old tag, which was pulled lately.
abbrev pulled : CleanupSnapshot
pulled = record {
  manifests = manifest ∷ [];
  tags =
      record {
        alias = "h";
        repository = "r";
        reference = "t";
        digest = "m";
        expires_at = 0;
        created_at = 1;
        updated_at = 1;
      }
      ∷ [];
  blobs = old_blob ∷ [];
  repo_blobs = [];
  pulls =
      record {
        alias = "h";
        repository = "r";
        reference = "t";
        last_pull_at = 95;
        created_at = 1;
        updated_at = 1;
      }
      ∷ [];
}

pulled_roots : (prune_roots 90 pulled).protected ≡ "m" ∷ []
unfolding prune_roots protect_recent_blob_activity active_pull_references tag_active active_tags
    active_manifests lookup_flag manifest_active classify_manifest_references
    classify_tag_references link_recent classify_repo_blob_references add insert contains
    contains_key is_recent latest_of
pulled_roots = refl

prune_roots_iff_example :
    (contains "m" (prune_roots 90 pulled).protected ≡ true) ↔ Live 90 "m" pulled
prune_roots_iff_example = prune_roots_iff 90 "m" pulled
