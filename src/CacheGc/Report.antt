-- ===== src/CacheGc/Report.antt =====
-- The counters of the report of internal/cachegc/cleanup.go over a whole pass.
pub mod Sweep
use regimux.Prelude.{
  ℕ, suc, ◌+◌, ◌-◌, ◌≤◌, ◌≡◌, refl, Bool, true, false, not, ◌&&◌, List, [], ◌∷◌, ◌++◌, Option, none,
  some, String, arith, length, length-append, if◌then◌else◌, ltb, leb,
}
use regimux.Prelude.Int.{ℤ, pos, negsuc, ltb_ℤ, leb_ℤ, ◌≤ℤ◌, ◌<ℤ◌, pos_part}
use regimux.CacheGc.Records.{BlobRecord}
use regimux.CacheGc.Classify.{
  CleanupOptions, CleanupReport, SkipReason, reason_eligible, reason_missing_time, reason_recent,
  reason_protected, cutoff_of, validate_options, OptionError, limit_reached, selected,
  candidate_eligible, classify, record_skip, remaining, plan_delete, new_report_from_records,
}
use regimux.CacheGc.Outcome.{Result, ok, err, invalid_options}
use regimux.CacheGc.References.{ReferenceSnapshot}
use regimux.CacheGc.World.{
  Action, World, Gc, pure, raise, check_context, CandidateStat, stat_candidate, delete_object,
  ◌>>=◌, operation, blob,
}
use regimux.CacheGc.Manifest.{no_object, unreadable, stored}
use regimux.CacheGc.Rows.{same_blob_revision}
use regimux.CacheGc.Delete.{
  Service, Pass, Check, allowed, refused, recheck, load_references, load_eligible_blob,
  confirm_eligible_blob, finish_blob_deletion, record_deletion, remove_confirmed, delete_blob,
}
use regimux.CacheGc.Cleanup.{
  process_eligible_candidate, cleanup_blob_candidate, cleanup_candidates, run_pass, cleanup,
}
use regimux.CacheGc.Triple.{
  Ends, Triple, Triple-pure, Triple-raise, Triple-lift, Triple-operation, Triple-if, Triple-bind,
  Triple-weaken,
}

-- A limit that is not positive is none.
abbrev pub Within : ℤ → ℕ → Type 0
Within limit n = pos 0 <ℤ limit → pos n ≤ℤ limit

-- Every count of a report agrees with the others. A pass that has just counted a blob as eligible is
-- `ahead` of its deletions, and one that has then skipped it has a count to give back.
abbrev pub Counts : CleanupOptions → ℕ → ℕ → CleanupReport → Type 0
Counts opts ahead spare r =
    (r.eligible_blobs ≡ r.deleted_blobs + ahead)
    × (length r.deleted_digests ≡ r.deleted_blobs)
    × (r.missing_objects ≤ r.deleted_blobs)
    × (r.recent_blobs + r.missing_access_time_blobs + r.protected_blobs + r.eligible_blobs
        ≤ r.scanned_blobs + spare)
    × (r.bytes_after ≤ r.bytes_before)
    × Within opts.max_deletes (r.deleted_blobs + ahead)
    × Within opts.max_scan r.scanned_blobs

abbrev pub Agrees : CleanupOptions → CleanupReport → Type 0
Agrees opts = Counts opts 0 0

pub limit_reached-Within :
    (limit : ℤ) (n : ℕ) → limit_reached limit n ≡ false → Within limit (n + 1)
unfolding limit_reached
limit_reached-Within limit n h = λ p. ground arith

remaining-le : (a : ℕ) (b : ℤ) → remaining a b ≤ a
unfolding remaining
remaining-le a b = ground arith

pub record_skip-Counts :
    (opts : CleanupOptions) (ahead spare : ℕ) (r : CleanupReport) (reason : SkipReason)
    → Counts opts ahead spare r
    → Counts opts ahead (spare + 1) (record_skip r reason)
unfolding record_skip
record_skip-Counts opts ahead spare r reason_eligible (a, b, c, d, e, f, g) =
    (a, b, c, omega arith, e, f, g)
record_skip-Counts opts ahead spare r reason_missing_time (a, b, c, d, e, f, g) =
    (a, b, c, omega arith, e, f, g)
record_skip-Counts opts ahead spare r reason_recent (a, b, c, d, e, f, g) =
    (a, b, c, omega arith, e, f, g)
record_skip-Counts opts ahead spare r reason_protected (a, b, c, d, e, f, g) =
    (a, b, c, omega arith, e, f, g)

pub plan_delete-Counts :
    (opts : CleanupOptions) (r : CleanupReport) (b : BlobRecord)
    → Counts opts 1 0 r
    → Counts opts 0 0 (plan_delete r b)
unfolding plan_delete
plan_delete-Counts opts r b (e, l, m, n, t, u, v) =
    ground
      (arith, length-append r.deleted_digests (b.digest ∷ []), remaining-le r.bytes_after b.size)

pub record_deletion-Counts :
    (s : Service) (opts : CleanupOptions) (cutoff : ℕ) (d : String) (b : BlobRecord)
    (stat : CandidateStat) (refs : ReferenceSnapshot) (r : CleanupReport)
    → Counts opts 1 0 r
    → Counts opts 0 0 (record_deletion s opts cutoff d b stat refs r).report
unfolding record_deletion
record_deletion-Counts s opts cutoff d b stat refs r (e, l, m, n, t, u, v) =
    ground (arith, length-append r.deleted_digests (d ∷ []), remaining-le r.bytes_after b.size)

-- A skip counted behind a scan.
pub scanned-Agrees :
    (opts : CleanupOptions) (r : CleanupReport) (reason : SkipReason)
    → Within opts.max_scan (r.scanned_blobs + 1)
    → Agrees opts r
    → Agrees opts (record_skip (record r { scanned_blobs = r.scanned_blobs + 1 }) reason)
unfolding record_skip
scanned-Agrees opts r reason_eligible w (a, b, c, d, e, f, g) = (a, b, c, omega arith, e, f, w)
scanned-Agrees opts r reason_missing_time w (a, b, c, d, e, f, g) = (a, b, c, omega arith, e, f, w)
scanned-Agrees opts r reason_recent w (a, b, c, d, e, f, g) = (a, b, c, omega arith, e, f, w)
scanned-Agrees opts r reason_protected w (a, b, c, d, e, f, g) = (a, b, c, omega arith, e, f, w)
