-- ===== src/CacheGc/Classify.antt =====
-- internal/cachegc/cleanup.go and cleanup_helpers.go: the options, the report, and the decision about
-- one blob. Byte totals are sums of the sizes on record and are taken to stay within int64.
pub mod Recent
use regimux.Prelude.{
  ℕ, suc, ◌+◌, ◌-◌, ◌≤◌, ◌≡◌, refl, Bool, true, false, not, ◌&&◌, ◌||◌, List, [], ◌∷◌, ◌++◌, Option,
  none, some, String, ◌==◌, leb, ltb, if◌then◌else◌,
}
use regimux.Prelude.Int.{ℤ, pos, ltb_ℤ, leb_ℤ, pos_part}
use regimux.CacheGc.Records.{BlobRecord, contains, is_zero, after, before}

pub record CleanupOptions : Type 0 where
  pub unused_for : ℤ
  pub max_deletes : ℤ
  pub max_scan : ℤ
  pub max_bytes : ℤ
  pub target_bytes : ℤ
  pub dry_run : Bool
  pub now : ℕ
  pub prune_references : Bool
  -- `none` is the nil map, which selects every blob.
  pub candidates : Option (List String)

pub record CleanupReport : Type 0 where
  pub dry_run : Bool
  pub scanned_blobs : ℕ
  pub recent_blobs : ℕ
  pub missing_access_time_blobs : ℕ
  pub protected_blobs : ℕ
  pub eligible_blobs : ℕ
  pub deleted_blobs : ℕ
  pub missing_objects : ℕ
  pub bytes_before : ℕ
  pub bytes_after : ℕ
  pub bytes_target : ℕ
  pub bytes_deleted : ℕ
  pub capacity_exceeded : Bool
  pub limit_reached : Bool
  pub deleted_digests : List String

pub data SkipReason : Type 0 where
  reason_eligible reason_missing_time reason_recent reason_protected : SkipReason

pub data OptionError : Type 0 where
  unused_not_positive negative_limit negative_bytes target_above_max : OptionError

-- `none` is success.
unfoldable pub validate_options : CleanupOptions → Option OptionError
validate_options opts =
    if leb_ℤ opts.unused_for (pos 0)
    then some unused_not_positive
    else if ltb_ℤ opts.max_deletes (pos 0) || ltb_ℤ opts.max_scan (pos 0)
    then some negative_limit
    else if ltb_ℤ opts.max_bytes (pos 0) || ltb_ℤ opts.target_bytes (pos 0)
    then some negative_bytes
    else if ltb_ℤ (pos 0) opts.max_bytes && ltb_ℤ opts.max_bytes opts.target_bytes
    then some target_above_max
    else none

-- `now.Add(-opts.UnusedFor)`: no time on record is before the zero time.
unfoldable pub cutoff_of : CleanupOptions → ℕ
cutoff_of opts = opts.now - pos_part opts.unused_for

-- The loop of `isRecent`: the latest time so far, if one was found.
unfoldable pub latest_of : Option ℕ → List ℕ → Option ℕ
latest_of found [] = found
latest_of none (v ∷ vs) = latest_of (if is_zero v then none else some v) vs
latest_of (some latest) (v ∷ vs) =
    latest_of (some (if is_zero v then latest else if after v latest then v else latest)) vs

unfoldable pub is_recent : ℕ → List ℕ → Bool
unfolding latest_of
is_recent cutoff values = elim (latest_of none values) [
  | none ↦ true
  | some latest ↦ not (before latest cutoff)
]

unfoldable pub classify : BlobRecord → ℕ → List String → Bool → SkipReason
classify b cutoff protected prune =
    if contains b.digest protected
    then reason_protected
    else if not prune
    then (if is_zero b.last_access_at
        then reason_missing_time
        else if not (before b.last_access_at cutoff)
        then reason_recent
        else reason_eligible)
    else if is_zero b.last_access_at && is_zero b.updated_at && is_zero b.created_at
    then reason_missing_time
    else if is_recent cutoff (b.last_access_at ∷ b.updated_at ∷ b.created_at ∷ [])
    then reason_recent
    else reason_eligible

unfoldable pub record_skip : CleanupReport → SkipReason → CleanupReport
record_skip r reason_eligible = r
record_skip r reason_missing_time = record r {
  missing_access_time_blobs = r.missing_access_time_blobs + 1;
}
record_skip r reason_recent = record r { recent_blobs = r.recent_blobs + 1 }
record_skip r reason_protected = record r { protected_blobs = r.protected_blobs + 1 }

-- `remaining(a, b)` for a total `a` that is not negative.
unfoldable pub remaining : ℕ → ℤ → ℕ
remaining a b = if leb_ℤ b (pos 0) then a else if leb_ℤ (pos a) b then 0 else a - pos_part b

unfoldable pub plan_delete : CleanupReport → BlobRecord → CleanupReport
unfolding remaining
plan_delete r b =
    let counted = record r {
      deleted_blobs = r.deleted_blobs + 1;
      deleted_digests = r.deleted_digests ++ b.digest ∷ [];
    } in
    if ltb_ℤ (pos 0) b.size
    then record counted {
      bytes_deleted = r.bytes_deleted + pos_part b.size;
      bytes_after = remaining r.bytes_after b.size;
    }
    else counted

unfoldable pub limit_reached : ℤ → ℕ → Bool
limit_reached limit current = ltb_ℤ (pos 0) limit && leb_ℤ limit (pos current)

abbrev pub selected : Option (List String) → String → Bool
selected none digest = true
selected (some candidates) digest = contains digest candidates

unfoldable pub total_size : Option (List String) → List BlobRecord → ℕ
total_size candidates [] = 0
total_size candidates (b ∷ bs) =
    (if selected candidates b.digest && ltb_ℤ (pos 0) b.size then pos_part b.size else 0)
    + total_size candidates bs

unfoldable pub new_report_from_records : CleanupOptions → List BlobRecord → CleanupReport
unfolding total_size
new_report_from_records opts blobs =
    let total = total_size opts.candidates blobs in
    record {
      dry_run = opts.dry_run;
      scanned_blobs = 0;
      recent_blobs = 0;
      missing_access_time_blobs = 0;
      protected_blobs = 0;
      eligible_blobs = 0;
      deleted_blobs = 0;
      missing_objects = 0;
      bytes_before = total;
      bytes_after = total;
      bytes_target =
          pos_part (if ltb_ℤ (pos 0) opts.target_bytes then opts.target_bytes else opts.max_bytes);
      bytes_deleted = 0;
      capacity_exceeded = ltb_ℤ (pos 0) opts.max_bytes && ltb_ℤ opts.max_bytes (pos total);
      limit_reached = false;
      deleted_digests = [];
    }

unfoldable pub candidate_eligible : CleanupOptions → CleanupReport → SkipReason → Bool
candidate_eligible opts report reason =
    let capacity_required =
      report.capacity_exceeded && ltb report.bytes_target report.bytes_after in
    elim reason [
      | reason_eligible ↦ true
      | reason_missing_time ↦ capacity_required && not opts.prune_references
      | reason_recent ↦ capacity_required
      | reason_protected ↦ false
    ]
