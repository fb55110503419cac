-- ===== src/CacheGc/Cleanup.antt =====
-- internal/cachegc/cleanup.go: one pass over the blobs, in the order of cleanup_helpers.go. The sort
-- stands for `slices.SortFunc`, which leaves the order of rows that compare equal open.
use regimux.Prelude.{
  ℕ, ◌+◌, ◌-◌, Bool, true, false, not, ◌&&◌, List, [], ◌∷◌, none, some, String, if◌then◌else◌,
}
use regimux.Prelude.Int.{ltb_ℤ}
use regimux.Prelude.Order.{Compared, first, second, either}
use regimux.CacheGc.Records.{BlobRecord, is_zero, before, after}
use regimux.CacheGc.Classify.{
  CleanupOptions, CleanupReport, validate_options, cutoff_of, classify, candidate_eligible,
  record_skip, plan_delete, limit_reached, selected, new_report_from_records,
}
use regimux.CacheGc.Outcome.{invalid_options}
use regimux.CacheGc.References.{load_references_from_snapshot}
use regimux.CacheGc.World.{
  Gc, pure, raise, lift, check_context, read_snapshot, read_objects, ◌>>=◌, ◌>>◌,
}
use regimux.CacheGc.Delete.{Service, Pass, delete_blob}

unfoldable pub cmp_time : ℕ → ℕ → Compared
cmp_time a b =
    if is_zero a
    then (if is_zero b then either else second)
    else if is_zero b
    then first
    else if before a b
    then first
    else if after a b
    then second
    else either

unfoldable pub compare_capacity : BlobRecord → BlobRecord → Compared
unfolding cmp_time
compare_capacity a b =
    if is_zero a.last_access_at && not (is_zero b.last_access_at)
    then first
    else if is_zero b.last_access_at && not (is_zero a.last_access_at)
    then second
    else if ltb_ℤ b.size a.size
    then first
    else if ltb_ℤ a.size b.size
    then second
    else cmp_time a.last_access_at b.last_access_at

-- `less` is Go's order of strings, which settles rows of the same age and size.
module _ (less : String → String → Bool) where
  unfoldable pub cmp_string : String → String → Compared
  cmp_string a b = if less a b then first else if less b a then second else either

  unfoldable pub compare_age : BlobRecord → BlobRecord → Compared
  unfolding cmp_time cmp_string
  compare_age a b = elim (cmp_time a.last_access_at b.last_access_at) [
    | first ↦ first
    | second ↦ second
    | either ↦
        if ltb_ℤ a.size b.size
        then first
        else if ltb_ℤ b.size a.size
        then second
        else cmp_string a.digest b.digest
  ]

unfoldable pub insert_blob :
    (BlobRecord → BlobRecord → Compared) → BlobRecord → List BlobRecord → List BlobRecord
insert_blob cmp b [] = b ∷ []
insert_blob cmp b (x ∷ xs) = elim (cmp x b) [
  | first ↦ x ∷ insert_blob cmp b xs
  | either ↦ x ∷ insert_blob cmp b xs
  | second ↦ b ∷ x ∷ xs
]

unfoldable pub sort_blobs : (BlobRecord → BlobRecord → Compared) → List BlobRecord → List BlobRecord
unfolding insert_blob
sort_blobs cmp [] = []
sort_blobs cmp (x ∷ xs) = insert_blob cmp x (sort_blobs cmp xs)

unfoldable pub order_blob_records :
    (String → String → Bool) → List BlobRecord → Bool → List BlobRecord
order_blob_records less blobs capacity =
    if capacity then sort_blobs compare_capacity blobs else sort_blobs (compare_age less) blobs

module _ (s : Service) (opts : CleanupOptions) (cutoff : ℕ) where
  -- Whether the pass stops, and the pass behind it.
  unfoldable pub process_eligible_candidate : BlobRecord → Pass → Gc (Bool × Pass)
  process_eligible_candidate b pass =
      if limit_reached opts.max_deletes pass.report.deleted_blobs
      then pure (true, record pass { report = record pass.report { limit_reached = true } })
      else (let counted = record pass {
        report = record pass.report { eligible_blobs = pass.report.eligible_blobs + 1 };
      } in
          if opts.dry_run
          then pure (false, record counted { report = plan_delete counted.report b })
          else (delete_blob s opts cutoff b.digest counted >>= λ (deleted, next). pure (
              if deleted then (false, next) else (
                false,
                record next {
                  report = record next.report { eligible_blobs = next.report.eligible_blobs - 1 };
                },
              ))))

  unfoldable pub cleanup_blob_candidate : BlobRecord → Pass → Gc (Bool × Pass)
  cleanup_blob_candidate b pass =
      if limit_reached opts.max_scan pass.report.scanned_blobs
      then pure (true, record pass { report = record pass.report { limit_reached = true } })
      else (check_context
          >> (let scanned = record pass {
            report = record pass.report { scanned_blobs = pass.report.scanned_blobs + 1 };
          } in
              let reason = classify b cutoff pass.refs.protected opts.prune_references in
              if not (candidate_eligible opts scanned.report reason)
              then pure (false, record scanned { report = record_skip scanned.report reason })
              else process_eligible_candidate b scanned))

  unfoldable pub cleanup_candidates : List BlobRecord → Pass → Gc Pass
  cleanup_candidates [] pass = pure pass
  cleanup_candidates (b ∷ bs) pass =
      if not (selected opts.candidates b.digest)
      then cleanup_candidates bs pass
      else (cleanup_blob_candidate b pass >>= λ (stop, next). elim stop [
        | true ↦ pure next
        | false ↦ cleanup_candidates bs next
      ])

module _ (less : String → String → Bool) (s : Service) (opts : CleanupOptions) where
  -- The pass behind the validation of the options.
  unfoldable pub run_pass : Gc CleanupReport
  run_pass =
      let cutoff = cutoff_of opts in
      read_snapshot >>= λ snapshot. read_objects >>= λ objects.
      lift (
        load_references_from_snapshot s.decoder s.limits objects cutoff opts.prune_references
          snapshot)
      >>= λ refs.
          let report = new_report_from_records opts snapshot.blobs in
          cleanup_candidates s opts cutoff
            (order_blob_records less snapshot.blobs report.capacity_exceeded)
            (record { refs = refs; report = report })
          >>= λ final. pure final.report

  unfoldable pub cleanup : Gc CleanupReport
  cleanup =
      check_context
      >> elim (validate_options opts) [ some e ↦ raise invalid_options | none ↦ run_pass ]
