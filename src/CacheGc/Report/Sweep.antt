-- ===== src/CacheGc/Report/Sweep.antt =====
-- Each step of a pass of internal/cachegc keeps the counts of the report in agreement.
use regimux.Prelude.{
  subst, ℕ, ◌+◌, ◌-◌, ◌≡◌, refl, Bool, true, false, not, List, [], ◌∷◌, Option, none, some, String,
  arith, if◌then◌else◌,
}
use regimux.CacheGc.Records.{BlobRecord}
use regimux.CacheGc.Classify.{
  CleanupOptions, CleanupReport, cutoff_of, validate_options, OptionError, limit_reached, selected,
  candidate_eligible, classify, record_skip, new_report_from_records,
}
use regimux.CacheGc.Outcome.{Result, ok, err, invalid_options}
use regimux.CacheGc.References.{ReferenceSnapshot}
use regimux.CacheGc.World.{World, Gc, pure, raise, CandidateStat}
use regimux.CacheGc.Rows.{same_blob_revision}
use regimux.CacheGc.Delete.{
  Service, Pass, Check, allowed, refused, recheck, load_eligible_blob, confirm_eligible_blob,
  record_deletion, remove_confirmed, delete_blob,
}
use regimux.CacheGc.Cleanup.{
  process_eligible_candidate, cleanup_blob_candidate, cleanup_candidates, run_pass, cleanup,
}
use regimux.CacheGc.Triple.{Ends, Triple-raise}
use regimux.CacheGc.Triple.Yields.{Yields, pure-Yields, bind-Yields, step-Yields, if-Yields}
use regimux.CacheGc.Report.{
  Within, Counts, Agrees, limit_reached-Within, record_skip-Counts, plan_delete-Counts,
  record_deletion-Counts, scanned-Agrees,
}

module _ (s : Service) (opts : CleanupOptions) (cutoff : ℕ) where
  -- A second look at a blob that was counted as eligible.
  abbrev Rechecked : Check → Type 0
  Rechecked (allowed b refs) = Unit {0}
  Rechecked (refused r) = Counts opts 1 1 r

  weaken-Counts : (r : CleanupReport) → Counts opts 1 0 r → Counts opts 1 1 r
  weaken-Counts r (a, b, c, d, e, f, g) = (a, b, c, omega arith, e, f, g)

  recheck-Rechecked :
      (b : BlobRecord) (r : CleanupReport)
      → Counts opts 1 0 r
      → Yields (recheck s opts cutoff b r) Rechecked
  unfolding recheck
  recheck-Rechecked b r h = step-Yields Rechecked _ _ λ refs. pure-Yields Rechecked _ (
      decided refs
        (candidate_eligible opts r (classify b cutoff refs.protected opts.prune_references)))
    where
      decided :
          (refs : ReferenceSnapshot) (e : Bool)
          → Rechecked (
              if e
              then allowed b refs
              else refused (record_skip r (classify b cutoff refs.protected opts.prune_references)))
      decided refs true = tt
      decided refs false = record_skip-Counts opts 1 0 r _ h

  load_eligible_blob-Rechecked :
      (d : String) (r : CleanupReport)
      → Counts opts 1 0 r
      → Yields (load_eligible_blob s opts cutoff d r) Rechecked
  unfolding load_eligible_blob
  load_eligible_blob-Rechecked d r h = step-Yields Rechecked _ _ (elim [
    | none ↦ pure-Yields Rechecked _ (weaken-Counts r h)
    | some b ↦ recheck-Rechecked b r h
  ])

  confirm_eligible_blob-Rechecked :
      (b : BlobRecord) (r : CleanupReport)
      → Counts opts 1 0 r
      → Yields (confirm_eligible_blob s opts cutoff b r) Rechecked
  unfolding confirm_eligible_blob
  confirm_eligible_blob-Rechecked b r h = step-Yields Rechecked _ _ λ _.
      step-Yields Rechecked _ _ (elim [
        | none ↦ pure-Yields Rechecked _ (weaken-Counts r h)
        | some x ↦
            if-Yields Rechecked (same_blob_revision b x) _ _ (λ _. recheck-Rechecked x r h)
              (λ _. pure-Yields Rechecked _ (weaken-Counts r h))
      ])

  -- A deletion either catches up with the count of eligible blobs or leaves it to give back.
  abbrev Deleted : Bool × Pass → Type 0
  Deleted (true, next) = Counts opts 0 0 next.report
  Deleted (false, next) = Counts opts 1 1 next.report

  delete_blob-Deleted :
      (d : String) (pass : Pass)
      → Counts opts 1 0 pass.report
      → Yields (delete_blob s opts cutoff d pass) Deleted
  unfolding delete_blob remove_confirmed
  delete_blob-Deleted d pass h =
      bind-Yields Rechecked Deleted _ _ (load_eligible_blob-Rechecked d pass.report h) (elim [
        | refused r ↦ λ c. pure-Yields Deleted _ c
        | allowed b refs ↦ λ _. step-Yields Deleted _ _ λ stat.
            bind-Yields Rechecked Deleted _ _ (confirm_eligible_blob-Rechecked b pass.report h)
              (elim [
                | refused r ↦ λ c. pure-Yields Deleted _ c
                | allowed latest current ↦ λ _. step-Yields Deleted _ _ λ _.
                    step-Yields Deleted _ _
                      λ deleted. pure-Yields Deleted _ (ends deleted b stat current)
              ])
      ])
    where
      ends :
          (deleted : Bool) (b : BlobRecord) (stat : CandidateStat) (refs : ReferenceSnapshot)
          → Deleted (
              if deleted
              then (true, record_deletion s opts cutoff d b stat refs pass.report)
              else (false, record { refs = refs; report = pass.report }))
      ends true b stat refs = record_deletion-Counts s opts cutoff d b stat refs pass.report h
      ends false b stat refs = weaken-Counts pass.report h

  abbrev StepAgrees : Bool × Pass → Type 0
  StepAgrees (stop, next) = Agrees opts next.report

  abbrev scanned : CleanupReport → CleanupReport
  scanned r = record r { scanned_blobs = r.scanned_blobs + 1 }

  process_eligible_candidate-Agrees :
      (b : BlobRecord) (refs : ReferenceSnapshot) (r : CleanupReport)
      → Agrees opts r
      → Within opts.max_scan (r.scanned_blobs + 1)
      → Yields
          (process_eligible_candidate s opts cutoff b (record { refs = refs; report = scanned r }))
          StepAgrees
  unfolding process_eligible_candidate
  process_eligible_candidate-Agrees b refs r (h1, h2, h3, h4, h5, h6, h7) q =
      if-Yields StepAgrees (limit_reached opts.max_deletes r.deleted_blobs) _ _
        (λ _. pure-Yields StepAgrees _ (h1, h2, h3, omega arith, h5, h6, q))
        (λ e.
          let ahead : Counts opts 1 0
              (record (scanned r) { eligible_blobs = r.eligible_blobs + 1 }) =
            (
              omega arith,
              h2,
              h3,
              omega arith,
              h5,
              limit_reached-Within opts.max_deletes r.deleted_blobs e,
              q,
            ) in
          if-Yields StepAgrees opts.dry_run _ _
            (λ _. pure-Yields StepAgrees _ (plan_delete-Counts opts _ b ahead))
            (λ _.
              bind-Yields Deleted StepAgrees _ _ (delete_blob-Deleted b.digest _ ahead)
                (λ (deleted, next). given_back deleted next)))
    where
      given_back :
          (deleted : Bool) (next : Pass)
          → Deleted (deleted, next)
          → Yields
              (pure (
                if deleted then (false, next) else (
                  false,
                  record next {
                    report = record next.report { eligible_blobs = next.report.eligible_blobs - 1 };
                  },
                )))
              StepAgrees
      given_back true next h = pure-Yields StepAgrees _ h
      given_back false next (a, b, c, d, e, f, g) =
          pure-Yields StepAgrees _
            (omega arith, b, c, omega arith, e, (λ p. ground (arith, f p)), g)

  cleanup_blob_candidate-Agrees :
      (b : BlobRecord) (pass : Pass)
      → Agrees opts pass.report
      → Yields (cleanup_blob_candidate s opts cutoff b pass) StepAgrees
  unfolding cleanup_blob_candidate
  cleanup_blob_candidate-Agrees b pass h =
      if-Yields StepAgrees (limit_reached opts.max_scan pass.report.scanned_blobs) _ _
        (λ _. pure-Yields StepAgrees _ h)
        (λ e. step-Yields StepAgrees _ _ λ _.
          if-Yields StepAgrees
            (not (
              candidate_eligible opts _
                (classify b cutoff pass.refs.protected opts.prune_references)))
            _ _
            (λ _. pure-Yields StepAgrees _ (
              scanned-Agrees opts pass.report _
                (limit_reached-Within opts.max_scan pass.report.scanned_blobs e) h))
            (λ _.
              process_eligible_candidate-Agrees b pass.refs pass.report h
                (limit_reached-Within opts.max_scan pass.report.scanned_blobs e)))

  cleanup_candidates-Agrees :
      (bs : List BlobRecord) (pass : Pass)
      → Agrees opts pass.report
      → Yields (cleanup_candidates s opts cutoff bs pass) (λ next. Agrees opts next.report)
  unfolding cleanup_candidates
  cleanup_candidates-Agrees [] pass h = pure-Yields (λ next. Agrees opts next.report) pass h
  cleanup_candidates-Agrees (b ∷ bs) pass h =
      let rest = cleanup_candidates-Agrees bs in
      if-Yields (λ next. Agrees opts next.report) (not (selected opts.candidates b.digest)) _ _
        (λ _. rest pass h)
        (λ _.
          bind-Yields StepAgrees (λ next. Agrees opts next.report) _ _
            (cleanup_blob_candidate-Agrees b pass h) λ (stop, next) k. go stop next k (rest next k))
    where
      go :
          (stop : Bool) (next : Pass)
          → Agrees opts next.report
          → Yields (cleanup_candidates s opts cutoff bs next) (λ last. Agrees opts last.report)
          → Yields
              (elim stop as (λ _. Gc Pass) [
                | true ↦ pure next
                | false ↦ cleanup_candidates s opts cutoff bs next
              ])
              (λ last. Agrees opts last.report)
      go true next k h = pure-Yields (λ last. Agrees opts last.report) next k
      go false next k h = h

new_report-Agrees :
    (opts : CleanupOptions) (blobs : List BlobRecord)
    → Agrees opts (new_report_from_records opts blobs)
unfolding new_report_from_records
new_report-Agrees opts blobs =
    (refl, refl, omega arith, omega arith, omega arith, (λ p. omega arith), λ p. omega arith)

cleanup-Yields :
    (less : String → String → Bool) (s : Service) (opts : CleanupOptions)
    → Yields (cleanup less s opts) (Agrees opts)
unfolding cleanup run_pass
cleanup-Yields less s opts = step-Yields (Agrees opts) _ _ λ _. go (validate_options opts)
  where
    go :
        (r : Option OptionError)
        → Yields
            (elim r [ some e ↦ raise invalid_options | none ↦ run_pass less s opts ])
            (Agrees opts)
    go (some e) = Triple-raise (λ _. Unit {0}) (λ _. Unit {0}) _ _ (λ t p. p)
    go none = step-Yields (Agrees opts) _ _ λ snapshot. step-Yields (Agrees opts) _ _ λ objects.
        step-Yields (Agrees opts) _ _ λ refs.
          bind-Yields (λ next. Agrees opts next.report) (Agrees opts) _ _
            (cleanup_candidates-Agrees s opts (cutoff_of opts) _ _
              (new_report-Agrees opts snapshot.blobs))
            λ final h. pure-Yields (Agrees opts) _ h

-- A cleanup that ends well reports counts that agree: the eligible blobs are the deleted ones and are
-- those listed, no more objects were missing than deleted, no blob is counted twice among those
-- scanned, the bytes only shrink, and positive limits on deletions and scans are kept.
pub cleanup-Agrees :
    (less : String → String → Bool) (s : Service) (opts : CleanupOptions) (w : World)
    (r : CleanupReport)
    → (cleanup less s opts w).0 ≡ ok r
    → Agrees opts r
cleanup-Agrees less s opts w r e =
    go (cleanup less s opts w).0 _ e ((cleanup-Yields less s opts).at w tt)
  where
    go :
        (x : Result CleanupReport) (v : World)
        → x ≡ ok r
        → Ends (λ a _. Agrees opts a) (λ _. Unit {0}) x v
        → Agrees opts r
    go (ok a) v e h = let same : a ≡ r = ground arith in subst (Agrees opts) same h
    go (err x) v e h = ground arith
