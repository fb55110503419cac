-- ===== src/CacheGc/DryRun.antt =====
-- A cleanup of internal/cachegc under `DryRun` removes neither objects nor rows.
use regimux.Prelude.{
  ℕ, suc, ◌≡◌, refl, Bool, true, false, not, List, [], ◌∷◌, Option, none, some, String,
}
use regimux.CacheGc.Records.{BlobRecord}
use regimux.CacheGc.Classify.{
  CleanupOptions, CleanupReport, OptionError, validate_options, cutoff_of, classify,
  candidate_eligible, limit_reached, selected,
}
use regimux.CacheGc.Outcome.{Result, ok, err, invalid_options}
use regimux.CacheGc.World.{
  Action, saw, walked, deleted_object, removed_row, World, Gc, pure, raise, check_context,
  read_snapshot, read_objects, ◌>>=◌,
}
use regimux.CacheGc.Delete.{Service, Pass}
use regimux.CacheGc.Cleanup.{
  process_eligible_candidate, cleanup_blob_candidate, cleanup_candidates, run_pass, cleanup,
}
use regimux.CacheGc.Triple.{
  Ends, Triple, Triple-pure, Triple-raise, Triple-lift, Triple-operation, Triple-if, Triple-bind,
}

-- The removals that a trace shows.
abbrev pub removals : List Action → ℕ
removals [] = 0
removals (saw _ ∷ t) = removals t
removals (walked _ ∷ t) = removals t
removals (deleted_object _ ∷ t) = suc (removals t)
removals (removed_row ∷ t) = suc (removals t)

module _ (n : ℕ) where
  abbrev Shows : List Action → Type 0
  Shows t = removals t ≡ n

  abbrev Reads : {A : Type 0} → Gc A → Type 0
  Reads m = Triple Shows Shows m (λ _ t. Shows t)

  pure-Reads : {A : Type 0} (a : A) → Reads (pure a)
  pure-Reads a = Triple-pure Shows Shows (λ _ t. Shows t) a (λ t p. p)

  bind-Reads :
      {A B : Type 0} (m : Gc A) (f : A → Gc B) → Reads m → ((a : A) → Reads (f a)) → Reads (m >>= f)
  bind-Reads m f h k = Triple-bind Shows Shows (λ _ t. Shows t) (λ _ t. Shows t) m f h k

  check_context-Reads : Reads check_context
  unfolding check_context
  check_context-Reads = Triple-operation Shows Shows _ _ _ (λ t p. p) (λ _ t p. (p, p))

  module _ (s : Service) (opts : CleanupOptions) (cutoff : ℕ) (dry : opts.dry_run ≡ true) where
    process_eligible_candidate-Reads :
        (b : BlobRecord) (pass : Pass) → Reads (process_eligible_candidate s opts cutoff b pass)
    unfolding process_eligible_candidate
    process_eligible_candidate-Reads b pass =
        Triple-if Shows Shows _ (limit_reached opts.max_deletes pass.report.deleted_blobs) _ _
          (λ _. pure-Reads _) (λ _. rw dry (pure-Reads _))

    cleanup_blob_candidate-Reads :
        (b : BlobRecord) (pass : Pass) → Reads (cleanup_blob_candidate s opts cutoff b pass)
    unfolding cleanup_blob_candidate
    cleanup_blob_candidate-Reads b pass =
        Triple-if Shows Shows _ (limit_reached opts.max_scan pass.report.scanned_blobs) _ _
          (λ _. pure-Reads _)
          (λ _. bind-Reads _ _ check_context-Reads λ _.
            Triple-if Shows Shows _
              (not (
                candidate_eligible opts _
                  (classify b cutoff pass.refs.protected opts.prune_references)))
              _ _ (λ _. pure-Reads _) (λ _. process_eligible_candidate-Reads b _))

    cleanup_candidates-Reads :
        (bs : List BlobRecord) (pass : Pass) → Reads (cleanup_candidates s opts cutoff bs pass)
    unfolding cleanup_candidates
    cleanup_candidates-Reads [] pass = pure-Reads pass
    cleanup_candidates-Reads (b ∷ bs) pass =
        let rest = cleanup_candidates-Reads bs in
        Triple-if Shows Shows _ (not (selected opts.candidates b.digest)) _ _ (λ _. rest pass)
          (λ _.
            bind-Reads _ _ (cleanup_blob_candidate-Reads b pass)
              λ (stop, next). go stop next (rest next))
      where
        go :
            (stop : Bool) (next : Pass)
            → Reads (cleanup_candidates s opts cutoff bs next)
            → Reads (elim stop as (λ _. Gc Pass) [
              | true ↦ pure next
              | false ↦ cleanup_candidates s opts cutoff bs next
            ])
        go true next h = pure-Reads next
        go false next h = h

  cleanup-Reads :
      (less : String → String → Bool) (s : Service) (opts : CleanupOptions)
      → opts.dry_run ≡ true
      → Reads (cleanup less s opts)
  unfolding cleanup run_pass read_snapshot read_objects
  cleanup-Reads less s opts dry = bind-Reads _ _ check_context-Reads λ _. go (validate_options opts)
    where
      go :
          (r : Option OptionError)
          → Reads (elim r [ some e ↦ raise invalid_options | none ↦ run_pass less s opts ])
      go (some e) = Triple-raise Shows Shows _ _ (λ t p. p)
      go none =
          bind-Reads _ _ (Triple-operation Shows Shows _ _ _ (λ t p. p) (λ _ t p. (p, p)))
            λ snapshot.
              bind-Reads _ _ (Triple-operation Shows Shows _ _ _ (λ t p. p) (λ _ t p. (p, p)))
                λ objects.
                  bind-Reads _ _ (Triple-lift Shows Shows _ _ (λ t p. p) (λ _ t _ p. p)) λ refs.
                    bind-Reads _ _ (cleanup_candidates-Reads s opts (cutoff_of opts) dry _ _)
                      λ final. pure-Reads _

-- A dry run removes nothing: whether it ends well or fails, and whatever happens between its calls,
-- the trace shows as many removals after it as before.
pub cleanup_dry_run :
    (less : String → String → Bool) (s : Service) (opts : CleanupOptions) (w : World)
    → opts.dry_run ≡ true
    → removals (cleanup less s opts w).1.trace ≡ removals w.trace
cleanup_dry_run less s opts w dry =
    go (cleanup less s opts w).0 (cleanup less s opts w).1
      ((cleanup-Reads (removals w.trace) less s opts dry).at w refl)
  where
    go :
        (r : Result CleanupReport) (v : World)
        → Ends (λ _ t. Shows (removals w.trace) t) (Shows (removals w.trace)) r v
        → Shows (removals w.trace) v.trace
    go (ok a) v h = h
    go (err e) v h = h
