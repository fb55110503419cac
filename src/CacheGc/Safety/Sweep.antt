-- ===== src/CacheGc/Safety/Sweep.antt =====
-- A whole cleanup of internal/cachegc keeps its trace safe, and a dry run removes nothing.
use regimux.Prelude.{
  sym, ℕ, ◌≡◌, refl, Bool, true, false, not, List, [], ◌∷◌, Option, none, some, String,
}
use regimux.CacheGc.Records.{BlobRecord}
use regimux.CacheGc.Classify.{
  CleanupOptions, CleanupReport, cutoff_of, validate_options, OptionError, limit_reached, selected,
  candidate_eligible, classify,
}
use regimux.CacheGc.Outcome.{Result, ok, err, invalid_options}
use regimux.CacheGc.World.{Action, World, Gc, pure, raise, read_snapshot, read_objects}
use regimux.CacheGc.Delete.{Service, Pass}
use regimux.CacheGc.Cleanup.{
  process_eligible_candidate, cleanup_blob_candidate, cleanup_candidates, run_pass, cleanup,
}
use regimux.CacheGc.Triple.{Ends, Triple, Triple-raise, Triple-lift, Triple-operation, Triple-if}
use regimux.CacheGc.Safety.{IsSafe as SafeTrace, check_context-Safely as check_context_of}
use regimux.CacheGc.Safety.Deletion.{
  pure-Safely as pure_of, bind-Safely as bind_of, delete_blob-Safely as delete_blob_of,
}

module _ (s : Service) (opts : CleanupOptions) (cutoff : ℕ) where
  abbrev IsSafe : List Action → Type 0
  IsSafe = SafeTrace s opts cutoff

  abbrev Safely : {A : Type 0} → Gc A → Type 0
  Safely m = Triple IsSafe IsSafe m (λ _ t. IsSafe t)

  process_eligible_candidate-Safely :
      (b : BlobRecord) (pass : Pass) → Safely (process_eligible_candidate s opts cutoff b pass)
  unfolding process_eligible_candidate
  process_eligible_candidate-Safely b pass =
      Triple-if IsSafe IsSafe _ (limit_reached opts.max_deletes pass.report.deleted_blobs) _ _
        (λ _. pure_of s opts cutoff _)
        (λ _.
          Triple-if IsSafe IsSafe _ opts.dry_run _ _ (λ _. pure_of s opts cutoff _)
            (λ _.
              bind_of s opts cutoff _ _ (delete_blob_of s opts cutoff b.digest _)
                λ (deleted, next). pure_of s opts cutoff _))

  cleanup_blob_candidate-Safely :
      (b : BlobRecord) (pass : Pass) → Safely (cleanup_blob_candidate s opts cutoff b pass)
  unfolding cleanup_blob_candidate
  cleanup_blob_candidate-Safely b pass =
      Triple-if IsSafe IsSafe _ (limit_reached opts.max_scan pass.report.scanned_blobs) _ _
        (λ _. pure_of s opts cutoff _)
        (λ _. bind_of s opts cutoff _ _ (check_context_of s opts cutoff) λ _.
          Triple-if IsSafe IsSafe _
            (not (
              candidate_eligible opts _
                (classify b cutoff pass.refs.protected opts.prune_references)))
            _ _ (λ _. pure_of s opts cutoff _) (λ _. process_eligible_candidate-Safely b _))

  cleanup_candidates-Safely :
      (bs : List BlobRecord) (pass : Pass) → Safely (cleanup_candidates s opts cutoff bs pass)
  unfolding cleanup_candidates
  cleanup_candidates-Safely [] pass = pure_of s opts cutoff pass
  cleanup_candidates-Safely (b ∷ bs) pass =
      let rest = cleanup_candidates-Safely bs in
      Triple-if IsSafe IsSafe _ (not (selected opts.candidates b.digest)) _ _ (λ _. rest pass)
        (λ _.
          bind_of s opts cutoff _ _ (cleanup_blob_candidate-Safely b pass)
            λ (stop, next). go stop next (rest next))
    where
      go :
          (stop : Bool) (next : Pass)
          → Safely (cleanup_candidates s opts cutoff bs next)
          → Safely (elim stop as (λ _. Gc Pass) [
            | true ↦ pure next
            | false ↦ cleanup_candidates s opts cutoff bs next
          ])
      go true next h = pure_of s opts cutoff next
      go false next h = h

  -- Where the limits are empty or not, the pass behind the snapshot.
  run_pass-Safely :
      (less : String → String → Bool) → cutoff ≡ cutoff_of opts → Safely (run_pass less s opts)
  unfolding run_pass read_snapshot read_objects
  run_pass-Safely less e = rw (sym e) (
      bind_of s opts cutoff _ _ (Triple-operation IsSafe IsSafe _ _ _ (λ t p. p) (λ _ t p. (p, p)))
        λ snapshot.
          bind_of s opts cutoff _ _
            (Triple-operation IsSafe IsSafe _ _ _ (λ t p. p) (λ _ t p. (p, p)))
            λ objects.
              bind_of s opts cutoff _ _ (Triple-lift IsSafe IsSafe _ _ (λ t p. p) (λ _ t _ p. p))
                λ refs.
                  bind_of s opts cutoff _ _ (cleanup_candidates-Safely _ _)
                    λ final. pure_of s opts cutoff _)

cleanup-Safely :
    (less : String → String → Bool) (s : Service) (opts : CleanupOptions)
    → Safely s opts (cutoff_of opts) (cleanup less s opts)
unfolding cleanup
cleanup-Safely less s opts =
    bind_of s opts (cutoff_of opts) _ _ (check_context_of s opts (cutoff_of opts))
      λ _. go (validate_options opts)
  where
    go :
        (r : Option OptionError)
        → Safely s opts
            (cutoff_of opts)
            (elim r [ some e ↦ raise invalid_options | none ↦ run_pass less s opts ])
    go (some e) =
        Triple-raise (SafeTrace s opts (cutoff_of opts)) (SafeTrace s opts (cutoff_of opts)) _ _
          (λ t p. p)
    go none = run_pass-Safely s opts (cutoff_of opts) less refl

-- Whatever other writers do between the calls, and whichever calls fail: directly before each object
-- that a cleanup deletes, it has read the snapshot and the objects, and the references that these
-- give (the roots of the cutoff and the mode of the pass, closed under the manifests) do not protect
-- the digest.
pub cleanup_safe :
    (less : String → String → Bool) (s : Service) (opts : CleanupOptions) (w : World)
    → SafeTrace s opts (cutoff_of opts) w.trace
    → SafeTrace s opts (cutoff_of opts) (cleanup less s opts w).1.trace
cleanup_safe less s opts w p =
    go (cleanup less s opts w).0 (cleanup less s opts w).1 ((cleanup-Safely less s opts).at w p)
  where
    go :
        (r : Result CleanupReport) (v : World)
        → Ends (λ _ t. SafeTrace s opts (cutoff_of opts) t) (SafeTrace s opts (cutoff_of opts)) r v
        → SafeTrace s opts (cutoff_of opts) v.trace
    go (ok a) v h = h
    go (err e) v h = h
