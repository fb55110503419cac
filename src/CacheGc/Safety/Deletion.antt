-- ===== src/CacheGc/Safety/Deletion.antt =====
-- Every call behind the checks of internal/cachegc/delete.go keeps the trace of a cleanup safe.
use text.Mathlib.Text.{◌==◌}
use regimux.Prelude.{
  ℕ, ◌≡◌, Bool, false, not, List, [], ◌∷◌, none, some, String, subst, if◌then◌else◌,
}
use regimux.CacheGc.Records.{BlobRecord, contains}
use regimux.CacheGc.Classify.{CleanupOptions, CleanupReport}
use regimux.CacheGc.References.{ReferenceSnapshot}
use regimux.CacheGc.World.{Action, Gc, pure, CandidateStat, delete_object, ◌>>=◌}
use regimux.CacheGc.Rows.{Relation, delete_if_unchanged, delete_matching, read_row, delete_row}
use regimux.CacheGc.Delete.{
  Service, Pass, allowed, refused, prune_rows, prune_references_for_digest, finish_blob_deletion,
  remove_confirmed, delete_blob,
}
use regimux.CacheGc.Triple.{
  Triple, Triple-pure, Triple-operation, Triple-if, Triple-fact, Triple-weaken, Triple-bind,
}
use regimux.CacheGc.Safety.{
  IsSafe as SafeTrace, LastReferences as LastRead, quiet_operation as quiet_operation_of,
  stat_candidate-Safely as stat_candidate_of, load_eligible_blob-Checked as load_eligible_of,
  confirm_eligible_blob-Checked as confirm_eligible_of,
}

module _ (s : Service) (opts : CleanupOptions) (cutoff : ℕ) where
  abbrev pub IsSafe : List Action → Type 0
  IsSafe = SafeTrace s opts cutoff

  abbrev pub LastReferences : ReferenceSnapshot → List Action → Type 0
  LastReferences = LastRead s opts cutoff

  abbrev pub Safely : {A : Type 0} → Gc A → Type 0
  Safely m = Triple IsSafe IsSafe m (λ _ t. IsSafe t)

  -- A step that adds nothing to the trace ends or begins a chain.
  pub pure-Safely : {A : Type 0} (a : A) → Safely (pure a)
  pure-Safely a = Triple-pure IsSafe IsSafe (λ _ t. IsSafe t) a (λ t p. p)

  pub bind-Safely :
      {A B : Type 0} (m : Gc A) (f : A → Gc B)
      → Safely m
      → ((a : A) → Safely (f a))
      → Safely (m >>= f)
  bind-Safely m f h k = Triple-bind IsSafe IsSafe (λ _ t. IsSafe t) (λ _ t. IsSafe t) m f h k

  delete_if_unchanged-Safely :
      {A : Type 0} (r : Relation A) (a : A) → Safely (delete_if_unchanged s.conditional r a)
  unfolding delete_if_unchanged delete_matching read_row delete_row
  delete_if_unchanged-Safely r a =
      Triple-if IsSafe IsSafe _ s.conditional _ _
        (λ _. Triple-operation IsSafe IsSafe _ _ _ (λ t p. p) (λ _ t p. (p, p)))
        (λ _. bind-Safely _ _ (quiet_operation_of s opts cutoff _) (elim [
          | none ↦ pure-Safely _
          | some current ↦
              Triple-if IsSafe IsSafe _ (r.unchanged current a) _ _
                (λ _.
                  bind-Safely _ _
                    (Triple-operation IsSafe IsSafe _ _ _ (λ t p. p) (λ _ t p. (p, p)))
                    (λ _. pure-Safely _))
                (λ _. pure-Safely _)
        ]))

  prune_rows-Safely :
      {A : Type 0} (r : Relation A) (digest_of : A → String) (d : String) (rows : List A)
      → Safely (prune_rows s opts cutoff r digest_of d rows)
  unfolding prune_rows
  prune_rows-Safely r digest_of d [] = pure-Safely _
  prune_rows-Safely r digest_of d (x ∷ xs) =
      let rest = prune_rows-Safely r digest_of d xs in
      Triple-if IsSafe IsSafe _ (digest_of x == d) _ _
        (λ _.
          bind-Safely _ _ (delete_if_unchanged-Safely r x)
            (λ deleted. Triple-if IsSafe IsSafe _ deleted _ _ (λ _. rest) (λ _. pure-Safely _)))
        (λ _. rest)

  -- A step that ends the chain with `false`, or goes on.
  unless-Safely : (b : Bool) (m : Gc Bool) → Safely m → Safely (if not b then pure false else m)
  unless-Safely b m h = Triple-if IsSafe IsSafe _ (not b) _ _ (λ _. pure-Safely _) (λ _. h)

  finish_blob_deletion-Safely :
      (d : String) (b : BlobRecord) (refs : ReferenceSnapshot)
      → Safely (finish_blob_deletion s opts cutoff d b refs)
  unfolding finish_blob_deletion prune_references_for_digest
  finish_blob_deletion-Safely d b refs =
      bind-Safely _ _
        (Triple-if IsSafe IsSafe _ opts.prune_references _ _
          (λ _. bind-Safely _ _ (prune_rows-Safely _ _ d _) λ tags. unless-Safely tags _ (
            bind-Safely _ _ (prune_rows-Safely _ _ d _)
              λ manifests. unless-Safely manifests _ (prune_rows-Safely _ _ d _)))
          (λ _. pure-Safely _))
        λ pruned. unless-Safely pruned _ (delete_if_unchanged-Safely _ b)

  remove_confirmed-Safely :
      (d : String) (b : BlobRecord) (stat : CandidateStat) (latest : BlobRecord)
      (refs : ReferenceSnapshot) (report : CleanupReport)
      → Triple IsSafe
          (λ t. LastReferences refs t × (contains d refs.protected ≡ false) × IsSafe t)
          (remove_confirmed s opts cutoff d b stat latest refs report)
          (λ _ t. IsSafe t)
  unfolding remove_confirmed delete_object
  remove_confirmed-Safely d b stat latest refs report =
      Triple-bind IsSafe _ (λ _ t. IsSafe t) _ _ _
        (Triple-operation IsSafe _ _ _ _ (λ t p. p.2)
          (λ _ t p. (((refs, p.0, p.1), p.2), ((refs, p.0, p.1), p.2))))
        λ _. bind-Safely _ _ (finish_blob_deletion-Safely d latest refs) λ deleted. pure-Safely _

  pub delete_blob-Safely : (d : String) (pass : Pass) → Safely (delete_blob s opts cutoff d pass)
  unfolding delete_blob
  delete_blob-Safely d pass =
      Triple-bind IsSafe IsSafe _ _ _ _ (load_eligible_of s opts cutoff d pass.report) (elim [
        | refused report ↦ pure-Safely _
        | allowed b refs ↦ Triple-fact IsSafe (b.digest ≡ d) _ _ _ λ e.
            Triple-weaken IsSafe IsSafe _ (λ _ t. IsSafe t) _ _ (λ t p. p.2) (λ a t q. q)
              (bind-Safely _ _ (stat_candidate_of s opts cutoff d) λ stat.
                Triple-bind IsSafe IsSafe _ _ _ _ (confirm_eligible_of s opts cutoff b pass.report)
                  (elim [
                    | refused report ↦ pure-Safely _
                    | allowed latest current ↦
                        Triple-fact IsSafe (latest.digest ≡ b.digest) _ _ _ λ _.
                          Triple-weaken IsSafe _ _ _ (λ _ t. IsSafe t) _
                            (λ t p.
                              (p.0, subst (λ x. contains x current.protected ≡ false) e p.1, p.2))
                            (λ a t q. q)
                            (remove_confirmed-Safely d b stat latest current pass.report)
                  ]))
      ])
