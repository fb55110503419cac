-- ===== src/CacheGc/Safety.antt =====
-- The cleanup of internal/cachegc deletes no object that the references it read last protect, whatever
-- other writers do between its calls and whichever calls fail.
pub mod Deletion
pub mod Sweep
use text.Mathlib.Text.{◌==◌}
use text.Mathlib.TextEquality.{eq_iff}
use regimux.Prelude.{
  ℕ, zero, suc, ◌≡◌, refl, ◌∙◌, sym, ap, ◌⊎◌, inl, inr, Bool, true, false, not, ◌&&◌, List, [], ◌∷◌,
  Option, none, some, String, arith, subst, if◌then◌else◌,
}
use regimux.CacheGc.Records.{BlobRecord, CleanupSnapshot, contains}
use regimux.CacheGc.Classify.{
  CleanupOptions, CleanupReport, classify, candidate_eligible, record_skip,
}
use regimux.CacheGc.Outcome.{Result, ok, err}
use regimux.CacheGc.Manifest.{ObjectState, no_object, unreadable, stored}
use regimux.CacheGc.References.{ReferenceSnapshot, load_references_from_snapshot}
use regimux.CacheGc.World.{
  Shared, Action, saw, walked, deleted_object, removed_row, World, Gc, pure, raise, lift, operation,
  check_context, read_snapshot, read_objects, blob, find_blob, CandidateStat, stat_candidate,
  delete_object, ◌>>=◌,
}
use regimux.CacheGc.Rows.{
  Relation, same_blob_revision, delete_if_unchanged, delete_matching, read_row, delete_row,
}
use regimux.CacheGc.Delete.{
  Service, Pass, Check, allowed, refused, load_references, recheck, load_eligible_blob,
  confirm_eligible_blob, prune_rows, prune_references_for_digest, finish_blob_deletion,
  remove_confirmed, delete_blob,
}
use regimux.CacheGc.Triple.{
  Triple, Triple-pure, Triple-raise, Triple-lift, Triple-operation, Triple-if, Triple-fact,
  Triple-weaken, Triple-bind,
}

-- A blob that passes the check is not protected.
eligible-unprotected :
    (b : BlobRecord) (opts : CleanupOptions) (report : CleanupReport) (cutoff : ℕ)
    (protected : List String)
    → candidate_eligible opts report (classify b cutoff protected opts.prune_references) ≡ true
    → contains b.digest protected ≡ false
unfolding classify candidate_eligible
eligible-unprotected b opts report cutoff protected h = ground arith

same_blob_revision-digest : (a b : BlobRecord) → same_blob_revision a b ≡ true → b.digest ≡ a.digest
unfolding same_blob_revision
same_blob_revision-digest a b h = ground (arith, eq_iff a.digest b.digest)

abbrev Digested : String → Option BlobRecord → Type 0
Digested d none = Unit {0}
Digested d (some b) = b.digest ≡ d

find_blob-Digested : (d : String) (bs : List BlobRecord) → Digested d (find_blob d bs)
unfolding find_blob
find_blob-Digested d [] = tt
find_blob-Digested d (b ∷ bs) = ground (arith, eq_iff b.digest d, find_blob-Digested d bs)

module _ (s : Service) (opts : CleanupOptions) (cutoff : ℕ) where
  -- The references of the snapshot and the walk that stand last in the trace.
  abbrev pub LastReferences : ReferenceSnapshot → List Action → Type 0
  LastReferences refs (walked o ∷ saw snapshot ∷ t) =
      load_references_from_snapshot s.decoder s.limits o cutoff opts.prune_references snapshot
      ≡ ok refs
  LastReferences refs _ = ⊥

  -- Right before each deletion the snapshot and the objects were read, and the references that they
  -- give do not protect the digest.
  abbrev pub IsSafe : List Action → Type 0
  IsSafe [] = Unit {0}
  IsSafe (deleted_object d ∷ t) =
      ((refs : ReferenceSnapshot) × LastReferences refs t × (contains d refs.protected ≡ false))
      × IsSafe t
  IsSafe (saw _ ∷ t) = IsSafe t
  IsSafe (walked _ ∷ t) = IsSafe t
  IsSafe (removed_row ∷ t) = IsSafe t

  abbrev pub Safely : {A : Type 0} → Gc A → Type 0
  Safely m = Triple IsSafe IsSafe m (λ _ t. IsSafe t)

  -- A call that adds nothing to the trace, or no deletion of an object.
  pub quiet_operation : {A : Type 0} (f : Shared → A × Shared) → Safely (operation f (λ _ t. t))
  quiet_operation f = Triple-operation IsSafe IsSafe _ f _ (λ t p. p) (λ _ t p. (p, p))

  pub check_context-Safely : Safely check_context
  unfolding check_context
  check_context-Safely = quiet_operation _

  pub stat_candidate-Safely : (d : String) → Safely (stat_candidate d)
  unfolding stat_candidate
  stat_candidate-Safely d =
      Triple-bind IsSafe IsSafe (λ _ t. IsSafe t) _ _ _ (quiet_operation _)
        (elim [
          | no_object ↦ Triple-pure IsSafe IsSafe _ _ (λ t p. p)
          | unreadable ↦ Triple-raise IsSafe IsSafe _ _ (λ t p. p)
          | stored c ↦ Triple-pure IsSafe IsSafe _ _ (λ t p. p)
        ])

  pub load_references_lem :
      Triple IsSafe IsSafe
        (load_references s opts cutoff)
        (λ refs t. LastReferences refs t × IsSafe t)
  unfolding load_references read_snapshot read_objects
  load_references_lem =
      Triple-bind IsSafe IsSafe
        (λ snapshot t. (u : List Action) × (t ≡ saw snapshot ∷ u) × IsSafe u) _ _ _
        (Triple-operation IsSafe IsSafe _ _ _ (λ t p. p) (λ x t p. ((t, refl, p), p)))
        λ snapshot.
          Triple-bind IsSafe _
            (λ o t. (u : List Action) × (t ≡ walked o ∷ saw snapshot ∷ u) × IsSafe u) _ _ _
            (Triple-operation IsSafe _ _ _ _ (λ t (u, e, p). rw e p)
              (λ x t (u, e, p). ((u, rw e, p), rw e p)))
            λ o.
              Triple-lift IsSafe _ _ _ (λ t (u, e, p). rw e p) (λ refs t r (u, e, p). rw e (r, p))

  -- An allowed blob has the digest, which the references just read do not protect.
  abbrev pub Checked : String → Check → List Action → Type 0
  Checked d (refused report) t = IsSafe t
  Checked d (allowed b refs) t =
      (b.digest ≡ d) × (LastReferences refs t × (contains d refs.protected ≡ false) × IsSafe t)

  recheck-Checked :
      (current : BlobRecord) (report : CleanupReport)
      → Triple IsSafe IsSafe (recheck s opts cutoff current report) (Checked current.digest)
  unfolding recheck
  recheck-Checked current report =
      Triple-bind IsSafe IsSafe (λ refs t. LastReferences refs t × IsSafe t) _ _ _
        load_references_lem
        λ refs. Triple-pure IsSafe _ _ _ (λ t p.
          decided refs t p
            (candidate_eligible opts report
              (classify current cutoff refs.protected opts.prune_references))
            refl)
    where
      decided :
          (refs : ReferenceSnapshot) (t : List Action)
          → LastReferences refs t × IsSafe t
          → (e : Bool)
          → candidate_eligible opts report
              (classify current cutoff refs.protected opts.prune_references)
            ≡ e
          → Checked current.digest
              (if e
                then allowed current refs
                else refused (
                    record_skip report
                      (classify current cutoff refs.protected opts.prune_references)))
              t
      decided refs t (l, p) true e =
          (refl, (l, eligible-unprotected current opts report cutoff refs.protected e, p))
      decided refs t (l, p) false e = p

  blob-Digested :
      (d : String) → Triple IsSafe IsSafe (blob d) (λ found t. Digested d found × IsSafe t)
  unfolding blob
  blob-Digested d =
      Triple-operation IsSafe IsSafe _ _ _ (λ t p. p)
        (λ x t p. ((find_blob-Digested d x.metadata.blobs, p), p))

  pub load_eligible_blob-Checked :
      (d : String) (report : CleanupReport)
      → Triple IsSafe IsSafe (load_eligible_blob s opts cutoff d report) (Checked d)
  unfolding load_eligible_blob
  load_eligible_blob-Checked d report = Triple-bind IsSafe IsSafe _ _ _ _ (blob-Digested d) (elim [
    | none ↦ Triple-pure IsSafe _ _ _ (λ t p. p.1)
    | some b ↦ Triple-fact IsSafe (b.digest ≡ d) IsSafe _ _ λ e.
        subst (λ x. Triple IsSafe IsSafe (recheck s opts cutoff b report) (Checked x)) e
          (recheck-Checked b report)
  ])

  pub confirm_eligible_blob-Checked :
      (original : BlobRecord) (report : CleanupReport)
      → Triple IsSafe IsSafe
          (confirm_eligible_blob s opts cutoff original report)
          (Checked original.digest)
  unfolding confirm_eligible_blob
  confirm_eligible_blob-Checked original report =
      Triple-bind IsSafe IsSafe (λ _ t. IsSafe t) _ _ _ check_context-Safely
        λ _. Triple-bind IsSafe IsSafe _ _ _ _ (blob-Digested original.digest) (elim [
          | none ↦ Triple-pure IsSafe _ _ _ (λ t p. p.1)
          | some b ↦ Triple-fact IsSafe (b.digest ≡ original.digest) IsSafe _ _ λ e.
              Triple-if IsSafe IsSafe _ (same_blob_revision original b) _ _
                (λ _.
                  subst (λ x. Triple IsSafe IsSafe (recheck s opts cutoff b report) (Checked x)) e
                    (recheck-Checked b report))
                (λ _. Triple-pure IsSafe _ _ _ (λ t p. p))
        ])
