-- ===== src/CacheGc/World.antt =====
-- The metadata and the object store as they change under internal/cachegc. Each call of a store is
-- one step, and other writers act between the steps: the list of events says what happens before
-- each call, and whether it fails, before or after it took effect. The trace records, newest first,
-- what the pass read and what it removed.
use text.Mathlib.Text.{◌==◌}
use regimux.Prelude.{
  ℕ, Bool, true, false, List, [], ◌∷◌, Option, none, some, String, length, if◌then◌else◌,
}
use regimux.CacheGc.Records.{BlobRecord, CleanupSnapshot}
use regimux.CacheGc.Outcome.{Error, Result, ok, err, store_failed, object_failed}
use regimux.CacheGc.Manifest.{ObjectState, no_object, unreadable, stored}

pub record Shared : Type 0 where
  pub metadata : CleanupSnapshot
  pub objects : String → ObjectState

pub data Event : Type 0 where
  quiet fails fails_late : Event
  external : (Shared → Shared) → Event

pub data Action : Type 0 where
  saw : CleanupSnapshot → Action
  walked : (String → ObjectState) → Action
  deleted_object : String → Action
  removed_row : Action

pub record World : Type 0 where
  pub shared : Shared
  pub events : List Event
  pub trace : List Action

pub data Timing : Type 0 where
  on_time early late : Timing

-- What happens before a call: any number of writes by others, and at most one failure.
unfoldable pub begin : List Event → Shared → Timing × Shared × List Event
begin [] s = (on_time, s, [])
begin (quiet ∷ es) s = (on_time, s, es)
begin (fails ∷ es) s = (early, s, es)
begin (fails_late ∷ es) s = (late, s, es)
begin (external f ∷ es) s = begin es (f s)

abbrev pub Gc : Type 0 → Type 0
Gc A = World → Result A × World

unfoldable pub pure : {A : Type 0} → A → Gc A
pure a w = (ok a, w)

unfoldable pub raise : {A : Type 0} → Error → Gc A
raise e w = (err e, w)

unfoldable pub lift : {A : Type 0} → Result A → Gc A
lift r w = (r, w)

abbrev pub continue : {A B : Type 0} → Result A → (A → Gc B) → Gc B
continue (ok a) f w = f a w
continue (err e) f w = (err e, w)

infixl 5 ◌>>=◌ ◌>>◌
unfoldable pub ◌>>=◌ : {A B : Type 0} → Gc A → (A → Gc B) → Gc B
unfolding pure raise lift
◌>>=◌ m f w = let (r, w') = m w in continue r f w'

abbrev pub ◌>>◌ : {B : Type 0} → Gc (Unit {0}) → Gc B → Gc B
m >> k = m >>= λ _. k

-- How a call ends that found `before` and made it `after`.
unfoldable pub conclude :
    {A : Type 0}
    → Timing
    → A
    → Shared
    → Shared
    → List Event
    → List Action
    → List Action
    → Result A × World
conclude on_time a before after es old noted =
    (ok a, record { shared = after; events = es; trace = noted })
conclude early a before after es old noted =
    (err store_failed, record { shared = before; events = es; trace = old })
conclude late a before after es old noted =
    (err store_failed, record { shared = after; events = es; trace = noted })

-- One call: what it answers, what it leaves behind, and what it adds to the trace.
unfoldable pub operation :
    {A : Type 0} → (Shared → A × Shared) → (A → List Action → List Action) → Gc A
unfolding begin conclude
operation f note w =
    let (timing, s, es) = begin w.events w.shared in
    let (a, after) = f s in conclude timing a s after es w.trace (note a w.trace)

-- `ctx.Err()`: it fails once the caller has given up.
unfoldable pub check_context : Gc (Unit {0})
check_context = operation (λ s. (tt, s)) (λ _ t. t)

-- `meta.ReadCleanupSnapshot`.
unfoldable pub read_snapshot : Gc CleanupSnapshot
read_snapshot = operation (λ s. (s.metadata, s)) (λ s t. saw s ∷ t)

-- The objects as the walk over the manifests reads them.
unfoldable pub read_objects : Gc (String → ObjectState)
read_objects = operation (λ s. (s.objects, s)) (λ o t. walked o ∷ t)

unfoldable pub find_blob : String → List BlobRecord → Option BlobRecord
find_blob digest [] = none
find_blob digest (b ∷ bs) = if b.digest == digest then some b else find_blob digest bs

-- `metadata.Blob`.
unfoldable pub blob : String → Gc (Option BlobRecord)
blob digest = operation (λ s. (find_blob digest s.metadata.blobs, s)) (λ _ t. t)

pub record CandidateStat : Type 0 where
  pub size : ℕ
  pub missing : Bool

-- `statCandidate`: a missing object is no error.
unfoldable pub stat_candidate : String → Gc CandidateStat
stat_candidate digest = operation (λ s. (s.objects digest, s)) (λ _ t. t) >>= λ o. elim o [
  | no_object ↦ pure (record { size = 0; missing = true })
  | unreadable ↦ raise object_failed
  | stored content ↦ pure (record { size = length content; missing = false })
]

-- `objects.Delete`.
unfoldable pub delete_object : String → Gc (Unit {0})
delete_object digest =
    operation
      (λ s. (tt, record s { objects = λ k. if k == digest then no_object else s.objects k }))
      (λ _ t. deleted_object digest ∷ t)
