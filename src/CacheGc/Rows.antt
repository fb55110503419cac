-- ===== src/CacheGc/Rows.antt =====
-- Compare-and-delete of a metadata row: the fallback of internal/cachegc/delete.go reads, compares and
-- deletes in two calls, and the SQL store (internal/store/meta/sql_gc_delete.go) does it in one
-- statement. The catalog refresh behind that statement can fail late, after the row is gone.
use text.Mathlib.Text.{◌==◌}
use regimux.Prelude.{
  Bool, true, false, ◌&&◌, ◌||◌, List, [], ◌∷◌, Option, none, some, ◌==◌ as nat_eq, if◌then◌else◌,
}
use regimux.Prelude.Int.{eqb_ℤ}
use regimux.CacheGc.Records.{
  BlobRecord, ManifestRecord, TagRecord, RepoBlobRecord, CleanupSnapshot, Key, key_eq,
}
use regimux.CacheGc.References.{tag_key, manifest_key}
use regimux.CacheGc.World.{Shared, Gc, removed_row, operation, pure, ◌>>=◌, ◌>>◌}

-- A relation of the metadata store: its rows, the key of a row, and the two tests for a row that is
-- still the expected one, in the fallback and in the SQL statement.
pub record Relation (A : Type 0) : Type 0 where
  pub rows : CleanupSnapshot → List A
  pub put_rows : List A → CleanupSnapshot → CleanupSnapshot
  pub same_key : A → A → Bool
  pub unchanged : A → A → Bool
  pub matches : A → A → Bool

module _ {A : Type 0} where
  unfoldable pub find_where : (A → Bool) → List A → Option A
  find_where test [] = none
  find_where test (x ∷ xs) = if test x then some x else find_where test xs

  unfoldable pub remove_where : (A → Bool) → List A → List A
  remove_where test [] = []
  remove_where test (x ∷ xs) = let rest = remove_where test xs in if test x then rest else x ∷ rest

  unfoldable pub any_where : (A → Bool) → List A → Bool
  any_where test [] = false
  any_where test (x ∷ xs) = test x || any_where test xs

  unfoldable pub without : Relation A → (A → Bool) → Shared → Shared
  without r test s = record s {
    metadata = r.put_rows (remove_where test (r.rows s.metadata)) s.metadata;
  }

  -- One statement: it answers whether a row went.
  unfoldable pub delete_matching : Relation A → A → Gc Bool
  delete_matching r expected =
      operation
        (λ s.
          (any_where (r.matches expected) (r.rows s.metadata), without r (r.matches expected) s))
        (λ _ t. removed_row ∷ t)

  unfoldable pub read_row : Relation A → A → Gc (Option A)
  read_row r expected =
      operation (λ s. (find_where (r.same_key expected) (r.rows s.metadata), s)) (λ _ t. t)

  unfoldable pub delete_row : Relation A → A → Gc (Unit {0})
  delete_row r expected =
      operation (λ s. (tt, without r (r.same_key expected) s)) (λ _ t. removed_row ∷ t)

  -- `conditional` says whether the store is a `ConditionalGCDeleter`.
  unfoldable pub delete_if_unchanged : Bool → Relation A → A → Gc Bool
  delete_if_unchanged conditional r expected =
      if conditional
      then delete_matching r expected
      else (read_row r expected >>= λ found. elim found [
        | none ↦ pure false
        | some current ↦
            if r.unchanged current expected
            then (delete_row r expected >> pure true)
            else pure false
      ])

unfoldable pub same_blob_revision : BlobRecord → BlobRecord → Bool
same_blob_revision left right =
    left.digest == right.digest
    && eqb_ℤ left.size right.size
    && left.object_key == right.object_key
    && nat_eq left.last_access_at right.last_access_at
    && nat_eq left.updated_at right.updated_at

unfoldable pub blob_rows : Relation BlobRecord
unfolding same_blob_revision
blob_rows = record {
  rows = λ s. s.blobs;
  put_rows = λ bs s. record s { blobs = bs };
  same_key = λ a b. b.digest == a.digest;
  unchanged = same_blob_revision;
  matches = λ a b. same_blob_revision b a;
}

unfoldable pub tag_rows : Relation TagRecord
tag_rows = record {
  rows = λ s. s.tags;
  put_rows = λ ts s. record s { tags = ts };
  same_key = λ a b. key_eq (tag_key b) (tag_key a);
  unchanged = λ current expected.
      current.digest == expected.digest && nat_eq current.updated_at expected.updated_at;
  matches = λ a b.
      key_eq (tag_key b) (tag_key a)
      && b.digest == a.digest
      && nat_eq b.updated_at a.updated_at
      && nat_eq b.expires_at a.expires_at;
}

unfoldable pub manifest_rows : Relation ManifestRecord
manifest_rows = record {
  rows = λ s. s.manifests;
  put_rows = λ ms s. record s { manifests = ms };
  same_key = λ a b. key_eq (manifest_key b) (manifest_key a);
  unchanged = λ current expected.
      current.digest == expected.digest
      && current.object_key == expected.object_key
      && nat_eq current.updated_at expected.updated_at;
  matches = λ a b.
      key_eq (manifest_key b) (manifest_key a)
      && b.digest == a.digest
      && b.object_key == a.object_key
      && nat_eq b.updated_at a.updated_at;
}

abbrev link_key : RepoBlobRecord → Key
link_key r = (r.alias, r.repository, r.digest)

unfoldable pub repo_blob_rows : Relation RepoBlobRecord
repo_blob_rows = record {
  rows = λ s. s.repo_blobs;
  put_rows = λ rs s. record s { repo_blobs = rs };
  same_key = λ a b. key_eq (link_key b) (link_key a);
  unchanged = λ current expected.
      current.digest == expected.digest && nat_eq current.updated_at expected.updated_at;
  matches = λ a b.
      key_eq (link_key b) (link_key a)
      && b.digest == a.digest
      && nat_eq b.updated_at a.updated_at
      && nat_eq b.last_access_at a.last_access_at
      && nat_eq b.last_verified_at a.last_verified_at;
}
