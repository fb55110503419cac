-- ===== src/CacheGc/Records.antt =====
-- Rows of internal/store/meta/store.go that cleanup reads, with the fields that it reads. A time is a
-- number of nanoseconds, and 0 is Go's zero time. Names hold no NUL byte, so a key that the source
-- joins by NUL or by a separator is the tuple of its parts.
use text.Mathlib.Text.{◌==◌ as str_eq}
use regimux.Prelude.{ℕ, Bool, false, ◌&&◌, ◌||◌, List, [], ◌∷◌, String, ◌==◌, ltb, if◌then◌else◌}
use regimux.Prelude.Int.{ℤ}

pub record BlobRecord : Type 0 where
  pub digest : String
  pub size : ℤ
  pub object_key : String
  pub created_at : ℕ
  pub updated_at : ℕ
  pub last_access_at : ℕ

pub record ManifestRecord : Type 0 where
  pub alias : String
  pub repository : String
  pub digest : String
  pub media_type : String
  pub size : ℤ
  pub object_key : String
  pub created_at : ℕ
  pub updated_at : ℕ

pub record TagRecord : Type 0 where
  pub alias : String
  pub repository : String
  pub reference : String
  pub digest : String
  pub expires_at : ℕ
  pub created_at : ℕ
  pub updated_at : ℕ

pub record RepoBlobRecord : Type 0 where
  pub alias : String
  pub repository : String
  pub digest : String
  pub created_at : ℕ
  pub updated_at : ℕ
  pub last_access_at : ℕ
  pub last_verified_at : ℕ

pub record PullRecord : Type 0 where
  pub alias : String
  pub repository : String
  pub reference : String
  pub last_pull_at : ℕ
  pub created_at : ℕ
  pub updated_at : ℕ

pub record CleanupSnapshot : Type 0 where
  pub manifests : List ManifestRecord
  pub tags : List TagRecord
  pub blobs : List BlobRecord
  pub repo_blobs : List RepoBlobRecord
  pub pulls : List PullRecord

abbrev pub Key : Type 0
Key = String × String × String

abbrev pub key_eq : Key → Key → Bool
key_eq (a, b, c) (x, y, z) = str_eq a x && str_eq b y && str_eq c z

-- A set of strings, and of keys; `Contains`.
unfoldable pub contains : String → List String → Bool
contains d [] = false
contains d (x ∷ xs) = str_eq x d || contains d xs

unfoldable pub contains_key : Key → List Key → Bool
contains_key k [] = false
contains_key k (x ∷ xs) = key_eq x k || contains_key k xs

-- `values.Add`: an element that is there already is not added again.
unfoldable pub insert : String → List String → List String
insert d xs = if contains d xs then xs else d ∷ xs

abbrev pub is_zero : ℕ → Bool
is_zero t = t == 0

-- `left.After(right)` is `after left right`.
abbrev pub after : ℕ → ℕ → Bool
after a b = ltb b a

abbrev pub before : ℕ → ℕ → Bool
before a b = ltb a b
