-- ===== src/DiskCache.antt =====
-- internal/store/object: the capacity of the local cache of objects (disk_cache_capacity.go,
-- disk_cache_publish.go, disk_cache_fill.go, and the parts of disk_cache_flight_producer.go,
-- disk_cache_shared.go, disk_cache_read.go and disk_cache_index.go that change it). Each call runs
-- under the lock.
pub mod Fills
pub mod Rows
pub mod Room
pub mod Bounds
pub mod Examples
use regimux.Prelude.{
  ℕ, zero, suc, ◌+◌, ◌-◌, ◌≡◌, ◌==◌, Bool, true, false, ◌&&◌, ◌||◌, not, List, [], ◌∷◌, ◌++◌,
  Option, none, some, ltb, leb, length, if◌then◌else◌,
}
use regimux.Prelude.Bytes.{Bytes, bytes_eq}

pub record DiskCacheEntry : Type 0 where
  pub digest : Bytes
  pub size : ℕ
  pub pins : ℕ
  pub evict_pending : Bool

-- A fill that has no space yet reserves nothing.
pub record DiskCacheFill : Type 0 where
  pub digest : Bytes
  pub reserve : ℕ
  pub prepared : Bool

-- `entries` stands for the map of entries and for the list of the least recently used ones, which
-- hold the same: oldest first, one for each digest.
pub record DiskCacheStore : Type 0 where
  pub max_bytes : ℕ
  pub max_entries : ℕ
  pub entries : List DiskCacheEntry
  pub fills : List DiskCacheFill
  pub bytes : ℕ
  pub reserved : ℕ
  pub orphaned_bytes : ℕ
  pub disk_fill_disabled : Bool

-- The loop of `oldestUnpinnedEntryLocked`: a pinned entry becomes the latest one.
unfoldable pub oldest_unpinned_entry :
    ℕ → List DiskCacheEntry → List DiskCacheEntry × Option DiskCacheEntry
oldest_unpinned_entry zero es = (es, none)
oldest_unpinned_entry (suc attempts) [] = ([], none)
oldest_unpinned_entry (suc attempts) (e ∷ es) =
    let rest = oldest_unpinned_entry attempts (es ++ e ∷ []) in
    if e.pins == 0 then (e ∷ es, some e) else rest

unfoldable pub delete : Bytes → List DiskCacheEntry → List DiskCacheEntry
delete digest [] = []
delete digest (e ∷ es) =
    let rest = delete digest es in if bytes_eq e.digest digest then es else e ∷ rest

unfoldable pub mark_pending : Bytes → List DiskCacheEntry → List DiskCacheEntry
mark_pending digest [] = []
mark_pending digest (e ∷ es) =
    let rest = mark_pending digest es in
    if bytes_eq e.digest digest then record e { evict_pending = true } ∷ es else e ∷ rest

-- The flag says whether the two files could be removed; the answer is false on an error.
unfoldable pub remove_entry : Bool → DiskCacheEntry → DiskCacheStore → DiskCacheStore × Bool
unfolding delete mark_pending
remove_entry files_removed e s =
    let pending = record s { entries = mark_pending e.digest s.entries } in
    if ltb 0 e.pins
    then (pending, true)
    else if files_removed
    then (record s { entries = delete e.digest s.entries; bytes = s.bytes - e.size }, true)
    else (pending, false)

unfoldable pub over : ℕ → Bool → DiskCacheStore → Bool
over size has_fill_slot s =
    ltb s.max_bytes (s.bytes + s.reserved + s.orphaned_bytes + size)
    || ltb s.max_entries (length s.entries + length s.fills + (if has_fill_slot then 0 else 1))

-- The loop of `makeRoomLockedWithFillSlot`; `files_removed i` says whether the files of the `i`th
-- candidate could be removed. `none` stands for a loop that is not over when the fuel is.
unfoldable pub make_room :
    ℕ → ℕ → Bool → (ℕ → Bool) → ℕ → DiskCacheStore → Option (DiskCacheStore × Bool)
unfolding over oldest_unpinned_entry remove_entry
make_room zero size has_fill_slot files_removed i s = none
make_room (suc fuel) size has_fill_slot files_removed i s =
    let (es, candidate) = oldest_unpinned_entry (length s.entries) s.entries in
    let turned = record s { entries = es } in
    if over size has_fill_slot s
    then elim candidate [
      | none ↦ some (turned, false)
      | some e ↦
          let (after, removed) = remove_entry (files_removed i) e turned in
          let rest = make_room fuel size has_fill_slot files_removed (suc i) after in
          if removed then rest else some (after, false)
    ]
    else some (s, true)
