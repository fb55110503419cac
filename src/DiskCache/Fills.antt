-- ===== src/DiskCache/Fills.antt =====
-- The calls that change what internal/store/object counts for its local cache, and histories of them:
-- disk_cache_shared.go, disk_cache_flight_producer.go, disk_cache_publish.go, disk_cache_fill.go,
-- disk_cache_read.go, disk_cache_index.go and `releaseEntry` of disk_cache_capacity.go. The flags
-- say how the calls on files and the tests on the fill's readers and key token come out.
use regimux.Prelude.{
  ℕ, suc, ◌+◌, ◌-◌, ◌==◌, Bool, true, false, ◌&&◌, ◌||◌, not, List, [], ◌∷◌, ◌++◌, Option, none,
  some, leb, length, if◌then◌else◌,
}
use regimux.Prelude.Bytes.{Bytes, bytes_eq}
use regimux.DiskCache.{
  DiskCacheEntry, DiskCacheFill, DiskCacheStore, delete, mark_pending, remove_entry, make_room,
}

unfoldable pub find_fill : Bytes → List DiskCacheFill → Option DiskCacheFill
find_fill digest [] = none
find_fill digest (f ∷ fs) =
    let rest = find_fill digest fs in if bytes_eq f.digest digest then some f else rest

unfoldable pub drop_fill : Bytes → List DiskCacheFill → List DiskCacheFill
drop_fill digest [] = []
drop_fill digest (f ∷ fs) =
    let rest = drop_fill digest fs in if bytes_eq f.digest digest then fs else f ∷ rest

unfoldable pub find_entry : Bytes → List DiskCacheEntry → Option DiskCacheEntry
find_entry digest [] = none
find_entry digest (e ∷ es) =
    let rest = find_entry digest es in if bytes_eq e.digest digest then some e else rest

-- The change of the entry behind the pointer.
unfoldable pub change_entry :
    Bytes → (DiskCacheEntry → DiskCacheEntry) → List DiskCacheEntry → List DiskCacheEntry
change_entry digest change [] = []
change_entry digest change (e ∷ es) =
    let rest = change_entry digest change es in
    if bytes_eq e.digest digest then change e ∷ es else e ∷ rest

-- `joinDiskCacheFlight` where no fill of the digest runs; otherwise it changes nothing here.
unfoldable pub join : Bytes → ℕ → DiskCacheStore → DiskCacheStore
unfolding find_fill find_entry
join digest max_concurrent_fills s =
    let started = record s {
      fills = record { digest = digest; reserve = 0; prepared = false } ∷ s.fills;
    } in
    elim (find_fill digest s.fills) [
      | some f ↦ s
      | none ↦ elim (find_entry digest s.entries) [
        | some e ↦ s
        | none ↦
            if s.disk_fill_disabled || leb max_concurrent_fills (length s.fills) then s else started
      ]
    ]

-- `prepareDiskCacheFlight`, once for each fill: `usable` is its test of the fill, and `stream_made`
-- says that the stream for the size could be made.
unfoldable pub prepare : Bytes → ℕ → Bool → Bool → (ℕ → Bool) → DiskCacheStore → DiskCacheStore
unfolding find_fill drop_fill
prepare digest size usable stream_made files_removed s = elim (find_fill digest s.fills) [
  | none ↦ s
  | some f ↦
      if f.prepared || not usable
      then s
      else elim (make_room (suc (length s.entries)) size true files_removed 0 s) [
        | none ↦ s
        | some (t, made) ↦
            if made && stream_made
            then record t {
              fills =
                  record { digest = digest; reserve = size; prepared = true }
                  ∷ drop_fill digest t.fills;
              reserved = t.reserved + size;
            }
            else t
      ]
]

unfoldable pub end_fill : Bytes → DiskCacheStore → DiskCacheStore
unfolding find_fill drop_fill
end_fill digest s = elim (find_fill digest s.fills) [
  | none ↦ s
  | some f ↦ record s { fills = drop_fill digest s.fills; reserved = s.reserved - f.reserve }
]

unfoldable pub abort_fill : Bytes → Bool → DiskCacheStore → DiskCacheStore
unfolding find_fill drop_fill
abort_fill digest cleaned s = elim (find_fill digest s.fills) [
  | none ↦ s
  | some f ↦ record s {
    fills = drop_fill digest s.fills;
    reserved = s.reserved - f.reserve;
    orphaned_bytes = if cleaned then s.orphaned_bytes else s.orphaned_bytes + f.reserve;
    disk_fill_disabled = s.disk_fill_disabled || not cleaned;
  }
]

-- The entry of a fill becomes the latest one.
unfoldable pub add_entry : DiskCacheFill → Bool → DiskCacheStore → DiskCacheStore
add_entry f evict_pending s = record s {
  entries =
      s.entries
      ++ record { digest = f.digest; size = f.reserve; pins = 0; evict_pending = evict_pending }
        ∷ [];
  bytes = s.bytes + f.reserve;
}

unfoldable pub track_unpublished : DiskCacheFill → DiskCacheStore → DiskCacheStore
unfolding find_entry add_entry
track_unpublished f s = elim (find_entry f.digest s.entries) [
  | some e ↦ s
  | none ↦ add_entry f true s
]

-- The length of the temporary file of metadata that is left where there is one.
abbrev pub left_bytes : Option ℕ → ℕ
left_bytes none = 0
left_bytes (some size) = size

abbrev pub is_left : Option ℕ → Bool
is_left none = false
is_left (some size) = true

-- What `persistMetadataLocked` leaves behind: `left` is the length of its temporary file where that
-- was made and could not be removed.
unfoldable pub persist_metadata : Option ℕ → DiskCacheStore → DiskCacheStore
persist_metadata left s = record s {
  orphaned_bytes = s.orphaned_bytes + left_bytes left;
  disk_fill_disabled = s.disk_fill_disabled || is_left left;
}

-- `publishFill` of a fill that is prepared. `publishable` is the first test; `temp_removed`, `renamed`,
-- `described` (the state of the body), `written` and `left` (the metadata) and `body_removed` are
-- the calls on files. Under the lock the test of `registerPublishedFillLocked` comes out as the
-- first one did.
unfoldable pub publish_fill :
    Bytes
    → (publishable temp_removed renamed described written : Bool) → Option ℕ
    → (body_removed : Bool) → DiskCacheStore
    → DiskCacheStore
unfolding find_fill end_fill track_unpublished add_entry persist_metadata
publish_fill digest publishable temp_removed renamed described written left body_removed s =
    let persisted = persist_metadata left s in
    elim (find_fill digest s.fills) [
      | none ↦ s
      | some f ↦
          if not f.prepared
          then s
          else if not publishable
          then (if temp_removed then end_fill digest s else s)
          else if not renamed
          then s
          else if not described
          then end_fill digest (if body_removed then s else track_unpublished f s)
          else if written
          then end_fill digest (add_entry f false persisted)
          else end_fill digest (if body_removed then persisted else track_unpublished f persisted)
    ]

-- `releaseEntry` of the entry that is in the map; `files_removed` and `lock_released` as in `remove_entry`.
unfoldable pub release_entry : Bytes → Bool → Bool → DiskCacheStore → DiskCacheStore
unfolding change_entry find_entry
release_entry digest files_removed lock_released s =
    let unpinned = record s {
      entries = change_entry digest (λ e. record e { pins = e.pins - 1 }) s.entries;
    } in
    elim (find_entry digest unpinned.entries) [
      | none ↦ s
      | some e ↦
          if e.pins == 0 && e.evict_pending && not lock_released
          then (remove_entry files_removed e unpinned).0
          else unpinned
    ]

-- `markEntryExpiredLocked`, which is also what a mutation of the digest does to its entry.
unfoldable pub expire : Bytes → Bool → DiskCacheStore → DiskCacheStore
unfolding mark_pending find_entry
expire digest files_removed s =
    let marked = record s { entries = mark_pending digest s.entries } in
    elim (find_entry digest marked.entries) [
      | none ↦ s
      | some e ↦ if e.pins == 0 then (remove_entry files_removed e marked).0 else marked
    ]

-- `lru.Get` makes the entry the latest one.
unfoldable pub promote : Bytes → List DiskCacheEntry → List DiskCacheEntry
unfolding find_entry
promote digest es = elim (find_entry digest es) [ none ↦ es | some e ↦ delete digest es ++ e ∷ [] ]

-- `openPinnedCachedFileLocked` of an open cache: `fresh` says that the time to live is not over, and
-- `verified` that the body is the file that was written.
unfoldable pub open_pinned :
    Bytes → (fresh verified files_removed : Bool) → DiskCacheStore → DiskCacheStore
unfolding find_entry promote change_entry expire
open_pinned digest fresh verified files_removed s =
    let promoted = record s { entries = promote digest s.entries } in
    elim (find_entry digest s.entries) [
      | none ↦ s
      | some e ↦
          if e.evict_pending
          then s
          else if fresh && verified
          then record s {
            entries = change_entry digest (λ e. record e { pins = suc e.pins }) promoted.entries;
          }
          else expire digest files_removed promoted
    ]
