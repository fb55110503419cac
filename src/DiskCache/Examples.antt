-- ===== src/DiskCache/Examples.antt =====
-- The local cache of internal/store/object at concrete entries.
use regimux.Prelude.{ℕ, true, false, List, [], ◌∷◌, ◌+◌, ◌≡◌, refl, some, arith, length, suc}
use regimux.Prelude.Bytes.{Bytes, bytes_eq}
use regimux.DiskCache.{
  DiskCacheEntry, DiskCacheStore, make_room, over, oldest_unpinned_entry, remove_entry, delete,
  mark_pending,
}
use regimux.DiskCache.Fills.{
  join, prepare, find_fill, find_entry, drop_fill, publish_fill, persist_metadata, end_fill,
  add_entry, open_pinned, release_entry, abort_fill, change_entry, promote,
}
use regimux.DiskCache.Room.{Made, make_room-fits}
use regimux.DiskCache.Bounds.{IsWithin}
use regimux.DiskCache.Bounds.Histories.{
  Call, joined, made_ready, finished, opened, let_go, aborted, effects, effects-IsWithin,
}

abbrev digest : ℕ → Bytes
digest n = n ∷ []

abbrev entry : ℕ → ℕ → DiskCacheEntry
entry n pins = record { digest = digest n; size = 4; pins = pins; evict_pending = false }

-- A pinned entry and two that are not.
abbrev full : DiskCacheStore
full = record {
  max_bytes = 12;
  max_entries = 3;
  entries = entry 1 1 ∷ entry 2 0 ∷ entry 3 0 ∷ [];
  fills = [];
  bytes = 12;
  reserved = 0;
  orphaned_bytes = 0;
  disk_fill_disabled = false;
}

make_room-fits_example :
    Made 4 false (λ i. true) full (make_room (suc (length full.entries)) 4 false (λ i. true) 0 full)
make_room-fits_example = make_room-fits 4 false (λ i. true) full refl

-- A miss fills the cache, a temporary file of metadata stays behind, and a reader holds the entry for
-- a while.
abbrev calls : List Call
calls =
    joined (digest 9) 2
    ∷ made_ready (digest 9) 5 true true (λ i. true)
    ∷ finished (digest 9) true true true true true (some 4) true
    ∷ opened (digest 9) true true true
    ∷ let_go (digest 9) true false
    ∷ aborted (digest 9) false
    ∷ []

-- One byte more than the limit, and fills are disabled.
bytes_over_limit :
    let t = effects calls full in
    (t.bytes + t.reserved + t.orphaned_bytes ≡ 13) × (t.disk_fill_disabled ≡ true)
unfolding join prepare find_fill find_entry drop_fill make_room over oldest_unpinned_entry
    remove_entry delete mark_pending publish_fill persist_metadata end_fill add_entry open_pinned
    release_entry abort_fill change_entry promote bytes_eq
bytes_over_limit = (refl, refl)

effects-IsWithin_example : IsWithin 4 (effects calls full)
effects-IsWithin_example = effects-IsWithin calls 0 full (refl, refl, omega arith, omega arith, tt)
