-- ===== src/DiskCache/Bounds/Histories.antt =====
-- Histories of the calls on the local cache of internal/store/object.
use regimux.Prelude.{ℕ, ◌+◌, subst, Bool, List, [], ◌∷◌, Option, arith}
use regimux.Prelude.Bytes.{Bytes}
use regimux.DiskCache.{DiskCacheStore}
use regimux.DiskCache.Fills.{
  join, prepare, abort_fill, left_bytes, persist_metadata, publish_fill, release_entry, expire,
  open_pinned,
}
use regimux.DiskCache.Bounds.{IsWithin}
use regimux.DiskCache.Bounds.Entries.{expire-IsWithin, open_pinned-IsWithin, release_entry-IsWithin}
use regimux.DiskCache.Bounds.Fills.{
  abort_fill-IsWithin, join-IsWithin, prepare-IsWithin, publish_fill-IsWithin,
}

-- The calls, with what they are told by the files and the other parts.
pub data Call : Type 0 where
  joined : (digest : Bytes) (max_concurrent_fills : ℕ) → Call
  made_ready :
      (digest : Bytes) (size : ℕ) (usable stream_made : Bool) (files_removed : ℕ → Bool) → Call
  finished :
      (digest : Bytes) (publishable temp_removed renamed described written : Bool) (left : Option ℕ)
      (body_removed : Bool)
      → Call
  aborted : (digest : Bytes) (cleaned : Bool) → Call
  opened : (digest : Bytes) (fresh verified files_removed : Bool) → Call
  let_go : (digest : Bytes) (files_removed lock_released : Bool) → Call
  expired : (digest : Bytes) (files_removed : Bool) → Call

abbrev pub effect : Call → DiskCacheStore → DiskCacheStore
effect (joined d n) s = join d n s
effect (made_ready d n u m r) s = prepare d n u m r s
effect (finished d a b c e w l f) s = publish_fill d a b c e w l f s
effect (aborted d c) s = abort_fill d c s
effect (opened d f v r) s = open_pinned d f v r s
effect (let_go d r l) s = release_entry d r l s
effect (expired d r) s = expire d r s

abbrev pub effects : List Call → DiskCacheStore → DiskCacheStore
effects [] s = s
effects (c ∷ cs) s = effects cs (effect c s)

-- The bytes of the temporary file of metadata that a call leaves behind.
abbrev pub left_by : Call → ℕ
left_by (finished d a b c e w l f) = left_bytes l
left_by (joined _ _) = 0
left_by (made_ready _ _ _ _ _) = 0
left_by (aborted _ _) = 0
left_by (opened _ _ _ _) = 0
left_by (let_go _ _ _) = 0
left_by (expired _ _) = 0

abbrev pub metadata_left : List Call → ℕ
metadata_left [] = 0
metadata_left (c ∷ cs) = left_by c + metadata_left cs

-- More bytes may be over the limit.
weaken : (extra more : ℕ) (s : DiskCacheStore) → IsWithin extra s → IsWithin (extra + more) s
weaken extra more s (a, b, c, d, u) = (a, b, omega arith, d, u)

persist_metadata-IsWithin :
    (extra : ℕ) (left : Option ℕ) (s : DiskCacheStore)
    → IsWithin extra s
    → IsWithin (extra + left_bytes left) (persist_metadata left s)
unfolding persist_metadata
persist_metadata-IsWithin extra left s (a, b, c, d, u) = (a, b, omega arith, d, u)

effect-IsWithin :
    (extra : ℕ) (c : Call) (s : DiskCacheStore)
    → IsWithin extra s
    → IsWithin (extra + left_by c) (effect c s)
effect-IsWithin extra (joined d n) s h = weaken extra 0 (join d n s) (join-IsWithin extra d n s h)
effect-IsWithin extra (made_ready d n u m r) s h =
    weaken extra 0 (prepare d n u m r s) (prepare-IsWithin extra d n u m r s h)
effect-IsWithin extra (finished d a b c e w l f) s h =
    publish_fill-IsWithin (extra + left_bytes l) d a b c e w l f s (weaken extra (left_bytes l) s h)
      (persist_metadata-IsWithin extra l s h)
effect-IsWithin extra (aborted d c) s h =
    weaken extra 0 (abort_fill d c s) (abort_fill-IsWithin extra d c s h)
effect-IsWithin extra (opened d f v r) s h =
    weaken extra 0 (open_pinned d f v r s) (open_pinned-IsWithin extra d f v r s h)
effect-IsWithin extra (let_go d r l) s h =
    weaken extra 0 (release_entry d r l s) (release_entry-IsWithin extra d r l s h)
effect-IsWithin extra (expired d r) s h =
    weaken extra 0 (expire d r s) (expire-IsWithin extra d r s h)

-- Behind any history of calls, whatever the calls on files answer, the counts of bytes and of
-- reserved bytes are those of the entries and the fills; the bytes on the disk, reserved and
-- orphaned are above the limit of bytes by no more than `extra`, what they were above it before,
-- and the lengths of the temporary files of metadata that could not be removed; and the entries with
-- the prepared fills are within the limit of entries, which is the list's own limit, so the list
-- never drops an entry by itself.
pub effects-IsWithin :
    (calls : List Call) (extra : ℕ) (s : DiskCacheStore)
    → IsWithin extra s
    → IsWithin (extra + metadata_left calls) (effects calls s)
effects-IsWithin [] extra s h = weaken extra 0 s h
effects-IsWithin (c ∷ cs) extra s h =
    subst (λ n. IsWithin n (effects (c ∷ cs) s)) (omega arith)
      (effects-IsWithin cs (extra + left_by c) (effect c s) (effect-IsWithin extra c s h))
