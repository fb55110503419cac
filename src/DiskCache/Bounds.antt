-- ===== src/DiskCache/Bounds.antt =====
-- What the limits of the local cache of internal/store/object mean, and the lists that they count.
pub mod Entries
pub mod Fills
pub mod Histories
use regimux.Prelude.{
  ℕ, zero, suc, ◌+◌, ◌-◌, ◌<◌, ◌≤◌, ◌≡◌, ◌==◌, refl, sym, subst, ap, ◌∙◌, Bool, true, false, ◌&&◌,
  ◌||◌, not, List, [], ◌∷◌, ◌++◌, Option, none, some, length, length-append, arith, if◌then◌else◌,
  ltb, leb,
}
use regimux.Prelude.Bytes.{Bytes, bytes_eq, bytes_eq_iff}
use regimux.DiskCache.{
  DiskCacheEntry, DiskCacheFill, DiskCacheStore, delete, mark_pending, remove_entry, over,
  make_room,
}
use regimux.DiskCache.Rows.{total, total-append}
use regimux.DiskCache.Room.{Accounts, Keeps, Made, make_room-fits}
use regimux.DiskCache.Fills.{
  find_fill, drop_fill, find_entry, change_entry, join, prepare, end_fill, abort_fill, add_entry,
  track_unpublished, publish_fill, release_entry, expire, promote, open_pinned,
}

abbrev pub total_reserve : List DiskCacheFill → ℕ
total_reserve [] = 0
total_reserve (f ∷ fs) = f.reserve + total_reserve fs

abbrev pub prepared_count : List DiskCacheFill → ℕ
prepared_count [] = 0
prepared_count (f ∷ fs) = (if f.prepared then 1 else 0) + prepared_count fs

-- A fill that is not prepared reserves nothing.
abbrev pub AreFresh : List DiskCacheFill → Type 0
AreFresh [] = Unit {0}
AreFresh (f ∷ fs) = (f.prepared ≡ false → f.reserve ≡ 0) × AreFresh fs

-- The counts are those of what is there, and with what the prepared fills still need they are
-- within the limits, but for `extra` bytes.
abbrev pub IsWithin : ℕ → DiskCacheStore → Type 0
IsWithin extra s =
    Accounts s
    × (s.reserved ≡ total_reserve s.fills)
    × (s.bytes + s.reserved + s.orphaned_bytes ≤ s.max_bytes + extra)
    × (length s.entries + prepared_count s.fills ≤ s.max_entries)
    × AreFresh s.fills

pub prepared_count-le : (fs : List DiskCacheFill) → prepared_count fs ≤ length fs
prepared_count-le [] = omega arith
prepared_count-le (f ∷ fs) = ground (arith, prepared_count-le fs)

-- The fill that is found, and the others.
pub drop_fill-lem :
    (digest : Bytes) (fs : List DiskCacheFill) (f : DiskCacheFill)
    → find_fill digest fs ≡ some f
    → (f.reserve + total_reserve (drop_fill digest fs) ≡ total_reserve fs)
      × ((if f.prepared then 1 else 0) + prepared_count (drop_fill digest fs) ≡ prepared_count fs)
      × (suc (length (drop_fill digest fs)) ≡ length fs)
unfolding find_fill drop_fill
drop_fill-lem digest [] f e = absurd (ground arith)
drop_fill-lem digest (g ∷ fs) f e = ground (arith, drop_fill-lem digest fs f)

pub find_fill-AreFresh :
    (digest : Bytes) (fs : List DiskCacheFill) (f : DiskCacheFill)
    → find_fill digest fs ≡ some f
    → AreFresh fs
    → f.prepared ≡ false
    → f.reserve ≡ 0
unfolding find_fill
find_fill-AreFresh digest [] f e u q = absurd (ground arith)
find_fill-AreFresh digest (g ∷ fs) f e (h, u) q = ground (arith, h, find_fill-AreFresh digest fs f)

pub drop_fill-AreFresh :
    (digest : Bytes) (fs : List DiskCacheFill) → AreFresh fs → AreFresh (drop_fill digest fs)
unfolding drop_fill
drop_fill-AreFresh digest [] u = u
drop_fill-AreFresh digest (f ∷ fs) (h, u) =
    elim (bytes_eq f.digest digest) as (λ b. AreFresh (if b then fs else f ∷ drop_fill digest fs)) [
      | true ↦ u
      | false ↦ (h, drop_fill-AreFresh digest fs u)
    ]

pub delete-lem :
    (digest : Bytes) (es : List DiskCacheEntry) (e : DiskCacheEntry)
    → find_entry digest es ≡ some e
    → (e.size + total (delete digest es) ≡ total es)
      × (suc (length (delete digest es)) ≡ length es)
      × (e.digest ≡ digest)
unfolding find_entry delete
delete-lem digest [] e p = absurd (ground arith)
delete-lem digest (d ∷ es) e p =
    ground (arith, delete-lem digest es e, bytes_eq_iff d.digest digest)

pub mark_pending-lem :
    (digest : Bytes) (es : List DiskCacheEntry)
    → (total (mark_pending digest es) ≡ total es) × (length (mark_pending digest es) ≡ length es)
unfolding mark_pending
mark_pending-lem digest [] = (refl, refl)
mark_pending-lem digest (d ∷ es) = ground (arith, mark_pending-lem digest es)

pub change_entry-lem :
    (digest : Bytes) (change : DiskCacheEntry → DiskCacheEntry) (es : List DiskCacheEntry)
    → ((e : DiskCacheEntry) → (change e).size ≡ e.size)
    → (total (change_entry digest change es) ≡ total es)
      × (length (change_entry digest change es) ≡ length es)
unfolding change_entry
change_entry-lem digest change [] h = (refl, refl)
change_entry-lem digest change (d ∷ es) h = ground (arith, change_entry-lem digest change es h, h d)

module _ (extra : ℕ) where
  -- A change of the entries that keeps their number and their bytes.
  pub reordered :
      (s : DiskCacheStore) (es : List DiskCacheEntry)
      → total es ≡ total s.entries
      → length es ≡ length s.entries
      → IsWithin extra s
      → IsWithin extra (record s { entries = es })
  reordered s es p q (a, b, c, d, u) = (omega arith, b, c, omega arith, u)

  -- Both ways of a test.
  pub choice :
      (b : Bool) (x y : DiskCacheStore)
      → IsWithin extra x
      → IsWithin extra y
      → IsWithin extra (if b then x else y)
  choice true x y h k = h
  choice false x y h k = k

  pub choice_of :
      (b : Bool) (x y : DiskCacheStore)
      → (b ≡ true → IsWithin extra x)
      → (b ≡ false → IsWithin extra y)
      → IsWithin extra (if b then x else y)
  choice_of true x y h k = h refl
  choice_of false x y h k = k refl

  -- Both results of a search, whose equation the found one comes with.
  pub search_cases :
      {A : Type 0} (r : Option A) (x : DiskCacheStore) (k : A → DiskCacheStore)
      → IsWithin extra x
      → ((f : A) → r ≡ some f → IsWithin extra (k f))
      → IsWithin extra (elim r as (λ _. DiskCacheStore) [ none ↦ x | some f ↦ k f ])
  search_cases none x k h l = h
  search_cases (some f) x k h l = l f refl

  pub either_way :
      (b : Bool) (x y : DiskCacheStore × Bool)
      → IsWithin extra x.0
      → IsWithin extra y.0
      → IsWithin extra ((λ (r : DiskCacheStore × Bool). r.0) (if b then x else y))
  either_way true x y h k = h
  either_way false x y h k = k
