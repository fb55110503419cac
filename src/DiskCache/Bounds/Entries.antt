-- ===== src/DiskCache/Bounds/Entries.antt =====
-- The calls of internal/store/object on the entries of its local cache stay within the limits.
use regimux.Prelude.{
  ℕ, suc, ◌-◌, ◌≡◌, ◌==◌, refl, sym, ap, ◌∙◌, Bool, true, false, ◌&&◌, not, List, [], ◌∷◌, ◌++◌,
  Option, none, some, length, length-append, arith, if◌then◌else◌, ltb,
}
use regimux.Prelude.Bytes.{Bytes}
use regimux.DiskCache.{DiskCacheEntry, DiskCacheStore, delete, mark_pending, remove_entry}
use regimux.DiskCache.Rows.{total, total-append}
use regimux.DiskCache.Fills.{find_entry, change_entry, release_entry, expire, promote, open_pinned}
use regimux.DiskCache.Bounds.{
  IsWithin, delete-lem, mark_pending-lem, change_entry-lem, reordered, choice, search_cases,
  either_way,
}

module _ (extra : ℕ) where
  remove_entry-IsWithin :
      (files_removed : Bool) (e : DiskCacheEntry) (s : DiskCacheStore) (digest : Bytes)
      → find_entry digest s.entries ≡ some e
      → IsWithin extra s
      → IsWithin extra (remove_entry files_removed e s).0
  unfolding remove_entry
  remove_entry-IsWithin files_removed e s digest p h =
      either_way extra (ltb 0 e.pins) (pending, true)
        (if files_removed then (deleted, true) else (pending, false)) marked
        (either_way extra files_removed (deleted, true) (pending, false) without marked)
    where
      pending : DiskCacheStore
      pending = record s { entries = mark_pending e.digest s.entries }

      deleted : DiskCacheStore
      deleted = record s { entries = delete e.digest s.entries; bytes = s.bytes - e.size }

      marked : IsWithin extra pending
      marked =
          let (a, b) = mark_pending-lem e.digest s.entries in
          reordered extra s (mark_pending e.digest s.entries) a b h

      without : IsWithin extra deleted
      without =
          let (a, b, c) = delete-lem digest s.entries e p in
          let (i, j, k, l, u) = h in
          let x : total (delete digest s.entries) ≡ total (delete e.digest s.entries) =
            ap (λ d. total (delete d s.entries)) (sym c) in
          let y : length (delete digest s.entries) ≡ length (delete e.digest s.entries) =
            ap (λ d. length (delete d s.entries)) (sym c) in
          (omega arith, j, omega arith, omega arith, u)

  pub expire-IsWithin :
      (digest : Bytes) (files_removed : Bool) (s : DiskCacheStore)
      → IsWithin extra s
      → IsWithin extra (expire digest files_removed s)
  unfolding expire
  expire-IsWithin digest files_removed s h =
      let marked = record s { entries = mark_pending digest s.entries } in
      let (a, b) = mark_pending-lem digest s.entries in
      let w = reordered extra s (mark_pending digest s.entries) a b h in
      search_cases extra (find_entry digest (mark_pending digest s.entries)) s _ h (λ e p.
        choice extra (e.pins == 0) (remove_entry files_removed e marked).0 marked
          (remove_entry-IsWithin files_removed e marked digest p w) w)

  promote-lem :
      (digest : Bytes) (es : List DiskCacheEntry)
      → (total (promote digest es) ≡ total es) × (length (promote digest es) ≡ length es)
  unfolding promote
  promote-lem digest es = go (find_entry digest es) refl
    where
      go :
          (r : Option DiskCacheEntry)
          → find_entry digest es ≡ r
          → let ps = elim r as (λ _. List DiskCacheEntry) [
            | none ↦ es
            | some e ↦ delete digest es ++ e ∷ []
          ] in
            (total ps ≡ total es) × (length ps ≡ length es)
      go none p = (refl, refl)
      go (some e) p =
          let (a, b, c) = delete-lem digest es e p in
          (
            omega (arith, total-append (delete digest es) (e ∷ []), a),
            omega (arith, length-append (delete digest es) (e ∷ []), b),
          )

  pub release_entry-IsWithin :
      (digest : Bytes) (files_removed lock_released : Bool) (s : DiskCacheStore)
      → IsWithin extra s
      → IsWithin extra (release_entry digest files_removed lock_released s)
  unfolding release_entry
  release_entry-IsWithin digest files_removed lock_released s h =
      let es = change_entry digest (λ e. record e { pins = e.pins - 1 }) s.entries in
      let (a, b) =
        change_entry-lem digest (λ e. record e { pins = e.pins - 1 }) s.entries (λ e. refl) in
      let w = reordered extra s es a b h in
      search_cases extra (find_entry digest es) s _ h (λ e p.
        choice extra (e.pins == 0 && e.evict_pending && not lock_released) _
          (record s { entries = es })
          (remove_entry-IsWithin files_removed e (record s { entries = es }) digest p w) w)

  pub open_pinned-IsWithin :
      (digest : Bytes) (fresh verified files_removed : Bool) (s : DiskCacheStore)
      → IsWithin extra s
      → IsWithin extra (open_pinned digest fresh verified files_removed s)
  unfolding open_pinned
  open_pinned-IsWithin digest fresh verified files_removed s h =
      let ps = promote digest s.entries in
      let (a, b) = promote-lem digest s.entries in
      let (x, y) = change_entry-lem digest (λ e. record e { pins = suc e.pins }) ps (λ e. refl) in
      search_cases extra (find_entry digest s.entries) s _ h (λ e p.
        choice extra e.evict_pending s _ h (
          choice extra (fresh && verified) _ _ (reordered extra s _ (x ∙ a) (y ∙ b) h) (
            expire-IsWithin digest files_removed (record s { entries = ps })
              (reordered extra s ps a b h))))
