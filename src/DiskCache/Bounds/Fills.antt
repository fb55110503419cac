-- ===== src/DiskCache/Bounds/Fills.antt =====
-- The calls of internal/store/object on the fills of its local cache stay within the limits.
use regimux.Prelude.{
  ℕ, suc, ◌+◌, ◌-◌, ◌≡◌, refl, sym, subst, ap, ◌∙◌, Bool, true, false, ◌&&◌, ◌||◌, not, [], ◌∷◌,
  Option, none, some, length, length-append, arith, if◌then◌else◌, leb,
}
use regimux.Prelude.Bytes.{Bytes}
use regimux.DiskCache.{DiskCacheEntry, DiskCacheFill, DiskCacheStore, over, make_room}
use regimux.DiskCache.Rows.{total-append}
use regimux.DiskCache.Room.{Made, make_room-fits}
use regimux.DiskCache.Fills.{
  find_fill, drop_fill, find_entry, join, prepare, end_fill, abort_fill, add_entry,
  track_unpublished, persist_metadata, publish_fill,
}
use regimux.DiskCache.Bounds.{
  total_reserve, prepared_count, AreFresh, IsWithin, drop_fill-lem, find_fill-AreFresh,
  drop_fill-AreFresh, choice, choice_of, search_cases, prepared_count-le,
}

module _ (extra : ℕ) where
  end_fill-IsWithin :
      (digest : Bytes) (s : DiskCacheStore) → IsWithin extra s → IsWithin extra (end_fill digest s)
  unfolding end_fill
  end_fill-IsWithin digest s (a, b, c, d, u) =
      search_cases extra (find_fill digest s.fills) s _ (a, b, c, d, u)
        (λ f p.
          let (x, y, z) = drop_fill-lem digest s.fills f p in
          (
            a,
            omega (arith, x),
            omega (arith, x),
            omega (arith, y),
            drop_fill-AreFresh digest s.fills u,
          ))

  pub abort_fill-IsWithin :
      (digest : Bytes) (cleaned : Bool) (s : DiskCacheStore)
      → IsWithin extra s
      → IsWithin extra (abort_fill digest cleaned s)
  unfolding abort_fill
  abort_fill-IsWithin digest cleaned s (a, b, c, d, u) =
      search_cases extra (find_fill digest s.fills) s _ (a, b, c, d, u)
        (λ f p.
          let (x, y, z) = drop_fill-lem digest s.fills f p in
          (
            a,
            omega (arith, x),
            ground (arith, x),
            omega (arith, y),
            drop_fill-AreFresh digest s.fills u,
          ))

  pub join-IsWithin :
      (digest : Bytes) (max_concurrent_fills : ℕ) (s : DiskCacheStore)
      → IsWithin extra s
      → IsWithin extra (join digest max_concurrent_fills s)
  unfolding join
  join-IsWithin digest max_concurrent_fills s (a, b, c, d, u) =
      search_cases extra (find_fill digest s.fills) _ _
        (search_cases extra (find_entry digest s.entries) _ _
          (choice extra (s.disk_fill_disabled || leb max_concurrent_fills (length s.fills)) s
            started (a, b, c, d, u) (a, omega arith, c, omega arith, ((λ q. refl), u)))
          (λ e p. (a, b, c, d, u)))
        (λ f p. (a, b, c, d, u))
    where
      started : DiskCacheStore
      started = record s {
        fills = record { digest = digest; reserve = 0; prepared = false } ∷ s.fills;
      }

  -- What a fill reserved becomes the size of its entry.
  published :
      (digest : Bytes) (evict_pending : Bool) (f : DiskCacheFill) (s : DiskCacheStore)
      → find_fill digest s.fills ≡ some f
      → f.prepared ≡ true
      → IsWithin extra s
      → IsWithin extra (end_fill digest (add_entry f evict_pending s))
  unfolding end_fill add_entry
  published digest evict_pending f s p q (a, b, c, d, u) =
      let (x, y, z) = drop_fill-lem digest s.fills f p in
      let e : DiskCacheEntry = record {
        digest = f.digest;
        size = f.reserve;
        pins = 0;
        evict_pending = evict_pending;
      } in
      subst
        (λ r. IsWithin extra (elim r as (λ _. DiskCacheStore) [
          | none ↦ add_entry f evict_pending s
          | some g ↦ record (add_entry f evict_pending s) {
            fills = drop_fill digest s.fills;
            reserved = s.reserved - g.reserve;
          }
        ]))
        (sym p)
        (
          omega (arith, total-append s.entries (e ∷ [])),
          omega (arith, x),
          omega (arith, x),
          ground (arith, y, q, length-append s.entries (e ∷ [])),
          drop_fill-AreFresh digest s.fills u,
        )

  track-IsWithin :
      (digest : Bytes) (f : DiskCacheFill) (s : DiskCacheStore)
      → find_fill digest s.fills ≡ some f
      → f.prepared ≡ true
      → IsWithin extra s
      → IsWithin extra (end_fill digest (track_unpublished f s))
  unfolding track_unpublished
  track-IsWithin digest f s p q h =
      elim (find_entry f.digest s.entries)
        as (λ r. IsWithin extra (
          end_fill digest
            (elim r as (λ _. DiskCacheStore) [ none ↦ add_entry f true s | some e ↦ s ]))) [
              | none ↦ published digest true f s p q h
              | some e ↦ end_fill-IsWithin digest s h
            ]

  -- What making room gives where it says yes.
  room-IsWithin :
      (size : ℕ) (files_removed : ℕ → Bool) (s t : DiskCacheStore) (made : Bool)
      → IsWithin extra s
      → Made size true files_removed s (some (t, made))
      → IsWithin extra t
  room-IsWithin size files_removed s t made (a, b, c, d, u) (acc, k, f, g) =
      let (k0, k1, k2, k3, k4, k5, k6, k7, k8) = k in
      (
        acc,
        k3 ∙ b ∙ ap total_reserve (sym k2),
        omega arith,
        omega (arith, ap prepared_count k2),
        subst AreFresh (sym k2) u,
      )

  reserved-IsWithin :
      (digest : Bytes) (size : ℕ) (s : DiskCacheStore) (f : DiskCacheFill)
      → find_fill digest s.fills ≡ some f
      → f.prepared ≡ false
      → over size true s ≡ false
      → IsWithin extra s
      → IsWithin extra (record s {
        fills =
            record { digest = digest; reserve = size; prepared = true } ∷ drop_fill digest s.fills;
        reserved = s.reserved + size;
      })
  unfolding over
  reserved-IsWithin digest size s f p q o (a, b, c, d, u) =
      let (x, y, n) = drop_fill-lem digest s.fills f p in
      let le = prepared_count-le (drop_fill digest s.fills) in
      (
        a,
        omega (arith, x, find_fill-AreFresh digest s.fills f p u q),
        ground (arith, o),
        ground (arith, o, n, le),
        ((λ r. absurd (ground arith)), drop_fill-AreFresh digest s.fills u),
      )

  first_false : (a b : Bool) → (a || b) ≡ false → a ≡ false
  first_false a b h = ground arith

  first_true : (a b : Bool) → (a && b) ≡ true → a ≡ true
  first_true a b h = ground arith

  pub prepare-IsWithin :
      (digest : Bytes) (size : ℕ) (usable stream_made : Bool) (files_removed : ℕ → Bool)
      (s : DiskCacheStore)
      → IsWithin extra s
      → IsWithin extra (prepare digest size usable stream_made files_removed s)
  unfolding prepare
  prepare-IsWithin digest size usable stream_made files_removed s h =
      search_cases extra (find_fill digest s.fills) s _ h (λ f p.
        choice_of extra (f.prepared || not usable) s _ (λ q. h)
          (λ q.
            search_cases extra (make_room (suc (length s.entries)) size true files_removed 0 s) s _
              h
              (λ x e.
                let made =
                  subst (Made size true files_removed s) e
                    (make_room-fits size true files_removed s h.0) in
                let w = room-IsWithin size files_removed s x.0 x.1 h made in
                choice_of extra (x.1 && stream_made) _ x.0
                  (λ r.
                    reserved-IsWithin digest size x.0 f (ap (find_fill digest) made.1.2 ∙ p)
                      (first_false f.prepared (not usable) q)
                      (made.2 (first_true x.1 stream_made r)) w)
                  (λ r. w))))

  not-false : (a : Bool) → not a ≡ false → a ≡ true
  not-false a h = ground arith

  either_end :
      (digest : Bytes) (b : Bool) (f : DiskCacheFill) (s : DiskCacheStore)
      → IsWithin extra (end_fill digest s)
      → IsWithin extra (end_fill digest (track_unpublished f s))
      → IsWithin extra (end_fill digest (if b then s else track_unpublished f s))
  either_end digest true f s h k = h
  either_end digest false f s h k = k

  -- The body is removed or stays behind as an entry.
  unpublished :
      (digest : Bytes) (body_removed : Bool) (f : DiskCacheFill) (s : DiskCacheStore)
      → find_fill digest s.fills ≡ some f
      → f.prepared ≡ true
      → IsWithin extra s
      → IsWithin extra (end_fill digest (if body_removed then s else track_unpublished f s))
  unpublished digest body_removed f s p q h =
      either_end digest body_removed f s (end_fill-IsWithin digest s h)
        (track-IsWithin digest f s p q h)

  pub publish_fill-IsWithin :
      (digest : Bytes) (publishable temp_removed renamed described written : Bool) (left : Option ℕ)
      (body_removed : Bool) (s : DiskCacheStore)
      → IsWithin extra s
      → IsWithin extra (persist_metadata left s)
      → IsWithin extra (
          publish_fill digest publishable temp_removed renamed described written left body_removed
            s)
  unfolding publish_fill persist_metadata
  publish_fill-IsWithin digest publishable temp_removed renamed described written left body_removed
        s h k =
      let persisted = persist_metadata left s in
      search_cases extra (find_fill digest s.fills) s _ h (λ f p.
        choice_of extra (not f.prepared) s _ (λ q. h)
          (λ q.
            let ready = not-false f.prepared q in
            let untold : DiskCacheStore =
              end_fill digest (if body_removed then s else track_unpublished f s) in
            let unwritten : DiskCacheStore =
              end_fill digest (if body_removed then persisted else track_unpublished f persisted) in
            let done : DiskCacheStore = end_fill digest (add_entry f false persisted) in
            let named : DiskCacheStore =
              if not described then untold else if written then done else unwritten in
            choice extra (not publishable) (if temp_removed then end_fill digest s else s)
              (if not renamed then s else named)
              (choice extra temp_removed (end_fill digest s) s (end_fill-IsWithin digest s h) h)
              (choice extra (not renamed) s named h (
                choice extra (not described) untold (if written then done else unwritten)
                  (unpublished digest body_removed f s p ready h)
                  (choice extra written done unwritten
                    (published digest false f persisted p ready k)
                    (unpublished digest body_removed f persisted p ready k))))))
