-- ===== src/DiskCache/Room.antt =====
-- What the loop that makes room in internal/store/object/disk_cache_capacity.go leaves behind.
use regimux.Prelude.{
  ℕ, zero, suc, ◌+◌, ◌-◌, ◌<◌, ◌≤◌, ◌≡◌, ◌⊎◌, inl, inr, refl, sym, subst, ap, ◌∙◌, Bool, true,
  false, List, ◌∷◌, Option, none, some, length, In, arith, if◌then◌else◌,
}
use regimux.Prelude.Bytes.{bytes_eq_iff}
use regimux.DiskCache.{
  DiskCacheEntry, DiskCacheStore, delete, mark_pending, remove_entry, over, make_room,
}
use regimux.DiskCache.Rows.{total, IsTurned, oldest_unpinned_entry-IsTurned}

-- The count of bytes is that of the entries.
abbrev pub Accounts : DiskCacheStore → Type 0
Accounts s = s.bytes ≡ total s.entries

-- What else the loop keeps: the limits, the fills, what they reserve, whether fills are disabled,
-- and each pinned entry.
abbrev pub Keeps : DiskCacheStore → DiskCacheStore → Type 0
Keeps s t =
    (t.max_bytes ≡ s.max_bytes)
    × (t.max_entries ≡ s.max_entries)
    × (t.fills ≡ s.fills)
    × (t.reserved ≡ s.reserved)
    × (t.orphaned_bytes ≡ s.orphaned_bytes)
    × (t.disk_fill_disabled ≡ s.disk_fill_disabled)
    × (length t.entries ≤ length s.entries)
    × (t.bytes ≤ s.bytes)
    × ((e : DiskCacheEntry) → 0 < e.pins → In e s.entries → In e t.entries)

abbrev pub Made : ℕ → Bool → (ℕ → Bool) → DiskCacheStore → Option (DiskCacheStore × Bool) → Type 0
Made size has_fill_slot files_removed s none = ⊥
Made size has_fill_slot files_removed s (some (t, made)) =
    Accounts t
    × Keeps s t
    × (made ≡ true → over size has_fill_slot t ≡ false)
    × (made ≡ false
        → ((e : DiskCacheEntry) → In e t.entries → 0 < e.pins)
          ⊎ ((i : ℕ) × (files_removed i ≡ false)))

Keeps-trans : (s t u : DiskCacheStore) → Keeps s t → Keeps t u → Keeps s u
Keeps-trans s t u (a, b, c, d, e, n, f, g, h) (a', b', c', d', e', n', f', g', h') = (
  a' ∙ a,
  b' ∙ b,
  c' ∙ c,
  d' ∙ d,
  e' ∙ e,
  n' ∙ n,
  omega arith,
  omega arith,
  λ x p l. h' x p (h x p l),
)

Made-trans :
    (size : ℕ) (has_fill_slot : Bool) (files_removed : ℕ → Bool) (s t : DiskCacheStore)
    (r : Option (DiskCacheStore × Bool))
    → Keeps s t
    → Made size has_fill_slot files_removed t r
    → Made size has_fill_slot files_removed s r
Made-trans size has_fill_slot files_removed s t none k m = m
Made-trans size has_fill_slot files_removed s t (some (u, made)) k (a, l, f, g) =
    (a, Keeps-trans s t u k l, f, g)

-- One turn of the loop, where the oldest unpinned entry stands first.
removed_first :
    (e : DiskCacheEntry) (rest : List DiskCacheEntry) (s : DiskCacheStore)
    → e.pins ≡ 0
    → remove_entry true e (record s { entries = e ∷ rest })
      ≡ (record s { entries = rest; bytes = s.bytes - e.size }, true)
unfolding remove_entry delete
removed_first e rest s p = ground (arith, bytes_eq_iff e.digest e.digest)

kept_first :
    (e : DiskCacheEntry) (rest : List DiskCacheEntry) (s : DiskCacheStore)
    → e.pins ≡ 0
    → remove_entry false e (record s { entries = e ∷ rest })
      ≡ (record s { entries = record e { evict_pending = true } ∷ rest }, false)
unfolding remove_entry mark_pending
kept_first e rest s p = ground (arith, bytes_eq_iff e.digest e.digest)

-- What a turn does with the candidate.
abbrev turn : ℕ → ℕ → Bool → (ℕ → Bool) → ℕ → DiskCacheStore × Bool → Option (DiskCacheStore × Bool)
turn fuel size has_fill_slot files_removed i (after, removed) =
    if removed
    then make_room fuel size has_fill_slot files_removed (suc i) after
    else some (after, false)

module _ (size : ℕ) (has_fill_slot : Bool) (files_removed : ℕ → Bool) where
  -- The turn, where the unpinned candidate stands first.
  first-Made :
      (fuel i : ℕ) (s : DiskCacheStore) (e : DiskCacheEntry) (rest : List DiskCacheEntry)
      → ((t : DiskCacheStore)
          → length t.entries < fuel
          → Accounts t
          → Made size has_fill_slot files_removed t
              (make_room fuel size has_fill_slot files_removed (suc i) t))
      → length s.entries < suc fuel
      → Accounts s
      → e.pins ≡ 0
      → e.size + total rest ≡ total s.entries
      → suc (length rest) ≡ length s.entries
      → (b : Bool) → files_removed i ≡ b
      → ((x : DiskCacheEntry) → 0 < x.pins → In x s.entries → In x rest)
      → Made size has_fill_slot files_removed s (
          turn fuel size has_fill_slot files_removed i
            (remove_entry b e (record s { entries = e ∷ rest })))
  first-Made fuel i s e rest again f acc p sizes counts true r kept =
      subst
        (λ x.
          Made size has_fill_slot files_removed s (turn fuel size has_fill_slot files_removed i x))
        (sym (removed_first e rest s p))
        (Made-trans size has_fill_slot files_removed s _
          (make_room fuel size has_fill_slot files_removed (suc i)
            (record s { entries = rest; bytes = s.bytes - e.size }))
          (refl, refl, refl, refl, refl, refl, omega arith, omega arith, kept)
          (again (record s { entries = rest; bytes = s.bytes - e.size }) (omega arith)
            (omega arith)))
  first-Made fuel i s e rest again f acc p sizes counts false r kept =
      subst
        (λ x.
          Made size has_fill_slot files_removed s (turn fuel size has_fill_slot files_removed i x))
        (sym (kept_first e rest s p))
        (
          omega arith,
          (refl, refl, refl, refl, refl, refl, omega arith, omega arith, λ x n l. inr (kept x n l)),
          (λ q. absurd (ground arith)),
          λ q. inr (i, r),
        )

  candidate-Made :
      (fuel i : ℕ) (s : DiskCacheStore) (es : List DiskCacheEntry) (found : Option DiskCacheEntry)
      → ((t : DiskCacheStore)
          → length t.entries < fuel
          → Accounts t
          → Made size has_fill_slot files_removed t
              (make_room fuel size has_fill_slot files_removed (suc i) t))
      → length s.entries < suc fuel
      → Accounts s
      → IsTurned s.entries (es, found)
      → Made size has_fill_slot files_removed s
          (elim found as (λ _. Option (DiskCacheStore × Bool)) [
            | none ↦ some (record s { entries = es }, false)
            | some e ↦
                turn fuel size has_fill_slot files_removed i
                  (remove_entry (files_removed i) e (record s { entries = es }))
          ])
  candidate-Made fuel i s es none again f acc (a, b, c, d) = (
    omega arith,
    (refl, refl, refl, refl, refl, refl, omega arith, omega arith, λ e p l. (c e).1 l),
    (λ q. absurd (ground arith)),
    λ q. inl (λ e l. d e ((c e).0 l)),
  )
  candidate-Made fuel i s es (some e) again f acc (a, b, c, (rest, q, p)) =
      subst
        (λ z. Made size has_fill_slot files_removed s (
          turn fuel size has_fill_slot files_removed i
            (remove_entry (files_removed i) e (record s { entries = z }))))
        (sym q)
        (first-Made fuel i s e rest again f acc p (sym (ap total q) ∙ b) (sym (ap length q) ∙ a)
          (files_removed i) refl in_rest)
    where
      unpinned : (x : DiskCacheEntry) → 0 < x.pins → x ≡ e → ⊥
      unpinned x n h = ground arith

      in_rest : (x : DiskCacheEntry) → 0 < x.pins → In x s.entries → In x rest
      in_rest x n l = elim (subst (In x) q ((c x).1 l)) [
        | inl h ↦ absurd (unpinned x n h)
        | inr k ↦ k
      ]

  make_room-Made :
      (fuel i : ℕ) (s : DiskCacheStore)
      → length s.entries < fuel
      → Accounts s
      → Made size has_fill_slot files_removed s
          (make_room fuel size has_fill_slot files_removed i s)
  unfolding make_room
  make_room-Made zero i s f acc = absurd (omega arith)
  make_room-Made (suc fuel) i s f acc =
      elim (over size has_fill_slot s)
          as (λ b.
            over size has_fill_slot s ≡ b
            → (r : Option (DiskCacheStore × Bool)) → Made size has_fill_slot files_removed s r
            → Made size has_fill_slot files_removed s (if b then r else some (s, true))) [
              | true ↦ λ e r m. m
              | false ↦ λ e r m. (
                acc,
                (refl, refl, refl, refl, refl, refl, omega arith, omega arith, λ e p l. l),
                (λ q. e),
                λ q. absurd (ground arith),
              )
            ]
        refl _
        (candidate-Made fuel i s _ _ (λ t. make_room-Made fuel (suc i) t) f acc
          (oldest_unpinned_entry-IsTurned s.entries))

  -- Making room comes to an end, after at most one turn more than there are entries; it keeps the
  -- count of bytes right, the fills, what is reserved and every pinned entry. If it says yes then
  -- the object fits into the limits; if it says no then all the remaining entries are pinned or
  -- the files of a candidate could not be removed.
  pub make_room-fits :
      (s : DiskCacheStore)
      → Accounts s
      → Made size has_fill_slot files_removed s
          (make_room (suc (length s.entries)) size has_fill_slot files_removed 0 s)
  make_room-fits s acc = make_room-Made (suc (length s.entries)) 0 s (omega arith) acc
