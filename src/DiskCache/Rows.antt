-- ===== src/DiskCache/Rows.antt =====
-- The search for the oldest unpinned entry, in internal/store/object/disk_cache_capacity.go.
use regimux.Prelude.{
  ℕ, ◌+◌, ◌<◌, ◌≡◌, ◌==◌, ◌↔◌, inl, inr, refl, sym, subst, ap, true, false, List, [], ◌∷◌, ◌++◌,
  Option, none, some, length, length-append, In, In-append, arith, if◌then◌else◌,
}
use regimux.DiskCache.{DiskCacheEntry, oldest_unpinned_entry}

abbrev pub total : List DiskCacheEntry → ℕ
total [] = 0
total (e ∷ es) = e.size + total es

pub total-append : (xs ys : List DiskCacheEntry) → total (xs ++ ys) ≡ total xs + total ys
total-append [] ys = omega arith
total-append (x ∷ xs) ys = omega (arith, total-append xs ys)

append_assoc : (xs ys zs : List DiskCacheEntry) → (xs ++ ys) ++ zs ≡ xs ++ (ys ++ zs)
append_assoc [] ys zs = refl
append_assoc (x ∷ xs) ys zs = ap (◌∷◌ x) (append_assoc xs ys zs)

-- What is found: no entry, where all are pinned, or an unpinned one, which then stands first.
abbrev pub IsFound : List DiskCacheEntry → List DiskCacheEntry → Option DiskCacheEntry → Type 0
IsFound es turned none = (e : DiskCacheEntry) → In e es → 0 < e.pins
IsFound es turned (some e) = (rest : List DiskCacheEntry) × (turned ≡ e ∷ rest) × (e.pins ≡ 0)

-- Turning keeps the entries.
abbrev pub IsTurned : List DiskCacheEntry → List DiskCacheEntry × Option DiskCacheEntry → Type 0
IsTurned es (turned, found) =
    (length turned ≡ length es)
    × (total turned ≡ total es)
    × ((e : DiskCacheEntry) → In e turned ↔ In e es)
    × IsFound es turned found

moved :
    (x : DiskCacheEntry) (es : List DiskCacheEntry)
    (r : List DiskCacheEntry × Option DiskCacheEntry)
    → IsTurned (es ++ x ∷ []) r
    → IsTurned (x ∷ es) r
moved x es (turned, found) (a, b, c, d) = (
  omega (arith, a, length-append es (x ∷ [])),
  omega (arith, b, total-append es (x ∷ [])),
  (λ e. ((λ l. at_front e ((c e).0 l)), λ l. (c e).1 (at_back e l))),
  pass found d,
)
  where
    at_front : (e : DiskCacheEntry) → In e (es ++ x ∷ []) → In e (x ∷ es)
    at_front e l = elim ((In-append e es (x ∷ [])).0 l) [
      | inl k ↦ inr k
      | inr k ↦ elim k [ inl p ↦ inl p | inr z ↦ elim z [ ] ]
    ]

    at_back : (e : DiskCacheEntry) → In e (x ∷ es) → In e (es ++ x ∷ [])
    at_back e l = (In-append e es (x ∷ [])).1 (elim l [ inl p ↦ inr (inl p) | inr k ↦ inl k ])

    pass : (f : Option DiskCacheEntry) → IsFound (es ++ x ∷ []) turned f → IsFound (x ∷ es) turned f
    pass none h = λ e l. h e (at_back e l)
    pass (some e) h = h

turning :
    (xs ys : List DiskCacheEntry)
    → ((e : DiskCacheEntry) → In e ys → 0 < e.pins)
    → IsTurned (xs ++ ys) (oldest_unpinned_entry (length xs) (xs ++ ys))
unfolding oldest_unpinned_entry
turning [] ys h = (refl, refl, (λ e. ((λ l. l), λ l. l)), h)
turning (x ∷ xs) ys h =
    elim (x.pins == 0)
        as (λ b.
          x.pins == 0 ≡ b
          → IsTurned (x ∷ xs ++ ys) (
              if b
              then (x ∷ xs ++ ys, some x)
              else oldest_unpinned_entry (length xs) ((xs ++ ys) ++ x ∷ []))) [
                | true ↦
                    λ e. (refl, refl, (λ e. ((λ l. l), λ l. l)), (xs ++ ys, refl, ground arith))
                | false ↦ λ e. moved x (xs ++ ys) _ (
                    subst (λ z. IsTurned z (oldest_unpinned_entry (length xs) z))
                      (sym (append_assoc xs ys (x ∷ [])))
                      (turning xs (ys ++ x ∷ []) (pinned (ground arith))))
              ]
      refl
  where
    pinned : 0 < x.pins → (e : DiskCacheEntry) → In e (ys ++ x ∷ []) → 0 < e.pins
    pinned p e l = elim ((In-append e ys (x ∷ [])).0 l) [
      | inl k ↦ h e k
      | inr k ↦ elim k [ inl q ↦ subst (λ y. 0 < y.pins) (sym q) p | inr z ↦ elim z [ ] ]
    ]

append_nil : (xs : List DiskCacheEntry) → xs ++ [] ≡ xs
append_nil [] = refl
append_nil (x ∷ xs) = ap (◌∷◌ x) (append_nil xs)

pub oldest_unpinned_entry-IsTurned :
    (es : List DiskCacheEntry) → IsTurned es (oldest_unpinned_entry (length es) es)
oldest_unpinned_entry-IsTurned es =
    subst (λ z. IsTurned z (oldest_unpinned_entry (length es) z)) (append_nil es)
      (turning es [] (λ e l. elim l [ ]))
