-- ===== src/Upstream/Selection/Filter.antt =====
-- The search for the first change of health, in
-- internal/ecosystems/container/upstream/pool_selection_helpers.go, against the plain filter.
use regimux.Prelude.{
  ℕ, zero, suc, ◌+◌, ◌≤◌, ◌<◌, ◌≡◌, refl, sym, subst, Bool, true, false, List, [], ◌∷◌, ◌++◌,
  Option, none, some, length, take, drop, if◌then◌else◌, arith,
}
use regimux.Upstream.Selection.{
  HealthSelection, selection_all, selection_none, selection_mixed, same, keep_healthy,
  first_health_transition, collect_mixed_healthy_items, filter_healthy_items,
}

-- The plain filter behind the tag of what it found.
abbrev pub IsSelection : {A : Type 0} → (A → Bool) → List A → List A × HealthSelection → Type 0
IsSelection healthy items (selected, selection_all) =
    (keep_healthy healthy items ≡ items) × (selected ≡ items)
IsSelection healthy items (selected, selection_none) =
    (keep_healthy healthy items ≡ []) × (selected ≡ items) × (0 < length items)
IsSelection healthy items (selected, selection_mixed) =
    (selected ≡ keep_healthy healthy items)
    × (0 < length selected)
    × (length selected < length items)

module _ {A : Type 0} (healthy : A → Bool) where
  keep-le : (xs : List A) → length (keep_healthy healthy xs) ≤ length xs
  unfolding keep_healthy
  keep-le [] = omega arith
  keep-le (x ∷ xs) = ground (arith, keep-le xs)

  -- What the search behind a first item says of the items `xs`.
  abbrev Found : Bool → List A → ℕ → Option ℕ → Type 0
  Found first_healthy xs i none = keep_healthy healthy xs ≡ (if first_healthy then xs else [])
  Found true xs i (some j) =
      (n : ℕ) × (j ≡ i + n)
      × (keep_healthy healthy xs ≡ take n xs ++ keep_healthy healthy (drop n xs))
      × (length (keep_healthy healthy xs) < length xs)
  Found false xs i (some j) =
      (n : ℕ) × (j ≡ i + n)
      × (keep_healthy healthy xs ≡ keep_healthy healthy (drop n xs))
      × (0 < length (keep_healthy healthy xs))

  same-eq : (a b : Bool) → same a b ≡ true → a ≡ b
  same-eq true b e = sym e
  same-eq false true e = e
  same-eq false false e = refl

  go_on :
      (f : Bool) (x : A) (xs : List A) (k : ℕ) (r : Option ℕ)
      → healthy x ≡ f
      → Found f xs (suc (suc k)) r
      → Found f (x ∷ xs) (suc k) r
  unfolding keep_healthy
  go_on true x xs k none e h = ground arith
  go_on false x xs k none e h = ground arith
  go_on true x xs k (some j) e (n, p, q, l) = (suc n, omega arith, ground arith, ground arith)
  go_on false x xs k (some j) e (n, p, q, l) = (suc n, omega arith, ground arith, ground arith)

  stop :
      (f : Bool) (x : A) (xs : List A) (k : ℕ)
      → same (healthy x) f ≡ false
      → Found f (x ∷ xs) (suc k) (some (suc k))
  unfolding keep_healthy
  stop true x xs k e = (0, omega arith, refl, ground (arith, keep-le xs))
  stop false x xs k e = (0, omega arith, refl, ground arith)

  found :
      (f : Bool) (xs : List A) (k : ℕ)
      → Found f xs (suc k) (first_health_transition healthy f (suc k) xs)
  unfolding first_health_transition keep_healthy
  found true [] k = refl
  found false [] k = refl
  found f (x ∷ xs) k =
      let rest = first_health_transition healthy f (suc (suc k)) xs in
      elim (same (healthy x) f)
          as (λ b.
            same (healthy x) f ≡ b → Found f (x ∷ xs) (suc k) (if b then rest else some (suc k))) [
              | true ↦ λ e. go_on f x xs k rest (same-eq (healthy x) f e) (found f xs (suc k))
              | false ↦ λ e. stop f x xs k e
            ]
        refl

  -- The search for the first change gives what the plain filter gives: every item where all are
  -- healthy or none is, and the healthy ones in their order where some are; the tag says which.
  pub filter_healthy_items-IsSelection :
      (items : List A) → IsSelection healthy items (filter_healthy_items healthy items)
  unfolding filter_healthy_items keep_healthy first_health_transition collect_mixed_healthy_items
  filter_healthy_items-IsSelection [] = (refl, refl)
  filter_healthy_items-IsSelection (x ∷ xs) =
      result (healthy x) refl (first_health_transition healthy (healthy x) 1 xs)
        (found (healthy x) xs 0)
    where
      result :
          (b : Bool)
          → healthy x ≡ b
          → (r : Option ℕ) → Found b xs 1 r
          → IsSelection healthy (x ∷ xs) (elim r as (λ _. List A × HealthSelection) [
            | some t ↦ (collect_mixed_healthy_items healthy (x ∷ xs) t b, selection_mixed)
            | none ↦ if b then (x ∷ xs, selection_all) else (x ∷ xs, selection_none)
          ])
      result true e none h = (ground arith, refl)
      result false e none h = (ground arith, refl, omega arith)
      result true e (some (suc t)) (n, p, q, l) =
          let q' : keep_healthy healthy xs ≡ take t xs ++ keep_healthy healthy (drop t xs) =
            subst (λ u. keep_healthy healthy xs ≡ take u xs ++ keep_healthy healthy (drop u xs))
              (omega arith) q in
          (ground arith, omega arith, ground arith)
      result false e (some (suc t)) (n, p, q, l) =
          let q' : keep_healthy healthy xs ≡ keep_healthy healthy (drop t xs) =
            subst (λ u. keep_healthy healthy xs ≡ keep_healthy healthy (drop u xs)) (omega arith)
              q in
          (ground arith, ground arith, ground (arith, keep-le xs))
      result true e (some zero) (n, p, q, l) = absurd (omega arith)
      result false e (some zero) (n, p, q, l) = absurd (omega arith)
