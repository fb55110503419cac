-- ===== src/Upstream/Selection.antt =====
-- internal/ecosystems/container/upstream/pool_selection_helpers.go: the healthy ones of the candidates,
-- or all of them. The nil list is the empty one.
pub mod Filter
use regimux.Prelude.{
  ℕ, zero, suc, ◌+◌, ◌-◌, ◌≤◌, ◌<◌, ◌≡◌, refl, Bool, true, false, ◌||◌, List, [], ◌∷◌, ◌++◌, Option,
  none, some, length, take, drop, ◌==◌, if◌then◌else◌, arith,
}

pub data HealthSelection : Type 0 where
  selection_all selection_none selection_mixed : HealthSelection

abbrev pub same : Bool → Bool → Bool
same true b = b
same false true = false
same false false = true

abbrev pub is_zero : ℕ → Bool
is_zero zero = true
is_zero (suc n) = false

module _ {A : Type 0} (healthy : A → Bool) where
  -- The plain filter.
  unfoldable pub keep_healthy : List A → List A
  keep_healthy [] = []
  keep_healthy (x ∷ xs) = let rest = keep_healthy xs in if healthy x then x ∷ rest else rest

  -- From the index on; `none` stands for -1.
  unfoldable pub first_health_transition : Bool → ℕ → List A → Option ℕ
  first_health_transition first_healthy index [] = none
  first_health_transition first_healthy index (x ∷ xs) =
      let rest = first_health_transition first_healthy (suc index) xs in
      if is_zero index || same (healthy x) first_healthy then rest else some index

  unfoldable pub collect_mixed_healthy_items : List A → ℕ → Bool → List A
  collect_mixed_healthy_items items transition first_healthy =
      (if first_healthy then take transition items else []) ++ keep_healthy (drop transition items)

  unfoldable pub filter_healthy_items : List A → List A × HealthSelection
  filter_healthy_items [] = ([], selection_all)
  filter_healthy_items (x ∷ xs) = elim (first_health_transition (healthy x) 0 (x ∷ xs)) [
    | some transition ↦
        (collect_mixed_healthy_items (x ∷ xs) transition (healthy x), selection_mixed)
    | none ↦ if healthy x then (x ∷ xs, selection_all) else (x ∷ xs, selection_none)
  ]
