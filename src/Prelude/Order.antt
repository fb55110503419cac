-- ===== src/Prelude/Order.antt =====
-- The answers of Go's three-way comparisons.
use regimux.Prelude.{ℕ, ltb, if◌then◌else◌}
use regimux.Prelude.Int.{ℤ, ltb_ℤ}

-- The left one goes first, the right one, or either.
pub data Compared : Type 0 where
  first second either : Compared

-- `cmp.Compare`.
abbrev pub compare_ℕ : ℕ → ℕ → Compared
compare_ℕ a b = if ltb a b then first else if ltb b a then second else either

abbrev pub compare_ℤ : ℤ → ℤ → Compared
compare_ℤ a b = if ltb_ℤ a b then first else if ltb_ℤ b a then second else either
