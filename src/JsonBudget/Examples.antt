-- ===== src/JsonBudget/Examples.antt =====
-- The scanner of internal/jsonbudget at a small document.
use regimux.Prelude.{ℕ, ◌+◌, ◌≤◌, ◌≡◌, ◌⊎◌, ◌↔◌, List, [], ◌∷◌, none, some, take}
use regimux.JsonBudget.{err_limit, default_limits, check_shape}
use regimux.JsonBudget.Lexemes.{lex, outside}
use regimux.JsonBudget.Lexemes.{count_markers, count_content, longest_token, openings, closings}
use regimux.JsonBudget.Shape.{check_shape_lem}

-- [{}]
abbrev document : List ℕ
document = 91 ∷ 123 ∷ 125 ∷ 93 ∷ []

check_shape_lem_example :
    ((check_shape document default_limits ≡ none)
      ⊎ (check_shape document default_limits ≡ some err_limit))
    × ((check_shape document default_limits ≡ none) ↔ (
        (count_markers (lex outside document) ≤ 100_000)
        × (count_content (lex outside document) ≤ 33_554_432)
        × (longest_token 0 (lex outside document) ≤ 1024)
        × ((n : ℕ)
            → openings (take n (lex outside document))
              ≤ 128 + closings (take n (lex outside document)))))
check_shape_lem_example = check_shape_lem document default_limits
