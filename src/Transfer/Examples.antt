-- ===== src/Transfer/Examples.antt =====
-- Partial responses of internal/transfer/range.go at concrete ranges.
use regimux.Prelude.{ℕ, ◌≡◌, refl, ◌↔◌, true, false, Option, none, some, arith}
use regimux.Prelude.Int.{ℤ, pos}
use regimux.ByteRange.{is_suffix}
use regimux.ByteRange.Text.{content_range}
use regimux.ByteRange.Coverage.{suffix, open_ended, bounded, range_of}
use regimux.Transfer.{parse_partial_content_range, validate_requested_partial_range}
use regimux.Transfer.Accept.{AllAsked, validate_known_iff, validate_unknown_iff}
use regimux.Transfer.ContentRange.{parse_partial_content_range-content_range}

-- A range set with one added range answers it.
abbrev one_added : ℤ → ℤ → Option (ℤ × ℤ)
one_added a b = some (a, b)

validate_known_iff_example :
    (validate_requested_partial_range one_added
        (range_of (suffix 500))
        (range_of (bounded 700 1199))
        (some 1200)
      ≡ true)
    ↔ AllAsked (suffix 500) 1200 700 1199
validate_known_iff_example =
    validate_known_iff one_added (λ a b h. refl) (suffix 500) 1200 700 1199
      (omega arith, omega arith) (omega arith) (omega arith) (omega arith)

validate_unknown_iff_example :
    (validate_requested_partial_range one_added
        (range_of (open_ended 10))
        (range_of (bounded 10 20))
        none
      ≡ true)
    ↔ ((is_suffix (range_of (open_ended 10)) ≡ false)
        × ((size : ℕ) → AllAsked (open_ended 10) size 10 20))
validate_unknown_iff_example =
    validate_unknown_iff one_added (λ a b h. refl) (open_ended 10) 10 20 (omega arith) (omega arith)

parse_partial_content_range-content_range_example :
    parse_partial_content_range (content_range (range_of (bounded 0 1023)) (pos 146515))
    ≡ some (range_of (bounded 0 1023), some 146515)
parse_partial_content_range-content_range_example =
    parse_partial_content_range-content_range 0 1023 146515 (omega arith) (omega arith)
      (omega arith)
