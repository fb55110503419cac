-- ===== src/Transfer.antt =====
-- internal/transfer/range.go: the check of a partial response by its Content-Range. Headers are bytes.
pub mod Accept
pub mod ContentRange
pub mod Examples
use regimux.Prelude.{
  ℕ, Bool, true, false, not, ◌&&◌, ◌||◌, ◌==◌, List, [], ◌∷◌, ◌++◌, Option, none, some,
  if◌then◌else◌,
}
use regimux.Prelude.Int.{ℤ, pos, ltb_ℤ, leb_ℤ}
use regimux.Prelude.Bytes.{Bytes, trim_space, cut, lower}
use regimux.ByteRange.{HttpRange, Parsed, ok, err, is_suffix, is_open_ended, resolve}
use regimux.ByteRange.Text.{unit_prefix, slash, after_prefix, parse_range, parse_non_negative_int}

-- `strings.EqualFold(unit, "bytes")`: the long s of Unicode, which is two bytes, folds to the last letter.
unfoldable pub folds_to_bytes : Bytes → Bool
folds_to_bytes unit = elim (after_prefix (98 ∷ 121 ∷ 116 ∷ 101 ∷ []) unit) [
  | none ↦ false
  | some [] ↦ false
  | some (c ∷ []) ↦ lower c == 115
  | some (c ∷ d ∷ []) ↦ c == 197 && d == 191
  | some (c ∷ d ∷ e ∷ s) ↦ false
]

-- `none` stands for an error of this file, which differ in their text only.
unfoldable pub split_partial_content_range : Bytes → Option (Bytes × Bytes)
split_partial_content_range value = elim (cut 32 (trim_space value)) [
  | none ↦ none
  | some (unit, rest) ↦
      if not (folds_to_bytes unit) then none else elim (cut slash (trim_space rest)) [
        | none ↦ none
        | some (interval, total) ↦ some (trim_space interval, trim_space total)
      ]
]

unfoldable pub parse_partial_range_interval : Bytes → Option HttpRange
parse_partial_range_interval interval = elim (parse_range (unit_prefix ++ interval)) [
  | err e ↦ none
  | ok none ↦ none
  | ok (some actual) ↦ if is_open_ended actual || is_suffix actual then none else some actual
]

-- Digits with a value in int64.
unfoldable pub parse_range_total : Bytes → Option ℕ
parse_range_total value = parse_non_negative_int value

-- "*".
abbrev pub is_star : Bytes → Bool
is_star [] = false
is_star (c ∷ []) = c == 42
is_star (c ∷ d ∷ s) = false

-- The interval and the total, `none` where the total is unknown.
unfoldable pub parse_partial_content_range : Bytes → Option (HttpRange × Option ℕ)
parse_partial_content_range value = elim (split_partial_content_range value) [
  | none ↦ none
  | some (interval, total_value) ↦ elim (parse_partial_range_interval interval) [
    | none ↦ none
    | some actual ↦
        if is_star total_value then some (actual, none) else elim (parse_range_total total_value) [
          | none ↦ none
          | some total ↦ if leb_ℤ (pos total) actual.end then none else some (actual, some total)
        ]
  ]
]

module _ (first_of : ℤ → ℤ → Option (ℤ × ℤ)) where
  -- Whether the response is accepted; `total` is `none` where it is unknown.
  unfoldable pub validate_requested_partial_range : HttpRange → HttpRange → Option ℕ → Bool
  validate_requested_partial_range requested actual (some total) =
      elim (resolve first_of requested (pos total)) [
        | err e ↦ false
        | ok resolved ↦ not (ltb_ℤ actual.start resolved.start || ltb_ℤ resolved.end actual.end)
      ]
  validate_requested_partial_range requested actual none =
      if is_suffix requested
      then false
      else not (
          ltb_ℤ actual.start requested.start
          || (not (is_open_ended requested) && ltb_ℤ requested.end actual.end))
