-- ===== src/ByteRange/Text.antt =====
-- internal/store/object/range.go: the parser and the printer of ranges, over the bytes of a header.
-- The prefix is compared byte by byte: six bytes fold to "bytes=" only where each is the same letter.
use regimux.Prelude.{
  ℕ, suc, Bool, true, false, ◌||◌, [], ◌∷◌, ◌++◌, Option, none, some, ltb, ◌==◌, if◌then◌else◌,
}
use regimux.Prelude.Int.{ℤ, pos, negsuc, ltb_ℤ, half_word}
use regimux.Prelude.Bytes.{Bytes, trim_space, digits_value, format_nat, cut, lower, contains_byte}
use regimux.ByteRange.{
  HttpRange, unit_unsupported, not_single, missing_dash, empty_range, invalid_suffix, invalid_start,
  invalid_end, end_before_start, Parsed, ok, err, is_suffix, is_open_ended, ◌>>=◌,
}

-- "-", "," and "bytes=".
abbrev pub dash : ℕ
dash = 45

abbrev pub comma : ℕ
comma = 44

abbrev pub unit_prefix : Bytes
unit_prefix = 98 ∷ 121 ∷ 116 ∷ 101 ∷ 115 ∷ 61 ∷ []

-- What stands behind a prefix, in either case.
unfoldable pub after_prefix : Bytes → Bytes → Option Bytes
after_prefix [] s = some s
after_prefix (p ∷ ps) [] = none
after_prefix (p ∷ ps) (c ∷ s) =
    let rest = after_prefix ps s in if lower c == lower p then rest else none

abbrev pub is_empty : Bytes → Bool
is_empty [] = true
is_empty (c ∷ s) = false

-- `none` is an absent header.
unfoldable pub range_spec : Bytes → Parsed (Option Bytes)
range_spec header =
    let trimmed = trim_space header in
    if is_empty trimmed then ok none else elim (after_prefix unit_prefix trimmed) [
      | none ↦ err unit_unsupported
      | some rest ↦
          let spec = trim_space rest in
          if is_empty spec || contains_byte comma spec then err not_single else ok (some spec)
    ]

unfoldable pub split_range_spec : Bytes → Parsed (Bytes × Bytes)
split_range_spec spec = elim (cut dash spec) [
  | none ↦ err missing_dash
  | some (left, right) ↦ ok (trim_space left, trim_space right)
]

-- `parseNonNegativeInt`: digits only, with a value in int64. A sign is no digit.
unfoldable pub parse_non_negative_int : Bytes → Option ℕ
parse_non_negative_int s =
    if is_empty s
    then none
    else elim (digits_value 0 s) [ none ↦ none | some n ↦ if ltb n half_word then some n else none ]

unfoldable pub parse_suffix_range : Bytes → Parsed HttpRange
parse_suffix_range right = elim (parse_non_negative_int right) [
  | none ↦ err invalid_suffix
  | some suffix ↦
      if ltb_ℤ (pos 0) (pos suffix)
      then ok (record { start = negsuc 0; end = pos suffix })
      else err invalid_suffix
]

unfoldable pub parse_open_ended_range : Bytes → Parsed HttpRange
parse_open_ended_range left = elim (parse_non_negative_int left) [
  | none ↦ err invalid_start
  | some start ↦ ok (record { start = pos start; end = negsuc 0 })
]

unfoldable pub parse_bounded_range : Bytes → Bytes → Parsed HttpRange
parse_bounded_range left right = elim (parse_non_negative_int left) [
  | none ↦ err invalid_start
  | some start ↦ elim (parse_non_negative_int right) [
    | none ↦ err invalid_end
    | some end ↦
        if ltb end start
        then err end_before_start
        else ok (record { start = pos start; end = pos end })
  ]
]

unfoldable pub parse_range_bounds : Bytes → Bytes → Parsed HttpRange
parse_range_bounds left right =
    if is_empty left
    then (if is_empty right then err empty_range else parse_suffix_range right)
    else if is_empty right
    then parse_open_ended_range left
    else parse_bounded_range left right

-- `ParseRange`: `none` where the header is absent.
unfoldable pub parse_range : Bytes → Parsed (Option HttpRange)
unfolding ◌>>=◌
parse_range header = range_spec header >>= λ found. elim found [
  | none ↦ ok none
  | some spec ↦
      split_range_spec spec >>= λ (left, right). parse_range_bounds left right >>= λ r. ok (some r)
]

-- `%d`.
abbrev pub format_int : ℤ → Bytes
format_int (pos n) = format_nat n
format_int (negsuc n) = dash ∷ format_nat (suc n)

-- The method `String`.
unfoldable pub string : HttpRange → Bytes
string r =
    if is_suffix r
    then unit_prefix ++ dash ∷ format_int r.end
    else if is_open_ended r
    then unit_prefix ++ format_int r.start ++ dash ∷ []
    else unit_prefix ++ format_int r.start ++ dash ∷ format_int r.end

-- "bytes ".
abbrev pub unit_blank : Bytes
unit_blank = 98 ∷ 121 ∷ 116 ∷ 101 ∷ 115 ∷ 32 ∷ []

abbrev pub slash : ℕ
slash = 47

-- The method `ContentRange`.
unfoldable pub content_range : HttpRange → ℤ → Bytes
content_range r size =
    unit_blank ++ (format_int r.start ++ dash ∷ (format_int r.end ++ slash ∷ format_int size))
