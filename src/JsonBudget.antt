-- ===== src/JsonBudget.antt =====
-- internal/jsonbudget/jsonbudget.go: the scanner that bounds the shape of JSON input before it is
-- decoded. Bytes are numbers; the counters are Go ints that never pass the length of the input, and
-- only `depth` goes below zero (an unmatched closing bracket), so it alone is a signed integer.
-- The limits are the non-negative settings of the callers. `utf8.Valid` and `json.Valid` are tests
-- passed to `check`.
pub mod Examples
pub mod Lexemes
pub mod Counters
pub mod Shape
use regimux.Prelude.{
  ℕ, ◌+◌, ◌≡◌, refl, Bool, true, false, ◌&&◌, ◌||◌, not, List, [], ◌∷◌, Option, none, some, ltb,
  ◌==◌, if◌then◌else◌,
}
use regimux.Prelude.Int.{ℤ, pos, negsuc, ◌+ℤ◌, ltb_ℤ}

pub data Error : Type 0 where
  err_limit err_invalid_json : Error

-- `none` is success.
pub record Limits : Type 0 where
  pub max_structural_markers : ℕ
  pub max_depth : ℕ
  pub max_string_bytes : ℕ
  pub max_literal_bytes : ℕ

abbrev pub default_limits : Limits
default_limits = record {
  max_structural_markers = 100_000;
  max_depth = 128;
  max_string_bytes = 33_554_432;
  max_literal_bytes = 1024;
}

pub record ShapeScanner : Type 0 where
  pub limits : Limits
  pub markers : ℕ
  pub depth : ℤ
  pub string_bytes : ℕ
  pub literal_bytes : ℕ
  pub in_string : Bool
  pub escaped : Bool

-- The zero scanner with the given limits.
abbrev pub new_scanner : Limits → ShapeScanner
new_scanner limits = record {
  limits = limits;
  markers = 0;
  depth = pos 0;
  string_bytes = 0;
  literal_bytes = 0;
  in_string = false;
  escaped = false;
}

-- The count of the byte, and the new values of the two flags.
count_json_string_byte : ℕ → Bool → Bool → ℕ × Bool × Bool
count_json_string_byte char in_string escaped =
    if escaped
    then (1, in_string, false)
    else if char == b'\\'
    then (1, in_string, true)
    else if char == b'"'
    then (0, false, escaped)
    else (1, in_string, escaped)

unfoldable pub structure_marker : ℕ → Option ℤ
structure_marker char =
    if char == b'{' || char == b'['
    then some (pos 1)
    else if char == b'}' || char == b']'
    then some (negsuc 0)
    else if char == b',' || char == b':'
    then some (pos 0)
    else none

unfoldable pub is_json_whitespace : ℕ → Bool
is_json_whitespace char = char == b' ' || char == 9 || char == 10 || char == 13

consume_string : ShapeScanner → ℕ → Option Error × ShapeScanner
unfolding count_json_string_byte
consume_string s char =
    let (count, in_string, escaped) = count_json_string_byte char s.in_string s.escaped in
    let total = s.string_bytes + count in
    (
      if ltb s.limits.max_string_bytes total then some err_limit else none,
      record s { string_bytes = total; in_string = in_string; escaped = escaped },
    )

consume_marker : ShapeScanner → ℤ → Option Error × ShapeScanner
consume_marker s depth_change =
    let markers = s.markers + 1 in
    let depth = s.depth +ℤ depth_change in
    (
      if ltb s.limits.max_structural_markers markers || ltb_ℤ (pos s.limits.max_depth) depth
          then some err_limit
          else none,
      record s { markers = markers; depth = depth; literal_bytes = 0 },
    )

-- A byte that is neither a quote nor a marker.
consume_other : ShapeScanner → ℕ → Option Error × ShapeScanner
unfolding is_json_whitespace
consume_other s char =
    if is_json_whitespace char
    then (none, record s { literal_bytes = 0 })
    else (let literal = s.literal_bytes + 1 in
        (
          if ltb s.limits.max_literal_bytes literal then some err_limit else none,
          record s { literal_bytes = literal },
        ))

unfoldable pub advance : ShapeScanner → ℕ → Option Error × ShapeScanner
unfolding consume_string consume_marker consume_other structure_marker
advance s char =
    if s.in_string
    then consume_string s char
    else if char == b'"'
    then (none, record s { in_string = true; literal_bytes = 0 })
    else elim (structure_marker char) [
      | some depth_change ↦ consume_marker s depth_change
      | none ↦ consume_other s char
    ]

-- The loop of `checkShape` from a given scanner: the first error ends it.
unfoldable pub scan : ShapeScanner → List ℕ → Option Error
unfolding advance
scan s [] = none
scan s (char ∷ rest) =
    let (failure, next) = advance s char in
    let more = scan next rest in elim failure [ some e ↦ some e | none ↦ more ]

unfoldable pub check_shape : List ℕ → Limits → Option Error
unfolding scan
check_shape bytes limits = scan (new_scanner limits) bytes

module _ (utf8_valid json_valid : List ℕ → Bool) where
  unfoldable pub check : List ℕ → Limits → Option Error
  check bytes limits = elim (check_shape bytes limits) [
    | some e ↦ some e
    | none ↦
        if not (utf8_valid bytes) || not (json_valid bytes) then some err_invalid_json else none
  ]
