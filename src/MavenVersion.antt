-- ===== src/MavenVersion.antt =====
-- internal/ecosystems/maven/version.go: the order of Maven versions. -1 is `first`, 1 is `second` and 0
-- is `either`; `to_lower` stands for `strings.ToLower`.
pub mod Opposite
pub mod Numbers
pub mod Examples
use regimux.Prelude.{
  ℕ, zero, suc, ◌≡◌, ◌==◌, Bool, true, false, ◌&&◌, ◌||◌, not, List, [], ◌∷◌, ◌++◌, Option, none,
  some, ltb, leb, length, if◌then◌else◌,
}
use regimux.Prelude.Bytes.{Bytes, bytes_eq, is_digit, is_empty, trim_space}
use regimux.Prelude.Order.{Compared, first, second, either, compare_ℕ}

pub record MavenVersionToken : Type 0 where
  pub value : Bytes
  pub numeric : Bool

-- The minus of Go's comparison results.
abbrev pub opposite : Compared → Compared
opposite first = second
opposite second = first
opposite either = either

-- `strings.Compare`.
unfoldable pub compare_bytes : Bytes → Bytes → Compared
compare_bytes [] [] = either
compare_bytes [] (d ∷ t) = first
compare_bytes (c ∷ s) [] = second
compare_bytes (c ∷ s) (d ∷ t) =
    let rest = compare_bytes s t in
    elim (compare_ℕ c d) [ first ↦ first | second ↦ second | either ↦ rest ]

-- '.', '-' and '_'.
unfoldable pub is_maven_version_separator : ℕ → Bool
is_maven_version_separator c = c == 46 || c == 45 || c == 95

unfoldable pub append_maven_version_token : List MavenVersionToken → Bytes → List MavenVersionToken
append_maven_version_token tokens [] = tokens
append_maven_version_token tokens (c ∷ s) =
    tokens ++ record { value = c ∷ s; numeric = is_digit c } ∷ []

-- The loop of `tokenizeMavenVersion`: `token` is the text from `start` on, and `last` the byte before
-- this one where that text is not empty.
unfoldable pub tokenize_from : List MavenVersionToken → Bytes → ℕ → Bytes → List MavenVersionToken
unfolding append_maven_version_token is_maven_version_separator
tokenize_from tokens token last [] = append_maven_version_token tokens token
tokenize_from tokens token last (c ∷ s) =
    if is_maven_version_separator c
    then tokenize_from (append_maven_version_token tokens token) [] c s
    else if not (is_empty token) && not (same (is_digit c) (is_digit last))
    then tokenize_from (append_maven_version_token tokens token) (c ∷ []) c s
    else tokenize_from tokens (token ++ c ∷ []) c s
  where
    same : Bool → Bool → Bool
    same true b = b
    same false b = not b

module _ (to_lower : Bytes → Bytes) where
  unfoldable pub tokenize_maven_version : Bytes → List MavenVersionToken
  unfolding tokenize_from
  tokenize_maven_version version = tokenize_from [] [] 0 (to_lower (trim_space version))

-- "alpha", "beta", "milestone", "rc", "snapshot" and "sp", and what stands for them and for "".
abbrev alpha : Bytes
alpha = 97 ∷ 108 ∷ 112 ∷ 104 ∷ 97 ∷ []

abbrev beta : Bytes
beta = 98 ∷ 101 ∷ 116 ∷ 97 ∷ []

abbrev milestone : Bytes
milestone = 109 ∷ 105 ∷ 108 ∷ 101 ∷ 115 ∷ 116 ∷ 111 ∷ 110 ∷ 101 ∷ []

abbrev rc : Bytes
rc = 114 ∷ 99 ∷ []

abbrev snapshot : Bytes
snapshot = 115 ∷ 110 ∷ 97 ∷ 112 ∷ 115 ∷ 104 ∷ 111 ∷ 116 ∷ []

abbrev sp : Bytes
sp = 115 ∷ 112 ∷ []

abbrev ga : Bytes
ga = 103 ∷ 97 ∷ []

abbrev final : Bytes
final = 102 ∷ 105 ∷ 110 ∷ 97 ∷ 108 ∷ []

abbrev release : Bytes
release = 114 ∷ 101 ∷ 108 ∷ 101 ∷ 97 ∷ 115 ∷ 101 ∷ []

unfoldable pub canonical_maven_qualifier : Bytes → Bytes
canonical_maven_qualifier q =
    if bytes_eq q (97 ∷ [])
    then alpha
    else if bytes_eq q (98 ∷ [])
    then beta
    else if bytes_eq q (109 ∷ [])
    then milestone
    else if bytes_eq q (99 ∷ 114 ∷ [])
    then rc
    else if bytes_eq q ga || bytes_eq q final || bytes_eq q release
    then []
    else q

unfoldable pub maven_qualifier_rank : Bytes → ℕ
maven_qualifier_rank q =
    if bytes_eq q alpha
    then 0
    else if bytes_eq q beta
    then 1
    else if bytes_eq q milestone
    then 2
    else if bytes_eq q rc
    then 3
    else if bytes_eq q snapshot
    then 4
    else if is_empty q
    then 5
    else if bytes_eq q sp
    then 6
    else 7

-- `strings.TrimLeft` for '0', which is 48.
unfoldable pub trim_zeros : Bytes → Bytes
trim_zeros [] = []
trim_zeros (c ∷ s) = let rest = trim_zeros s in if c == 48 then rest else c ∷ s

-- Nothing is left of it where zeros are trimmed at both ends.
unfoldable pub is_zero_maven_number : Bytes → Bool
is_zero_maven_number [] = true
is_zero_maven_number (c ∷ s) = c == 48 && is_zero_maven_number s

unfoldable pub compare_maven_numbers : Bytes → Bytes → Compared
unfolding trim_zeros compare_bytes
compare_maven_numbers left right =
    let l = trim_zeros left in
    let r = trim_zeros right in
    if length l == length r
    then compare_bytes l r
    else if ltb (length l) (length r)
    then first
    else second

unfoldable pub compare_maven_qualifiers : Bytes → Bytes → Compared
unfolding canonical_maven_qualifier maven_qualifier_rank compare_bytes
compare_maven_qualifiers left right =
    let l = canonical_maven_qualifier left in
    let r = canonical_maven_qualifier right in
    if maven_qualifier_rank l == maven_qualifier_rank r
    then compare_bytes l r
    else if ltb (maven_qualifier_rank l) (maven_qualifier_rank r)
    then first
    else second

unfoldable pub compare_maven_version_tokens : MavenVersionToken → MavenVersionToken → Compared
unfolding compare_maven_numbers compare_maven_qualifiers
compare_maven_version_tokens left right =
    if left.numeric && right.numeric
    then compare_maven_numbers left.value right.value
    else if left.numeric
    then second
    else if right.numeric
    then first
    else compare_maven_qualifiers left.value right.value

unfoldable pub compare_missing_maven_token : MavenVersionToken → Compared
unfolding is_zero_maven_number compare_maven_qualifiers
compare_missing_maven_token token =
    if token.numeric
    then (if is_zero_maven_number token.value then either else first)
    else compare_maven_qualifiers [] token.value

unfoldable pub normalize_maven_version_tokens : List MavenVersionToken → List MavenVersionToken
unfolding is_zero_maven_number canonical_maven_qualifier
normalize_maven_version_tokens [] = []
normalize_maven_version_tokens (t ∷ ts) = elim (normalize_maven_version_tokens ts) [
  | u ∷ us ↦ t ∷ u ∷ us
  | [] ↦
      if (if t.numeric
        then is_zero_maven_number t.value
        else is_empty (canonical_maven_qualifier t.value))
      then []
      else t ∷ []
]

-- The loop of `compareMavenVersions` from an index on, with `compareMavenVersionTokenAt`.
unfoldable pub compare_from : List MavenVersionToken → List MavenVersionToken → Compared
unfolding compare_missing_maven_token compare_maven_version_tokens
compare_from [] [] = either
compare_from [] (r ∷ rs) =
    let rest = compare_from [] rs in
    elim (compare_missing_maven_token r) [ first ↦ first | second ↦ second | either ↦ rest ]
compare_from (l ∷ ls) [] =
    let rest = compare_from ls [] in
    elim (opposite (compare_missing_maven_token l)) [
      | first ↦ first
      | second ↦ second
      | either ↦ rest
    ]
compare_from (l ∷ ls) (r ∷ rs) =
    let rest = compare_from ls rs in
    elim (compare_maven_version_tokens l r) [ first ↦ first | second ↦ second | either ↦ rest ]

module _ (to_lower : Bytes → Bytes) where
  unfoldable pub compare_maven_versions : Bytes → Bytes → Compared
  unfolding compare_from normalize_maven_version_tokens tokenize_maven_version
  compare_maven_versions left right =
      compare_from (normalize_maven_version_tokens (tokenize_maven_version to_lower left))
        (normalize_maven_version_tokens (tokenize_maven_version to_lower right))
