-- ===== src/MavenVersion/Opposite.antt =====
-- internal/ecosystems/maven/version.go from both sides.
use regimux.Prelude.{◌≡◌, refl, List, [], ◌∷◌, arith}
use regimux.Prelude.Bytes.{Bytes}
use regimux.MavenVersion.{
  MavenVersionToken, opposite, compare_bytes, trim_zeros, canonical_maven_qualifier,
  compare_maven_numbers, compare_maven_qualifiers, compare_maven_version_tokens,
  normalize_maven_version_tokens, tokenize_maven_version, compare_from, compare_maven_versions,
}

bytes_opposite : (s t : Bytes) → compare_bytes s t ≡ opposite (compare_bytes t s)
unfolding compare_bytes
bytes_opposite [] [] = refl
bytes_opposite [] (d ∷ t) = refl
bytes_opposite (c ∷ s) [] = refl
bytes_opposite (c ∷ s) (d ∷ t) = ground (arith, bytes_opposite s t)

numbers_opposite : (s t : Bytes) → compare_maven_numbers s t ≡ opposite (compare_maven_numbers t s)
unfolding compare_maven_numbers
numbers_opposite s t = ground (arith, bytes_opposite (trim_zeros s) (trim_zeros t))

qualifiers_opposite :
    (s t : Bytes) → compare_maven_qualifiers s t ≡ opposite (compare_maven_qualifiers t s)
unfolding compare_maven_qualifiers
qualifiers_opposite s t =
    ground (arith, bytes_opposite (canonical_maven_qualifier s) (canonical_maven_qualifier t))

tokens_opposite :
    (l r : MavenVersionToken)
    → compare_maven_version_tokens l r ≡ opposite (compare_maven_version_tokens r l)
unfolding compare_maven_version_tokens
tokens_opposite l r =
    ground (arith, numbers_opposite l.value r.value, qualifiers_opposite l.value r.value)

compare_from-opposite :
    (ls rs : List MavenVersionToken) → compare_from ls rs ≡ opposite (compare_from rs ls)
unfolding compare_from
compare_from-opposite [] [] = refl
compare_from-opposite [] (r ∷ rs) = ground (arith, compare_from-opposite [] rs)
compare_from-opposite (l ∷ ls) [] = ground (arith, compare_from-opposite ls [])
compare_from-opposite (l ∷ ls) (r ∷ rs) =
    ground (arith, tokens_opposite l r, compare_from-opposite ls rs)

-- Comparing two versions of any texts the other way round gives the opposite result, whatever the
-- lower case of a text is.
pub compare_maven_versions-opposite :
    (to_lower : Bytes → Bytes) (left right : Bytes)
    → compare_maven_versions to_lower left right
      ≡ opposite (compare_maven_versions to_lower right left)
unfolding compare_maven_versions
compare_maven_versions-opposite to_lower left right =
    compare_from-opposite (normalize_maven_version_tokens (tokenize_maven_version to_lower left))
      (normalize_maven_version_tokens (tokenize_maven_version to_lower right))
