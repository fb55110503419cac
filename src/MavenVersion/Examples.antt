-- ===== src/MavenVersion/Examples.antt =====
-- Concrete runs of internal/ecosystems/maven/version.go.
use regimux.Prelude.{◌≡◌, refl, [], ◌∷◌}
use regimux.Prelude.Bytes.{Bytes, bytes_eq, trim_space}
use regimux.Prelude.Order.{first, either, compare_ℕ}
use regimux.MavenVersion.{opposite, compare_maven_numbers, compare_maven_versions}
use regimux.MavenVersion.Opposite.{compare_maven_versions-opposite}
use regimux.MavenVersion.Numbers.{compare_maven_numbers-number}

-- The lower case of texts that have no capital.
abbrev as_it_is : Bytes → Bytes
as_it_is s = s

abbrev one : Bytes
one = 49 ∷ []

-- "1.0"
abbrev one_zero : Bytes
one_zero = 49 ∷ 46 ∷ 48 ∷ []

-- "1-sp"
abbrev one_sp : Bytes
one_sp = 49 ∷ 45 ∷ 115 ∷ 112 ∷ []

-- "1.0-alpha"
abbrev one_zero_alpha : Bytes
one_zero_alpha = 49 ∷ 46 ∷ 48 ∷ 45 ∷ 97 ∷ 108 ∷ 112 ∷ 104 ∷ 97 ∷ []

-- A zero at the end does not count.
one-one_zero : compare_maven_versions as_it_is one one_zero ≡ either
unfolding compare_maven_versions trim_space bytes_eq
one-one_zero = refl

-- Three versions of which each is before the next one, and the last before the first.
one-one_sp : compare_maven_versions as_it_is one one_sp ≡ first
unfolding compare_maven_versions trim_space bytes_eq
one-one_sp = refl

one_sp-one_zero_alpha : compare_maven_versions as_it_is one_sp one_zero_alpha ≡ first
unfolding compare_maven_versions trim_space bytes_eq
one_sp-one_zero_alpha = refl

one_zero_alpha-one : compare_maven_versions as_it_is one_zero_alpha one ≡ first
unfolding compare_maven_versions trim_space bytes_eq
one_zero_alpha-one = refl

compare_maven_versions-opposite_example :
    compare_maven_versions as_it_is one one_sp
    ≡ opposite (compare_maven_versions as_it_is one_sp one)
compare_maven_versions-opposite_example = compare_maven_versions-opposite as_it_is one one_sp

-- "007" and "10".
compare_maven_numbers-number_example :
    compare_maven_numbers (48 ∷ 48 ∷ 55 ∷ []) (49 ∷ 48 ∷ []) ≡ compare_ℕ 7 10
compare_maven_numbers-number_example =
    compare_maven_numbers-number (48 ∷ 48 ∷ 55 ∷ []) (49 ∷ 48 ∷ []) (refl, (refl, (refl, tt)))
      (refl, (refl, tt))
