-- ===== src/MavenVersion/Numbers.antt =====
-- The numbers of internal/ecosystems/maven/version.go, which are compared as text of any length.
use regimux.Prelude.{
  ℕ, ◌+◌, ◌-◌, ◌*◌, ◌≤◌, ◌<◌, ◌≡◌, ◌==◌, refl, ap, ◌∙◌, true, false, [], ◌∷◌, ltb, length, arith,
  if◌then◌else◌,
}
use regimux.Prelude.Bytes.{Bytes, is_digit}
use regimux.Prelude.Order.{first, second, compare_ℕ}
use regimux.MavenVersion.{compare_bytes, trim_zeros, compare_maven_numbers}

-- The value of the digits behind the value `n`.
abbrev pub number : ℕ → Bytes → ℕ
number n [] = n
number n (c ∷ s) = number (n * 10 + (c - 48)) s

abbrev pub AreDigits : Bytes → Type 0
AreDigits [] = Unit {0}
AreDigits (c ∷ s) = (is_digit c ≡ true) × AreDigits s

-- A smaller value before no more digits stays smaller.
below :
    (s t : Bytes) (a b : ℕ) → a < b → length s ≤ length t → AreDigits s → number a s < number b t
below [] [] a b h l d = h
below [] (e ∷ t) a b h l d = below [] t a (b * 10 + (e - 48)) (omega arith) (omega arith) tt
below (c ∷ s) [] a b h l d = absurd (omega arith)
below (c ∷ s) (e ∷ t) a b h l (p, d) =
    below s t (a * 10 + (c - 48)) (b * 10 + (e - 48)) (ground arith) (omega arith) d

compare_ℕ-first : (m n : ℕ) → m < n → compare_ℕ m n ≡ first
compare_ℕ-first m n h = ground arith

compare_ℕ-second : (m n : ℕ) → n < m → compare_ℕ m n ≡ second
compare_ℕ-second m n h = ground arith

-- Digits are compared as their values, behind one value on both sides.
same_length :
    (s t : Bytes) (n : ℕ)
    → length s ≡ length t
    → AreDigits s
    → AreDigits t
    → compare_bytes s t ≡ compare_ℕ (number n s) (number n t)
unfolding compare_bytes
same_length [] [] n l d e = ground arith
same_length [] (c ∷ t) n l d e = absurd (omega arith)
same_length (c ∷ s) [] n l d e = absurd (omega arith)
same_length (c ∷ s) (g ∷ t) n l (p, d) (q, e) =
    ground (arith, first_case, second_case, same_length s t (n * 10 + (c - 48)) (omega arith) d e)
  where
    lengths : length s ≡ length t
    lengths = omega arith

    first_case :
        c < g → compare_ℕ (number (n * 10 + (c - 48)) s) (number (n * 10 + (g - 48)) t) ≡ first
    first_case h =
        compare_ℕ-first (number (n * 10 + (c - 48)) s) (number (n * 10 + (g - 48)) t)
          (below s t (n * 10 + (c - 48)) (n * 10 + (g - 48)) (ground arith) (omega arith) d)

    second_case :
        g < c → compare_ℕ (number (n * 10 + (c - 48)) s) (number (n * 10 + (g - 48)) t) ≡ second
    second_case h =
        compare_ℕ-second (number (n * 10 + (c - 48)) s) (number (n * 10 + (g - 48)) t)
          (below t s (n * 10 + (g - 48)) (n * 10 + (c - 48)) (ground arith) (omega arith) e)

AreDigits-trim_zeros : (s : Bytes) → AreDigits s → AreDigits (trim_zeros s)
unfolding trim_zeros
AreDigits-trim_zeros [] d = d
AreDigits-trim_zeros (c ∷ s) (p, d) =
    elim (c == 48) as (λ b. AreDigits (if b then trim_zeros s else c ∷ s)) [
      | true ↦ AreDigits-trim_zeros s d
      | false ↦ (p, d)
    ]

number-trim_zeros : (s : Bytes) → number 0 (trim_zeros s) ≡ number 0 s
unfolding trim_zeros
number-trim_zeros [] = refl
number-trim_zeros (c ∷ s) = ground (arith, number-trim_zeros s, zero_digit)
  where
    zero_digit : c ≡ 48 → number (c - 48) s ≡ number 0 s
    zero_digit h = ap (λ x. number x s) (omega arith)

-- What is left of digits whose zeros are trimmed is none, or starts with a digit that is not zero.
abbrev pub IsTrimmed : Bytes → Type 0
IsTrimmed [] = Unit {0}
IsTrimmed (c ∷ s) = 0 < c - 48

IsTrimmed-trim_zeros : (s : Bytes) → AreDigits s → IsTrimmed (trim_zeros s)
unfolding trim_zeros
IsTrimmed-trim_zeros [] d = tt
IsTrimmed-trim_zeros (c ∷ s) (p, d) =
    (elim (c == 48) as (λ b. c == 48 ≡ b → IsTrimmed (if b then trim_zeros s else c ∷ s)) [
      | true ↦ λ e. IsTrimmed-trim_zeros s d
      | false ↦ λ e. ground arith
    ])
      refl

-- A shorter number is smaller where the longer one starts with a digit that is not zero.
shorter : (s t : Bytes) → length s < length t → AreDigits s → IsTrimmed t → number 0 s < number 0 t
shorter s [] h d i = absurd (omega arith)
shorter s (c ∷ t) h d i = below s t 0 (0 * 10 + (c - 48)) (omega arith) (omega arith) d

trimmed_numbers :
    (s t : Bytes)
    → AreDigits s
    → AreDigits t
    → IsTrimmed s
    → IsTrimmed t
    → (if length s == length t
        then compare_bytes s t
        else if ltb (length s) (length t)
        then first
        else second)
      ≡ compare_ℕ (number 0 s) (number 0 t)
trimmed_numbers s t d e i j = ground (arith, shorter s t, shorter t s, same_length s t 0)

-- Two texts of digits, of any length and with any zeros in front, are compared as the numbers that
-- they write.
pub compare_maven_numbers-number :
    (left right : Bytes)
    → AreDigits left
    → AreDigits right
    → compare_maven_numbers left right ≡ compare_ℕ (number 0 left) (number 0 right)
unfolding compare_maven_numbers
compare_maven_numbers-number left right d e =
    trimmed_numbers (trim_zeros left) (trim_zeros right) (AreDigits-trim_zeros left d)
      (AreDigits-trim_zeros right e) (IsTrimmed-trim_zeros left d) (IsTrimmed-trim_zeros right e)
    ∙ ap (λ n. compare_ℕ n (number 0 (trim_zeros right))) (number-trim_zeros left)
    ∙ ap (compare_ℕ (number 0 left)) (number-trim_zeros right)
