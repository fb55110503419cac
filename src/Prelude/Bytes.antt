-- ===== src/Prelude/Bytes.antt =====
-- Go's strings as lists of bytes: the space that `strings.TrimSpace` removes, which is that of Unicode
-- in UTF-8, decimal numerals, and `strings.Cut` at one byte.
use regimux.Prelude.{
  arith, true, ◌≡◌, ◌↔◌, ℕ, zero, suc, ◌+◌, ◌-◌, ◌*◌, ◌/◌, ◌%◌, Bool, false, ◌&&◌, ◌||◌, List, [],
  ◌∷◌, Option, none, some, ltb, leb, ◌==◌, if◌then◌else◌,
}

abbrev pub Bytes : Type 0
Bytes = List ℕ

abbrev pub is_empty : Bytes → Bool
is_empty [] = true
is_empty (c ∷ s) = false

-- Tab to carriage return, and the blank.
abbrev pub is_ascii_space : ℕ → Bool
is_ascii_space c = (leb 9 c && leb c 13) || c == 32

-- U+0085, U+00A0.
abbrev pub is_space_2 : ℕ → ℕ → Bool
is_space_2 a b = a == 194 && (b == 133 || b == 160)

-- U+1680, U+2000 to U+200A, U+2028, U+2029, U+202F, U+205F, U+3000.
abbrev pub is_space_3 : ℕ → ℕ → ℕ → Bool
is_space_3 a b c =
    (a == 225 && b == 154 && c == 128)
    || (a == 226 && b == 128 && ((leb 128 c && leb c 138) || c == 168 || c == 169 || c == 175))
    || (a == 226 && b == 129 && c == 159)
    || (a == 227 && b == 128 && c == 128)

-- How many bytes of white space stand first; the answer is at most 3.
unfoldable pub space_width : Bytes → ℕ
space_width [] = 0
space_width (a ∷ []) = if is_ascii_space a then 1 else 0
space_width (a ∷ b ∷ []) = if is_ascii_space a then 1 else if is_space_2 a b then 2 else 0
space_width (a ∷ b ∷ c ∷ s) =
    if is_ascii_space a then 1 else if is_space_2 a b then 2 else if is_space_3 a b c then 3 else 0

-- The same for the reversed string, whose last byte stands first.
unfoldable pub space_width_back : Bytes → ℕ
space_width_back [] = 0
space_width_back (a ∷ []) = if is_ascii_space a then 1 else 0
space_width_back (a ∷ b ∷ []) = if is_ascii_space a then 1 else if is_space_2 b a then 2 else 0
space_width_back (a ∷ b ∷ c ∷ s) =
    if is_ascii_space a then 1 else if is_space_2 b a then 2 else if is_space_3 c b a then 3 else 0

-- Spaces go as long as one stands first; `n` bytes of the current one are still to go.
unfoldable pub strip : (Bytes → ℕ) → ℕ → Bytes → Bytes
strip width n [] = []
strip width (suc n) (c ∷ s) = strip width n s
strip width zero (c ∷ s) = elim (width (c ∷ s)) [ zero ↦ c ∷ s | suc n ↦ strip width n s ]

unfoldable pub reverse_onto : Bytes → Bytes → Bytes
reverse_onto [] t = t
reverse_onto (c ∷ s) t = reverse_onto s (c ∷ t)

unfoldable pub trim_space : Bytes → Bytes
unfolding strip reverse_onto space_width space_width_back
trim_space s = reverse_onto (strip space_width_back 0 (reverse_onto (strip space_width 0 s) [])) []

abbrev pub is_digit : ℕ → Bool
is_digit c = leb 48 c && leb c 57

-- The value of a string of decimal digits behind the value `n`.
unfoldable pub digits_value : ℕ → Bytes → Option ℕ
digits_value n [] = some n
digits_value n (c ∷ s) =
    let rest = digits_value (n * 10 + (c - 48)) s in if is_digit c then rest else none

-- The decimal numeral of a number below 10 ^ fuel, written before the string `t`.
unfoldable pub write_digits : ℕ → ℕ → Bytes → Bytes
write_digits zero n t = t
write_digits (suc fuel) n t =
    let rest = write_digits fuel (n / 10) ((48 + n % 10) ∷ t) in
    if ltb n 10 then (48 + n) ∷ t else rest

-- `strconv.FormatInt` for a number of at most 19 digits.
unfoldable pub format_nat : ℕ → Bytes
unfolding write_digits
format_nat n = write_digits 20 n []

-- `strings.Cut` at one byte.
unfoldable pub cut : ℕ → Bytes → Option (Bytes × Bytes)
cut sep [] = none
cut sep (c ∷ s) =
    if c == sep
    then some ([], s)
    else elim (cut sep s) [ none ↦ none | some (left, right) ↦ some (c ∷ left, right) ]

-- The letters of ASCII, lower case.
abbrev pub lower : ℕ → ℕ
lower c = if leb 65 c && leb c 90 then c + 32 else c

unfoldable pub contains_byte : ℕ → Bytes → Bool
contains_byte b [] = false
contains_byte b (c ∷ s) = c == b || contains_byte b s

unfoldable pub bytes_eq : Bytes → Bytes → Bool
bytes_eq [] [] = true
bytes_eq [] (c ∷ t) = false
bytes_eq (c ∷ s) [] = false
bytes_eq (c ∷ s) (d ∷ t) = c == d && bytes_eq s t

pub bytes_eq_iff : (s t : Bytes) → bytes_eq s t ≡ true ↔ s ≡ t
unfolding bytes_eq
bytes_eq_iff [] [] = ground arith
bytes_eq_iff [] (c ∷ t) = ground arith
bytes_eq_iff (c ∷ s) [] = ground arith
bytes_eq_iff (c ∷ s) (d ∷ t) = ground (arith, bytes_eq_iff s t)

-- `strings.TrimRight` for one byte.
unfoldable pub trim_right : ℕ → Bytes → Bytes
trim_right b [] = []
trim_right b (c ∷ s) = elim (trim_right b s) [
  | [] ↦ if c == b then [] else c ∷ []
  | d ∷ t ↦ c ∷ d ∷ t
]
