-- ===== src/ByteRange/RoundTrip.antt =====
-- The parser of internal/store/object/range.go reads back what the method `String` writes.
use regimux.Prelude.{
  ℕ, suc, zero, ◌+◌, ◌*◌, ◌/◌, ◌%◌, ◌≤◌, ◌<◌, ◌≡◌, refl, ap, false, [], ◌∷◌, ◌++◌, some, arith,
}
use regimux.Prelude.Int.{half_word}
use regimux.Prelude.Bytes.{
  Bytes, trim_space, digits_value, format_nat, write_digits, cut, contains_byte, strip, space_width,
  space_width_back, reverse_onto,
}
use regimux.ByteRange.{HttpRange, ok, is_suffix, is_open_ended, ◌>>=◌}
use regimux.ByteRange.Text.{
  unit_prefix, dash, comma, parse_range, string, after_prefix, range_spec, is_empty,
  split_range_spec, parse_non_negative_int, parse_range_bounds, parse_suffix_range,
  parse_open_ended_range, parse_bounded_range,
}
use regimux.ByteRange.Coverage.{Requested, suffix, open_ended, bounded, range_of, IsRequest}

-- Visible ASCII: no byte of it takes part in white space.
abbrev pub IsVisible : Bytes → Type 0
IsVisible [] = Unit {0}
IsVisible (c ∷ s) = (33 ≤ c) × (c ≤ 126) × IsVisible s

pub IsVisible-append : (s t : Bytes) → IsVisible s → IsVisible t → IsVisible (s ++ t)
IsVisible-append [] t h k = k
IsVisible-append (c ∷ s) t (a, b, h) k = (a, b, IsVisible-append s t h k)

strip_visible :
    (s : Bytes) → IsVisible s → (strip space_width 0 s ≡ s) × (strip space_width_back 0 s ≡ s)
unfolding strip space_width space_width_back
strip_visible [] h = (refl, refl)
strip_visible (a ∷ []) h = ground arith
strip_visible (a ∷ b ∷ []) h = ground arith
strip_visible (a ∷ b ∷ c ∷ s) h = ground arith

reverse_onto-IsVisible : (s t : Bytes) → IsVisible s → IsVisible t → IsVisible (reverse_onto s t)
unfolding reverse_onto
reverse_onto-IsVisible [] t h k = k
reverse_onto-IsVisible (c ∷ s) t (a, b, h) k = reverse_onto-IsVisible s (c ∷ t) h (a, b, k)

pub reverse_onto-reverse_onto :
    (s t u : Bytes) → reverse_onto (reverse_onto s t) u ≡ reverse_onto t (s ++ u)
unfolding reverse_onto
reverse_onto-reverse_onto [] t u = refl
reverse_onto-reverse_onto (c ∷ s) t u = reverse_onto-reverse_onto s (c ∷ t) u

pub append_nil : (s : Bytes) → s ++ [] ≡ s
append_nil [] = refl
append_nil (c ∷ s) = ap (λ x. c ∷ x) (append_nil s)

pub trim_space_visible : (s : Bytes) → IsVisible s → trim_space s ≡ s
unfolding trim_space reverse_onto
trim_space_visible s h =
    let back = (strip_visible (reverse_onto s []) (reverse_onto-IsVisible s [] h tt)).1 in
    rw ((strip_visible s h).0, back, reverse_onto-reverse_onto s [] []) (append_nil s)

abbrev pub AreDigits : Bytes → Type 0
AreDigits [] = Unit {0}
AreDigits (c ∷ s) = (48 ≤ c) × (c ≤ 57) × AreDigits s

pub AreDigits-IsVisible : (s : Bytes) → AreDigits s → IsVisible s
AreDigits-IsVisible [] h = tt
AreDigits-IsVisible (c ∷ s) (a, b, h) = (omega arith, omega arith, AreDigits-IsVisible s h)

write_digits-AreDigits : (fuel n : ℕ) (t : Bytes) → AreDigits t → AreDigits (write_digits fuel n t)
unfolding write_digits
write_digits-AreDigits zero n t h = h
write_digits-AreDigits (suc fuel) n t h =
    ground (
      arith,
      write_digits-AreDigits fuel (n / 10) ((48 + n % 10) ∷ t) (omega arith, omega arith, h),
    )

-- 10 ^ fuel.
abbrev ten : ℕ → ℕ
ten zero = 1
ten (suc fuel) = 10 * ten fuel

tenth : (n m : ℕ) → n < 10 * m → n / 10 < m
tenth n m h = omega arith

-- Writing a number in front of digits shifts it by their count.
digits_value-write_digits :
    (fuel n : ℕ) (t : Bytes)
    → n < ten fuel
    → digits_value 0 (write_digits fuel n t) ≡ digits_value n t
unfolding write_digits digits_value
digits_value-write_digits zero n t h = ground arith
digits_value-write_digits (suc fuel) n t h =
    ground
      (arith, digits_value-write_digits fuel (n / 10) ((48 + n % 10) ∷ t) (tenth n (ten fuel) h))

write_digits-nonempty :
    (fuel n : ℕ) (t : Bytes) → is_empty t ≡ false → is_empty (write_digits fuel n t) ≡ false
unfolding write_digits
write_digits-nonempty zero n t h = h
write_digits-nonempty (suc fuel) n t h =
    ground (arith, write_digits-nonempty fuel (n / 10) ((48 + n % 10) ∷ t) refl)

pub format_nat-nonempty : (n : ℕ) → is_empty (format_nat n) ≡ false
unfolding format_nat write_digits
format_nat-nonempty n = ground (arith, write_digits-nonempty 19 (n / 10) ((48 + n % 10) ∷ []) refl)

pub format_nat-AreDigits : (n : ℕ) → AreDigits (format_nat n)
unfolding format_nat
format_nat-AreDigits n = write_digits-AreDigits 20 n [] tt

format_value : (n : ℕ) → n < half_word → digits_value 0 (format_nat n) ≡ some n
unfolding format_nat digits_value
format_value n h = digits_value-write_digits 20 n [] (omega arith)

pub parse_non_negative_int-format_nat :
    (n : ℕ) → n < half_word → parse_non_negative_int (format_nat n) ≡ some n
unfolding parse_non_negative_int
parse_non_negative_int-format_nat n h = ground (arith, format_nat-nonempty n, format_value n h)

cut_digits : (s t : Bytes) → AreDigits s → cut dash (s ++ dash ∷ t) ≡ some (s, t)
unfolding cut
cut_digits [] t h = refl
cut_digits (c ∷ s) t (a, b, h) = ground (arith, cut_digits s t h)

contains_byte_visible :
    (s t : Bytes) → AreDigits s → AreDigits t → contains_byte comma (s ++ dash ∷ t) ≡ false
unfolding contains_byte
contains_byte_visible [] [] h k = refl
contains_byte_visible [] (c ∷ t) h (a, b, k) = ground (arith, contains_byte_visible [] t h k)
contains_byte_visible (c ∷ s) t (a, b, h) k = ground (arith, contains_byte_visible s t h k)

body_nonempty : (s t : Bytes) → is_empty (s ++ dash ∷ t) ≡ false
body_nonempty [] t = refl
body_nonempty (c ∷ s) t = refl

range_spec_lem :
    (body : Bytes)
    → IsVisible body
    → is_empty body ≡ false
    → contains_byte comma body ≡ false
    → range_spec (unit_prefix ++ body) ≡ ok (some body)
unfolding range_spec after_prefix
range_spec_lem body h e k =
    rw
      (
        trim_space_visible (unit_prefix ++ body)
            (IsVisible-append unit_prefix body (omega arith) h),
        trim_space_visible body h,
        e,
        k,
      )
      refl

split_range_spec_lem :
    (s t : Bytes) → AreDigits s → AreDigits t → split_range_spec (s ++ dash ∷ t) ≡ ok (s, t)
unfolding split_range_spec
split_range_spec_lem s t h k = ground (
  arith,
  cut_digits s t h,
  trim_space_visible s (AreDigits-IsVisible s h),
  trim_space_visible t (AreDigits-IsVisible t k),
)

-- A header of two strings of digits is cut into them.
pub parse_range_digits :
    (s t : Bytes)
    → AreDigits s
    → AreDigits t
    → (r : HttpRange) → parse_range_bounds s t ≡ ok r
    → parse_range (unit_prefix ++ (s ++ dash ∷ t)) ≡ ok (some r)
unfolding parse_range ◌>>=◌
parse_range_digits s t h k r e =
    let visible : IsVisible (s ++ dash ∷ t) =
      IsVisible-append s (dash ∷ t) (AreDigits-IsVisible s h)
        (omega arith, omega arith, AreDigits-IsVisible t k) in
    rw
      (
        range_spec_lem (s ++ dash ∷ t) visible (body_nonempty s t) (contains_byte_visible s t h k),
        split_range_spec_lem s t h k,
        e,
      )
      refl

-- The two numerals that stand around the dash.
abbrev around : Requested → Bytes × Bytes
around (suffix n) = ([], format_nat n)
around (open_ended a) = (format_nat a, [])
around (bounded a b) = (format_nat a, format_nat b)

string_lem :
    (q : Requested)
    → IsRequest q
    → string (range_of q) ≡ unit_prefix ++ ((around q).0 ++ dash ∷ (around q).1)
unfolding string is_suffix is_open_ended
string_lem (suffix n) h = ground arith
string_lem (open_ended a) h = ground arith
string_lem (bounded a b) h = ground arith

around-AreDigits : (q : Requested) → AreDigits (around q).0 × AreDigits (around q).1
around-AreDigits (suffix n) = (tt, format_nat-AreDigits n)
around-AreDigits (open_ended a) = (format_nat-AreDigits a, tt)
around-AreDigits (bounded a b) = (format_nat-AreDigits a, format_nat-AreDigits b)

pub bounds_lem :
    (q : Requested) → IsRequest q → parse_range_bounds (around q).0 (around q).1 ≡ ok (range_of q)
unfolding parse_range_bounds parse_suffix_range parse_open_ended_range parse_bounded_range
bounds_lem (suffix n) (h, k) =
    ground (arith, format_nat-nonempty n, parse_non_negative_int-format_nat n k)
bounds_lem (open_ended a) h =
    ground (arith, format_nat-nonempty a, parse_non_negative_int-format_nat a h)
bounds_lem (bounded a b) (h, k) = ground (
  arith,
  format_nat-nonempty a,
  format_nat-nonempty b,
  parse_non_negative_int-format_nat a (omega arith),
  parse_non_negative_int-format_nat b k,
)

-- For every range that the parser gives, with numbers of an int64: the parser reads it back from what
-- `String` writes.
pub parse_range-string :
    (q : Requested) → IsRequest q → parse_range (string (range_of q)) ≡ ok (some (range_of q))
parse_range-string q h =
    rw (string_lem q h)
      (parse_range_digits _ _ (around-AreDigits q).0 (around-AreDigits q).1 _ (bounds_lem q h))
