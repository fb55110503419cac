-- ===== src/Transfer/ContentRange.antt =====
-- internal/transfer/range.go reads back the Content-Range that internal/store/object/range.go writes.
use regimux.Prelude.{ℕ, ◌≤◌, ◌<◌, ◌≡◌, refl, ◌∙◌, false, [], ◌∷◌, ◌++◌, some, arith}
use regimux.Prelude.Int.{pos, half_word}
use regimux.Prelude.Bytes.{
  Bytes, trim_space, cut, strip, space_width, space_width_back, reverse_onto, format_nat,
}
use regimux.ByteRange.{is_suffix, is_open_ended}
use regimux.ByteRange.Text.{unit_blank, slash, dash, content_range, is_empty, after_prefix}
use regimux.ByteRange.Coverage.{bounded, range_of}
use regimux.ByteRange.RoundTrip.{
  IsVisible, AreDigits, IsVisible-append, AreDigits-IsVisible, reverse_onto-reverse_onto,
  append_nil, trim_space_visible, format_nat-AreDigits, parse_non_negative_int-format_nat,
  bounds_lem, parse_range_digits,
}
use regimux.Transfer.{
  split_partial_content_range, parse_partial_range_interval, parse_range_total, is_star,
  parse_partial_content_range, folds_to_bytes,
}

-- Only the first byte decides where nothing is stripped.
strip_first :
    (c : ℕ) (s : Bytes)
    → 33 ≤ c
    → c ≤ 126
    → (strip space_width 0 (c ∷ s) ≡ c ∷ s) × (strip space_width_back 0 (c ∷ s) ≡ c ∷ s)
unfolding strip space_width space_width_back
strip_first c [] h k = ground arith
strip_first c (a ∷ []) h k = ground arith
strip_first c (a ∷ b ∷ s) h k = ground arith

-- The last byte of a visible string comes first in its reverse.
abbrev StartsVisible : Bytes → Type 0
StartsVisible s = (c : ℕ) × (t : Bytes) × (s ≡ c ∷ t) × (33 ≤ c) × (c ≤ 126)

reverse_onto-StartsVisible :
    (s t : Bytes) → IsVisible s → is_empty s ≡ false → StartsVisible (reverse_onto s t)
unfolding reverse_onto
reverse_onto-StartsVisible [] t h e = ground arith
reverse_onto-StartsVisible (c ∷ []) t (a, b, h) e = (c, t, refl, a, b)
reverse_onto-StartsVisible (c ∷ d ∷ s) t (a, b, h) e =
    reverse_onto-StartsVisible (d ∷ s) (c ∷ t) h refl

reverse_onto-append : (s u t : Bytes) → reverse_onto (s ++ u) t ≡ reverse_onto u (reverse_onto s t)
unfolding reverse_onto
reverse_onto-append [] u t = refl
reverse_onto-append (c ∷ s) u t = reverse_onto-append s u (c ∷ t)

-- White space inside does not matter where the ends are visible.
trim_space_ends :
    (c : ℕ) (s u : Bytes)
    → 33 ≤ c
    → c ≤ 126
    → IsVisible u
    → is_empty u ≡ false
    → trim_space (c ∷ (s ++ u)) ≡ c ∷ (s ++ u)
unfolding trim_space
trim_space_ends c s u h k v e =
    let whole : Bytes = c ∷ (s ++ u) in
    let (d, t, f, a, b) = reverse_onto-StartsVisible u (reverse_onto (c ∷ s) []) v e in
    let back : reverse_onto whole [] ≡ d ∷ t = reverse_onto-append (c ∷ s) u [] ∙ f in
    let kept : strip space_width_back 0 (reverse_onto whole []) ≡ reverse_onto whole [] =
      rw back (strip_first d t a b).1 in
    rw ((strip_first c (s ++ u) h k).0, kept, reverse_onto-reverse_onto whole [] [])
      (append_nil whole)

cut-slash : (s t : Bytes) → AreDigits s → cut slash (s ++ slash ∷ t) ≡ some (s, t)
unfolding cut
cut-slash [] t h = refl
cut-slash (c ∷ s) t (a, b, h) = ground (arith, cut-slash s t h)

cut_interval :
    (s u t : Bytes)
    → AreDigits s
    → AreDigits u
    → cut slash (s ++ dash ∷ (u ++ slash ∷ t)) ≡ some (s ++ dash ∷ u, t)
unfolding cut
cut_interval [] u t h k = ground (arith, cut-slash u t k)
cut_interval (c ∷ s) u t (a, b, h) k = ground (arith, cut_interval s u t h k)

is_star_digits : (s : Bytes) → AreDigits s → is_star s ≡ false
is_star_digits [] h = refl
is_star_digits (c ∷ []) (a, b, h) = ground arith
is_star_digits (c ∷ d ∷ s) h = refl

AreDigits-around :
    (s u : Bytes) (c : ℕ) → 33 ≤ c → c ≤ 126 → AreDigits s → IsVisible u → IsVisible (s ++ c ∷ u)
AreDigits-around s u c h k d v = IsVisible-append s (c ∷ u) (AreDigits-IsVisible s d) (h, k, v)

body_nonempty : (s : Bytes) (c : ℕ) (t : Bytes) → is_empty (s ++ c ∷ t) ≡ false
body_nonempty [] c t = refl
body_nonempty (d ∷ s) c t = refl

-- The unit is cut off in front of a visible text.
split_unit :
    (body left right : Bytes)
    → IsVisible body
    → is_empty body ≡ false
    → cut slash body ≡ some (left, right)
    → split_partial_content_range (unit_blank ++ body) ≡ some (trim_space left, trim_space right)
unfolding split_partial_content_range folds_to_bytes cut after_prefix trim_space
split_unit body left right v e f =
    let whole : trim_space (unit_blank ++ body) ≡ unit_blank ++ body =
      trim_space_ends 98 (121 ∷ 116 ∷ 101 ∷ 115 ∷ 32 ∷ []) body (omega arith) (omega arith) v e in
    rw (whole, trim_space_visible body v, f) refl

split_lem :
    (s u t : Bytes)
    → AreDigits s
    → AreDigits u
    → AreDigits t
    → split_partial_content_range (unit_blank ++ (s ++ dash ∷ (u ++ slash ∷ t)))
      ≡ some (s ++ dash ∷ u, t)
split_lem s u t h k l =
    let right =
      AreDigits-around u t slash (omega arith) (omega arith) k (AreDigits-IsVisible t l) in
    let body = AreDigits-around s (u ++ slash ∷ t) dash (omega arith) (omega arith) h right in
    let left = AreDigits-around s u dash (omega arith) (omega arith) h (AreDigits-IsVisible u k) in
    split_unit (s ++ dash ∷ (u ++ slash ∷ t)) (s ++ dash ∷ u) t body
      (body_nonempty s dash (u ++ slash ∷ t)) (cut_interval s u t h k)
    ∙ (rw (trim_space_visible (s ++ dash ∷ u) left, trim_space_visible t (AreDigits-IsVisible t l))
        refl)

interval_lem :
    (a b : ℕ)
    → a ≤ b
    → b < half_word
    → parse_partial_range_interval (format_nat a ++ dash ∷ format_nat b)
      ≡ some (range_of (bounded a b))
unfolding parse_partial_range_interval is_suffix is_open_ended
interval_lem a b h k = ground (
  arith,
  parse_range_digits (format_nat a) (format_nat b) (format_nat-AreDigits a) (format_nat-AreDigits b)
      (range_of (bounded a b)) (bounds_lem (bounded a b) (h, k)),
)

-- For an interval within a content whose size is an int64: reading back the header that was written
-- gives the interval and the size.
pub parse_partial_content_range-content_range :
    (a b size : ℕ)
    → a ≤ b
    → b < size
    → size < half_word
    → parse_partial_content_range (content_range (range_of (bounded a b)) (pos size))
      ≡ some (range_of (bounded a b), some size)
unfolding content_range parse_partial_content_range parse_range_total
parse_partial_content_range-content_range a b size h k l = ground (
  arith,
  split_lem (format_nat a) (format_nat b) (format_nat size) (format_nat-AreDigits a)
      (format_nat-AreDigits b) (format_nat-AreDigits size),
  interval_lem a b h (omega arith),
  is_star_digits (format_nat size) (format_nat-AreDigits size),
  parse_non_negative_int-format_nat size l,
)
