-- ===== src/JsonBudget/Shape.antt =====
-- `checkShape` of internal/jsonbudget accepts exactly the input whose lexemes fit the limits.
use regimux.Prelude.{
  ℕ, ◌+◌, ◌≤◌, ◌≡◌, refl, ◌↔◌, ◌⊎◌, Bool, true, false, List, [], ◌∷◌, Option, none, some, arith,
  take, if◌then◌else◌,
}
use regimux.Prelude.Int.{pos}
use regimux.JsonBudget.{
  Limits, ShapeScanner, new_scanner, Error, err_limit, advance, scan, check_shape,
}
use regimux.JsonBudget.Lexemes.{
  Mode, outside, inside, escaping, lexeme, mode_after, lex, count_markers, count_content, openings,
  closings, longest_token,
}
use regimux.JsonBudget.Counters.{
  Counters, move, allowed, accept, allowed-strings, Within, accept_iff,
}

abbrev pub counters : ShapeScanner → Counters
counters s = record {
  markers = s.markers;
  depth = s.depth;
  strings = s.string_bytes;
  run = s.literal_bytes;
}

-- The flags of the scanner in each mode.
abbrev InMode : Mode → ShapeScanner → Type 0
InMode outside s = (s.in_string ≡ false) × (s.escaped ≡ false)
InMode inside s = (s.in_string ≡ true) × (s.escaped ≡ false) × (s.literal_bytes ≡ 0)
InMode escaping s = (s.in_string ≡ true) × (s.escaped ≡ true) × (s.literal_bytes ≡ 0)

abbrev verdict : Bool → Option Error
verdict b = if b then none else some err_limit

advance-allowed :
    (m : Mode) (s : ShapeScanner) (c : ℕ)
    → InMode m s
    → s.string_bytes ≤ s.limits.max_string_bytes
    → (advance s c).0 ≡ verdict (allowed s.limits (counters s) (lexeme m c))
unfolding advance lexeme allowed
advance-allowed outside s c h w = ground arith
advance-allowed inside s c h w = ground arith
advance-allowed escaping s c h w = ground arith

advance-counters :
    (m : Mode) (s : ShapeScanner) (c : ℕ)
    → InMode m s
    → counters (advance s c).1 ≡ move (counters s) (lexeme m c)
unfolding advance lexeme move
advance-counters outside s c h = ground arith
advance-counters inside s c h = ground arith
advance-counters escaping s c h = ground arith

advance-InMode :
    (m : Mode) (s : ShapeScanner) (c : ℕ) → InMode m s → InMode (mode_after m c) (advance s c).1
unfolding advance mode_after
advance-InMode outside s c h = ground arith
advance-InMode inside s c h = ground arith
advance-InMode escaping s c h = ground arith

advance-limits : (s : ShapeScanner) (c : ℕ) → (advance s c).1.limits ≡ s.limits
unfolding advance
advance-limits s c = ground arith

scan-accept :
    (bytes : List ℕ) (m : Mode) (s : ShapeScanner)
    → InMode m s
    → s.string_bytes ≤ s.limits.max_string_bytes
    → scan s bytes ≡ verdict (accept s.limits (counters s) (lex m bytes))
unfolding scan lex accept
scan-accept [] m s h w = refl
scan-accept (c ∷ rest) m s h w = ground (
  arith,
  advance-allowed m s c h w,
  advance-counters m s c h,
  advance-InMode m s c h,
  advance-limits s c,
  allowed-strings s.limits (counters s) (lexeme m c) w,
  scan-accept rest (mode_after m c) (advance s c).1,
)

abbrev zero_counters : Counters
zero_counters = record { markers = 0; depth = pos 0; strings = 0; run = 0 }

-- The whole input passes exactly if its markers, its string bytes, the brackets open at each point
-- and its longest bare token are within the four limits; otherwise the error is the limit error.
pub check_shape_lem :
    (bytes : List ℕ) (l : Limits)
    → ((check_shape bytes l ≡ none) ⊎ (check_shape bytes l ≡ some err_limit))
      × ((check_shape bytes l ≡ none) ↔ (
          (count_markers (lex outside bytes) ≤ l.max_structural_markers)
          × (count_content (lex outside bytes) ≤ l.max_string_bytes)
          × (longest_token 0 (lex outside bytes) ≤ l.max_literal_bytes)
          × ((n : ℕ)
              → openings (take n (lex outside bytes))
                ≤ l.max_depth + closings (take n (lex outside bytes)))))
unfolding check_shape
check_shape_lem bytes l =
    let start : Within l zero_counters = omega arith in
    let eq = scan-accept bytes outside (new_scanner l) (refl, refl) (omega arith) in
    let fits = accept_iff (lex outside bytes) l zero_counters start in
    (
      ground (arith, eq),
      (
        λ h.
            (let f = fits.0 (ground (arith, eq)) in
              (
                omega (arith, f.markers),
                omega (arith, f.strings),
                f.run,
                λ n. omega (arith, f.depth n),
              )),
        λ (m, c, t, d). ground (
          arith,
          eq,
          fits.1 (record {
            markers = omega arith;
            strings = omega arith;
            run = t;
            depth = λ n. omega (arith, d n);
          }),
        ),
      ),
    )
