-- ===== src/JsonBudget/Counters.antt =====
-- The counters that the scanner of internal/jsonbudget keeps, moved by lexemes, and when a list of
-- lexemes fits the limits.
use native.Mathlib.Numerals.{add-one}
use regimux.Prelude.{
  ℕ, zero, suc, ◌+◌, ◌≤◌, ◌≡◌, refl, ◌↔◌, Bool, true, false, List, [], ◌∷◌, arith, ltb, take,
  if◌then◌else◌, Bool-cases, inl, inr,
}
use regimux.Prelude.Int.{ℤ, pos, negsuc, ◌+ℤ◌, ltb_ℤ, pos_part, neg_part, +ℤ_parts}
use regimux.JsonBudget.{Limits}
use regimux.JsonBudget.Lexemes.{
  Lexeme, quote, content, opening, closing, separator, blank, token, count_markers, count_content,
  openings, closings, longest_token,
}

pub record Counters : Type 0 where
  pub markers : ℕ
  pub depth : ℤ
  pub strings : ℕ
  pub run : ℕ

-- The check for one lexeme, and the counters behind it.
unfoldable pub marker_ok : Limits → Counters → Bool
marker_ok l k =
    if ltb l.max_structural_markers k.markers
    then false
    else if ltb_ℤ (pos l.max_depth) k.depth
    then false
    else true

unfoldable pub move : Counters → Lexeme → Counters
move k quote = record k { run = 0 }
move k content = record k { strings = k.strings + 1 }
move k opening = record k { markers = k.markers + 1; depth = k.depth +ℤ pos 1; run = 0 }
move k closing = record k { markers = k.markers + 1; depth = k.depth +ℤ negsuc 0; run = 0 }
move k separator = record k { markers = k.markers + 1; depth = k.depth +ℤ pos 0; run = 0 }
move k blank = record k { run = 0 }
move k token = record k { run = k.run + 1 }

unfoldable pub allowed : Limits → Counters → Lexeme → Bool
unfolding marker_ok move
allowed l k quote = true
allowed l k content = if ltb l.max_string_bytes (k.strings + 1) then false else true
allowed l k opening = marker_ok l (move k opening)
allowed l k closing = marker_ok l (move k closing)
allowed l k separator = marker_ok l (move k separator)
allowed l k blank = true
allowed l k token = if ltb l.max_literal_bytes (k.run + 1) then false else true

unfoldable pub accept : Limits → Counters → List Lexeme → Bool
unfolding move allowed
accept l k [] = true
accept l k (x ∷ xs) = let rest = accept l (move k x) xs in if allowed l k x then rest else false

pub allowed-strings :
    (l : Limits) (k : Counters) (x : Lexeme)
    → k.strings ≤ l.max_string_bytes
    → allowed l k x ≡ true
    → (move k x).strings ≤ l.max_string_bytes
unfolding allowed move
allowed-strings l k quote w h = ground arith
allowed-strings l k content w h = ground arith
allowed-strings l k _ w h = ground arith

-- The counters of a finished or running scan are within the limits.
pub record Within (l : Limits) (k : Counters) : Type 0 where
  pub markers : k.markers ≤ l.max_structural_markers
  pub depth : pos_part k.depth ≤ l.max_depth + neg_part k.depth
  pub strings : k.strings ≤ l.max_string_bytes
  pub run : k.run ≤ l.max_literal_bytes

-- What the rest of the lexemes may add to the counters.
pub record Fits (l : Limits) (k : Counters) (xs : List Lexeme) : Type 0 where
  pub markers : k.markers + count_markers xs ≤ l.max_structural_markers
  pub depth :
      (n : ℕ)
      → openings (take n xs) + pos_part k.depth
        ≤ l.max_depth + closings (take n xs) + neg_part k.depth
  pub strings : k.strings + count_content xs ≤ l.max_string_bytes
  pub run : longest_token k.run xs ≤ l.max_literal_bytes

pub allowed_iff :
    (l : Limits) (k : Counters) (x : Lexeme)
    → Within l k
    → (allowed l k x ≡ true) ↔ Within l (move k x)
unfolding allowed marker_ok move
allowed_iff l k quote w = ground arith
allowed_iff l k content w = ground arith
allowed_iff l k opening w = ground (arith, +ℤ_parts k.depth (pos 1))
allowed_iff l k closing w = ground (arith, +ℤ_parts k.depth (negsuc 0))
allowed_iff l k separator w = ground (arith, +ℤ_parts k.depth (pos 0))
allowed_iff l k blank w = ground arith
allowed_iff l k token w = ground arith

le-longest_token : (run : ℕ) (xs : List Lexeme) → run ≤ longest_token run xs
le-longest_token run [] = omega arith
le-longest_token run (token ∷ xs) = omega (arith, le-longest_token (suc run) xs)
le-longest_token run (content ∷ xs) = le-longest_token run xs
le-longest_token run (_ ∷ xs) = omega arith

Fits-Within : (l : Limits) (k : Counters) (xs : List Lexeme) → Fits l k xs → Within l k
Fits-Within l k xs f = record {
  markers = omega (arith, f.markers);
  depth = omega (arith, f.depth 0);
  strings = omega (arith, f.strings);
  run = omega (arith, f.run, le-longest_token k.run xs);
}

Fits-cons :
    (l : Limits) (k : Counters) (x : Lexeme) (xs : List Lexeme)
    → Within l k
    → Fits l (move k x) xs
    → Fits l k (x ∷ xs)
unfolding move
Fits-cons l k quote xs w f = record {
  markers = f.markers;
  strings = f.strings;
  run = omega (arith, w.run, f.run);
  depth = elim [ zero ↦ omega (arith, w.depth) | suc n ↦ f.depth n ];
}
Fits-cons l k content xs w f = record {
  markers = f.markers;
  strings = omega (arith, f.strings);
  run = f.run;
  depth = elim [ zero ↦ omega (arith, w.depth) | suc n ↦ f.depth n ];
}
Fits-cons l k opening xs w f = record {
  markers = omega (arith, f.markers);
  strings = f.strings;
  run = omega (arith, w.run, f.run);
  depth = elim [
    | zero ↦ omega (arith, w.depth)
    | suc n ↦ omega (arith, f.depth n, +ℤ_parts k.depth (pos 1))
  ];
}
Fits-cons l k closing xs w f = record {
  markers = omega (arith, f.markers);
  strings = f.strings;
  run = omega (arith, w.run, f.run);
  depth = elim [
    | zero ↦ omega (arith, w.depth)
    | suc n ↦ omega (arith, f.depth n, +ℤ_parts k.depth (negsuc 0))
  ];
}
Fits-cons l k separator xs w f = record {
  markers = omega (arith, f.markers);
  strings = f.strings;
  run = omega (arith, w.run, f.run);
  depth = elim [
    | zero ↦ omega (arith, w.depth)
    | suc n ↦ omega (arith, f.depth n, +ℤ_parts k.depth (pos 0))
  ];
}
Fits-cons l k blank xs w f = record {
  markers = f.markers;
  strings = f.strings;
  run = omega (arith, w.run, f.run);
  depth = elim [ zero ↦ omega (arith, w.depth) | suc n ↦ f.depth n ];
}
Fits-cons l k token xs w f = record {
  markers = f.markers;
  strings = f.strings;
  run = rw (← add-one) f.run;
  depth = elim [ zero ↦ omega (arith, w.depth) | suc n ↦ f.depth n ];
}

Fits-tail :
    (l : Limits) (k : Counters) (x : Lexeme) (xs : List Lexeme)
    → Fits l k (x ∷ xs)
    → Fits l (move k x) xs
unfolding move
Fits-tail l k quote xs f = record {
  markers = f.markers;
  strings = f.strings;
  run = omega (arith, f.run);
  depth = λ n. f.depth (suc n);
}
Fits-tail l k content xs f = record {
  markers = f.markers;
  strings = omega (arith, f.strings);
  run = f.run;
  depth = λ n. f.depth (suc n);
}
Fits-tail l k opening xs f = record {
  markers = omega (arith, f.markers);
  strings = f.strings;
  run = omega (arith, f.run);
  depth = λ n. omega (arith, f.depth (suc n), +ℤ_parts k.depth (pos 1));
}
Fits-tail l k closing xs f = record {
  markers = omega (arith, f.markers);
  strings = f.strings;
  run = omega (arith, f.run);
  depth = λ n. omega (arith, f.depth (suc n), +ℤ_parts k.depth (negsuc 0));
}
Fits-tail l k separator xs f = record {
  markers = omega (arith, f.markers);
  strings = f.strings;
  run = omega (arith, f.run);
  depth = λ n. omega (arith, f.depth (suc n), +ℤ_parts k.depth (pos 0));
}
Fits-tail l k blank xs f = record {
  markers = f.markers;
  strings = f.strings;
  run = omega (arith, f.run);
  depth = λ n. f.depth (suc n);
}
Fits-tail l k token xs f = record {
  markers = f.markers;
  strings = f.strings;
  run = rw add-one f.run;
  depth = λ n. f.depth (suc n);
}

Fits-nil : (l : Limits) (k : Counters) → Within l k → Fits l k []
Fits-nil l k w = record {
  markers = omega (arith, w.markers);
  strings = omega (arith, w.strings);
  run = w.run;
  depth = elim [ zero ↦ omega (arith, w.depth) | suc n ↦ omega (arith, w.depth) ];
}

-- One lexeme passes and the rest fits exactly if the whole list fits.
Fits-split :
    (l : Limits) (k : Counters) (x : Lexeme) (xs : List Lexeme)
    → Within l k
    → Fits l k (x ∷ xs) ↔ ((allowed l k x ≡ true) × Fits l (move k x) xs)
Fits-split l k x xs w = (
  λ f. let t = Fits-tail l k x xs f in ((allowed_iff l k x w).1 (Fits-Within l (move k x) xs t), t),
  λ (a, t). Fits-cons l k x xs w t,
)

-- Read from counters within the limits, lexemes are accepted exactly if they fit.
pub accept_iff :
    (xs : List Lexeme) (l : Limits) (k : Counters)
    → Within l k
    → (accept l k xs ≡ true) ↔ Fits l k xs
unfolding accept
accept_iff [] l k w = (λ _. Fits-nil l k w, λ _. refl)
accept_iff (x ∷ xs) l k w = elim (Bool-cases (allowed l k x)) [
  | inl e ↦
      let ih = accept_iff xs l (move k x) ((allowed_iff l k x w).0 e) in
      let split = Fits-split l k x xs w in
      (λ h. split.1 (e, ih.0 (ground arith)), λ f. rw e (ih.1 (split.0 f).1))
  | inr e ↦ (λ h. absurd (ground arith), λ f. absurd (ground (arith, (Fits-split l k x xs w).0 f)))
]
