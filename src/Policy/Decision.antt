-- ===== src/Policy/Decision.antt =====
-- What the patterns and the rules of internal/policy mean.
use regimux.Prelude.{
  ◌≡◌, refl, ◌⊎◌, inl, inr, ◌↔◌, Bool, true, false, List, [], ◌∷◌, ◌++◌, Option, none, some, arith,
}
use regimux.Prelude.Bytes.{Bytes, bytes_eq, bytes_eq_iff}
use regimux.Policy.{
  star, cut_star, has_prefix, matches, DependencyTarget, DependencyRule, DependencyPolicy,
  dependency_field_matches, dependency_rule_matches, first_matching_dependency_rule, evaluate,
  is_allowed, check,
}

-- The pattern names exactly the value, or every value that begins as the pattern does before its star.
abbrev pub Names : Bytes → Bytes → Type 0
Names pattern value =
    (pattern ≡ value)
    ⊎ ((before : Bytes) × (rest : Bytes) × (pattern ≡ before ++ star ∷ [])
        × (value ≡ before ++ rest))

pub has_prefix_append : (s t : Bytes) → has_prefix (s ++ t) s ≡ true
unfolding has_prefix
has_prefix_append [] t = refl
has_prefix_append (c ∷ s) t = ground (arith, has_prefix_append s t)

pub has_prefix_rest :
    (value before : Bytes)
    → has_prefix value before ≡ true
    → (rest : Bytes) × (value ≡ before ++ rest)
unfolding has_prefix
has_prefix_rest value [] h = (value, refl)
has_prefix_rest [] (c ∷ s) h = ground arith
has_prefix_rest (d ∷ value) (c ∷ s) h =
    let (rest, e) = has_prefix_rest value s (ground arith) in (rest, ground arith)

cut_star_append : (s : Bytes) → cut_star (s ++ star ∷ []) ≡ some s
unfolding cut_star
cut_star_append [] = refl
cut_star_append (c ∷ []) = refl
cut_star_append (c ∷ d ∷ s) = ground (arith, cut_star_append (d ∷ s))

cut_star-some : (p s : Bytes) → cut_star p ≡ some s → p ≡ s ++ star ∷ []
unfolding cut_star
cut_star-some [] s h = ground arith
cut_star-some (c ∷ []) s h = ground arith
cut_star-some (c ∷ d ∷ p) [] h = ground arith
cut_star-some (c ∷ d ∷ p) (e ∷ s) h = ground (arith, cut_star-some (d ∷ p) s (ground arith))

matches-Names : (pattern value : Bytes) → matches pattern value ≡ true → Names pattern value
unfolding matches
matches-Names pattern value h =
    elim (bytes_eq pattern value) as (λ b. bytes_eq pattern value ≡ b → Names pattern value) [
      | true ↦ λ e. inl ((bytes_eq_iff pattern value).0 e)
      | false ↦ λ e. go (cut_star pattern) refl (ground arith)
    ]
      refl
  where
    go :
        (r : Option Bytes)
        → cut_star pattern ≡ r
        → elim r as (λ _. Bool) [ none ↦ false | some before ↦ has_prefix value before ] ≡ true
        → Names pattern value
    go none e k = ground arith
    go (some before) e k =
        let (rest, f) = has_prefix_rest value before k in
        inr (before, rest, cut_star-some pattern before e, f)

Names-matches : (pattern value : Bytes) → Names pattern value → matches pattern value ≡ true
unfolding matches
Names-matches pattern value (inl e) = ground (arith, (bytes_eq_iff pattern value).1 e)
Names-matches pattern value (inr (before, rest, e, f)) =
    ground (arith, e, f, cut_star_append before, has_prefix_append before rest)

-- A pattern matches exactly the value that it spells and, if it ends in a star, every value
-- that begins as it does before the star.
pub matches_iff : (pattern value : Bytes) → matches pattern value ≡ true ↔ Names pattern value
matches_iff pattern value = (matches-Names pattern value, Names-matches pattern value)

-- An empty field asks for nothing.
abbrev pub FieldFits : Bytes → Bytes → Type 0
FieldFits pattern value = (pattern ≡ []) ⊎ Names pattern value

abbrev pub Fits : DependencyTarget → DependencyRule → Type 0
Fits t r =
    FieldFits r.ecosystem t.ecosystem
    × FieldFits r.alias t.alias
    × FieldFits r.artifact t.artifact
    × FieldFits r.reference t.reference

abbrev pub Some : {A : Type 0} → (A → Type 0) → List A → Type 0
Some P [] = ⊥
Some P (x ∷ xs) = P x ⊎ Some P xs

field_iff :
    (pattern value : Bytes)
    → dependency_field_matches pattern value ≡ true ↔ FieldFits pattern value
unfolding dependency_field_matches
field_iff [] value = ((λ h. inl refl), λ h. refl)
field_iff (c ∷ s) value = (
  (λ h. inr ((matches_iff (c ∷ s) value).0 h)),
  elim [ inl e ↦ ground arith | inr n ↦ (matches_iff (c ∷ s) value).1 n ],
)

rule_iff :
    (r : DependencyRule) (t : DependencyTarget) → dependency_rule_matches r t ≡ true ↔ Fits t r
unfolding dependency_rule_matches
rule_iff r t =
    let (a, a') = field_iff r.ecosystem t.ecosystem in
    let (b, b') = field_iff r.alias t.alias in
    let (c, c') = field_iff r.artifact t.artifact in
    let (d, d') = field_iff r.reference t.reference in
    (
      (λ h. (a (ground arith), b (ground arith), c (ground arith), d (ground arith))),
      λ (x, y, z, w). ground (arith, a' x, b' y, c' z, d' w),
    )

first_none :
    (rs : List DependencyRule) (t : DependencyTarget)
    → first_matching_dependency_rule rs t ≡ none
    → ¬ Some (Fits t) rs
unfolding first_matching_dependency_rule
first_none [] t h = λ k. k
first_none (r ∷ rs) t h = elim [
  | inl f ↦ ground (arith, (rule_iff r t).1 f)
  | inr k ↦ first_none rs t (ground arith) k
]

first_some :
    (rs : List DependencyRule) (t : DependencyTarget) (r : DependencyRule)
    → first_matching_dependency_rule rs t ≡ some r
    → Some (Fits t) rs
unfolding first_matching_dependency_rule
first_some [] t r h = ground arith
first_some (x ∷ rs) t r h =
    elim (dependency_rule_matches x t)
        as (λ b. dependency_rule_matches x t ≡ b → Some (Fits t) (x ∷ rs)) [
          | true ↦ λ e. inl ((rule_iff x t).0 e)
          | false ↦ λ e. inr (first_some rs t r (ground arith))
        ]
      refl

-- The policy lets the target through.
abbrev pub Permits : DependencyPolicy → DependencyTarget → Type 0
Permits p t = (¬ Some (Fits t) p.block) × ((p.allow ≡ []) ⊎ Some (Fits t) p.allow)

-- A dependency is let through exactly where no blocking rule fits it and where, should there
-- be allowing rules at all, one of them does; an empty field of a rule fits everything.
pub check-Permits : (p : DependencyPolicy) (t : DependencyTarget) → check p t ≡ none ↔ Permits p t
unfolding check evaluate is_allowed
check-Permits p t =
    go (first_matching_dependency_rule p.block t) refl p.allow refl
      (first_matching_dependency_rule p.allow t) refl
  where
    go :
        (b : Option DependencyRule)
        → first_matching_dependency_rule p.block t ≡ b
        → (rules : List DependencyRule) → p.allow ≡ rules
        → (a : Option DependencyRule) → first_matching_dependency_rule p.allow t ≡ a
        → check p t ≡ none ↔ Permits p t
    go (some r) e rules f a g =
        ((λ h. ground arith), λ (n, _). elim (n (first_some p.block t r e)) [ ])
    go none e [] f a g = ((λ h. (first_none p.block t e, inl f)), λ _. ground arith)
    go none e (x ∷ xs) f (some r) g =
        ((λ h. (first_none p.block t e, inr (first_some p.allow t r g))), λ _. ground arith)
    go none e (x ∷ xs) f none g = (
      (λ h. ground arith),
      λ (n, k). elim k [ inl q ↦ ground arith | inr q ↦ elim (first_none p.allow t g q) [ ] ],
    )
