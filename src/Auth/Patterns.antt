-- ===== src/Auth/Patterns.antt =====
-- What a repository pattern of internal/auth/scope.go fits, in terms of its text.
use regimux.Prelude.{
  ◌≡◌, ◌↔◌, ◌⊎◌, inl, inr, refl, sym, subst, ap, ◌∙◌, Bool, true, false, ◌||◌, not, [], ◌∷◌, ◌++◌,
  Option, none, some, arith, Bool-cases, if◌then◌else◌,
}
use regimux.Prelude.Bytes.{Bytes, bytes_eq, bytes_eq_iff, is_empty, trim_space, contains_byte}
use regimux.Policy.{has_prefix}
use regimux.Policy.Decision.{has_prefix_append, has_prefix_rest}
use regimux.Auth.{cut_slash_star, trim_slashes, repository_pattern_matches}

cut_slash_star_append : (s : Bytes) → cut_slash_star (s ++ 47 ∷ 42 ∷ []) ≡ some s
unfolding cut_slash_star
cut_slash_star_append [] = refl
cut_slash_star_append (c ∷ []) = refl
cut_slash_star_append (c ∷ d ∷ []) = refl
cut_slash_star_append (c ∷ d ∷ e ∷ s) = ground (arith, cut_slash_star_append (d ∷ e ∷ s))

cut_slash_star-some : (p s : Bytes) → cut_slash_star p ≡ some s → p ≡ s ++ 47 ∷ 42 ∷ []
unfolding cut_slash_star
cut_slash_star-some [] s h = ground arith
cut_slash_star-some (c ∷ []) s h = ground arith
cut_slash_star-some (c ∷ d ∷ []) s h = ground arith
cut_slash_star-some (c ∷ d ∷ e ∷ p) [] h = ground arith
cut_slash_star-some (c ∷ d ∷ e ∷ p) (b ∷ s) h = ground (arith, cut_slash_star-some (d ∷ e ∷ p) s)

-- The resource is the one before "/*", or lies below it.
abbrev pub IsBelow : Bytes → Bytes → Type 0
IsBelow before resource =
    (resource ≡ before) ⊎ ((rest : Bytes) × (resource ≡ (before ++ 47 ∷ []) ++ rest))

IsBelow-iff :
    (before resource : Bytes)
    → ((bytes_eq resource before || has_prefix resource (before ++ 47 ∷ [])) ≡ true)
      ↔ IsBelow before resource
IsBelow-iff before resource = (
  (λ h. elim (Bool-cases (bytes_eq resource before)) [
    | inl e ↦ inl ((bytes_eq_iff resource before).0 e)
    | inr e ↦ inr (has_prefix_rest resource (before ++ 47 ∷ []) (ground arith))
  ]),
  elim [
    | inl e ↦ ground (arith, bytes_eq_iff resource before)
    | inr (rest, e) ↦
        let p =
          ap (λ r. has_prefix r (before ++ 47 ∷ [])) e
          ∙ has_prefix_append (before ++ 47 ∷ []) rest in
        ground arith
  ],
)

module _ (wildcard : Bytes → Bytes → Bool) where
  -- The pattern "*" fits every resource, a pattern that ends in "/*" what is before that and all that
  -- lies below it, another one with a star in it what the expression matches, and any pattern the
  -- resource that it spells.
  abbrev FitsTrimmed : Bytes → Bytes → Type 0
  FitsTrimmed p r =
      (p ≡ 42 ∷ [])
      ⊎ (p ≡ r)
      ⊎ ((before : Bytes) × (p ≡ before ++ 47 ∷ 42 ∷ []) × IsBelow before r)
      ⊎ ((((before : Bytes) × (p ≡ before ++ 47 ∷ 42 ∷ [])) → ⊥)
          × (contains_byte 42 p ≡ true)
          × (wildcard p r ≡ true))

  -- Neither is empty without the space and the slashes around it, and so the pattern fits.
  abbrev pub Fits : Bytes → Bytes → Type 0
  Fits pattern resource =
      let p = trim_slashes (trim_space pattern) in
      let r = trim_slashes (trim_space resource) in
      (is_empty p ≡ false) × (is_empty r ≡ false) × FitsTrimmed p r

  starred_iff :
      (p r : Bytes)
      → (elim (cut_slash_star p) as (λ _. Bool) [
        | some before ↦ bytes_eq r before || has_prefix r (before ++ 47 ∷ [])
        | none ↦ if not (contains_byte 42 p) then false else wildcard p r
      ]
          ≡ true)
        ↔ (((before : Bytes) × (p ≡ before ++ 47 ∷ 42 ∷ []) × IsBelow before r)
            ⊎ ((((before : Bytes) × (p ≡ before ++ 47 ∷ 42 ∷ [])) → ⊥)
                × (contains_byte 42 p ≡ true)
                × (wildcard p r ≡ true)))
  starred_iff p r = go (cut_slash_star p) refl
    where
      go :
          (o : Option Bytes)
          → cut_slash_star p ≡ o
          → (elim o as (λ _. Bool) [
            | some before ↦ bytes_eq r before || has_prefix r (before ++ 47 ∷ [])
            | none ↦ if not (contains_byte 42 p) then false else wildcard p r
          ]
              ≡ true)
            ↔ (((before : Bytes) × (p ≡ before ++ 47 ∷ 42 ∷ []) × IsBelow before r)
                ⊎ ((((before : Bytes) × (p ≡ before ++ 47 ∷ 42 ∷ [])) → ⊥)
                    × (contains_byte 42 p ≡ true)
                    × (wildcard p r ≡ true)))
      go none q =
          let no : ((before : Bytes) × (p ≡ before ++ 47 ∷ 42 ∷ [])) → ⊥ =
            λ (b, e). absurd (cc (sym q ∙ ap cut_slash_star e ∙ cut_slash_star_append b)) in
          (
            (λ h. inr (no, ground arith, ground arith)),
            elim [ inl (b, e, _) ↦ absurd (no (b, e)) | inr (_, m, w) ↦ ground arith ],
          )
      go (some b) q = (
        (λ h. inl (b, cut_slash_star-some p b q, (IsBelow-iff b r).0 h)),
        elim [
          | inl (d, e, l) ↦
              let same : d ≡ b =
                ground (arith, sym q ∙ ap cut_slash_star e ∙ cut_slash_star_append d) in
              (IsBelow-iff b r).1 (subst (λ x. IsBelow x r) same l)
          | inr (n, _, _) ↦ absurd (n (b, cut_slash_star-some p b q))
        ],
      )

  pub repository_pattern_matches_iff :
      (pattern resource : Bytes)
      → (repository_pattern_matches wildcard pattern resource ≡ true) ↔ Fits pattern resource
  unfolding repository_pattern_matches
  repository_pattern_matches_iff pattern resource =
      let p = trim_slashes (trim_space pattern) in
      let r = trim_slashes (trim_space resource) in
      ground (arith, starred_iff p r, bytes_eq_iff p (42 ∷ []), bytes_eq_iff p r)
