-- ===== src/Auth/Parts.antt =====
-- How `parseScope` of internal/auth/scope.go takes a scope apart.
use regimux.Prelude.{
  ℕ, ◌≡◌, ◌==◌, ◌⊎◌, inl, inr, refl, ap, ◌∙◌, true, false, ◌||◌, List, [], ◌∷◌, ◌++◌, if◌then◌else◌,
  arith,
}
use regimux.Prelude.Bytes.{Bytes, contains_byte}
use regimux.Auth.{split, prepend}

-- A text without the separator is one part; otherwise the first part ends at the first separator.
abbrev pub IsSplit : ℕ → Bytes → List Bytes → Type 0
IsSplit sep s parts =
    ((contains_byte sep s ≡ false) × (parts ≡ s ∷ []))
    ⊎ ((first : Bytes) × (rest : Bytes) × (s ≡ first ++ sep ∷ rest)
        × (contains_byte sep first ≡ false)
        × (parts ≡ first ∷ split sep rest))

pub split-IsSplit : (sep : ℕ) (s : Bytes) → IsSplit sep s (split sep s)
unfolding split contains_byte
split-IsSplit sep [] = inl (refl, refl)
split-IsSplit sep (c ∷ s) =
    (elim (c == sep)
        as (λ b.
          c == sep ≡ b
          → ((((b || contains_byte sep s) ≡ false)
                × ((if b then [] ∷ split sep s else prepend c (split sep s)) ≡ (c ∷ s) ∷ []))
              ⊎ ((first : Bytes) × (rest : Bytes) × (c ∷ s ≡ first ++ sep ∷ rest)
                  × (contains_byte sep first ≡ false)
                  × ((if b then [] ∷ split sep s else prepend c (split sep s))
                      ≡ first ∷ split sep rest)))) [
                        | true ↦ λ e. inr ([], s, ground arith, refl, refl)
                        | false ↦ λ e. elim (split-IsSplit sep s) [
                          | inl (n, p) ↦ inl (n, ap (prepend c) p)
                          | inr (first, rest, q, n, p) ↦
                              inr
                                (c ∷ first, rest, ap (λ l. c ∷ l) q, ground arith, ap (prepend c) p)
                        ]
                      ])
      refl

pub split_one : (sep : ℕ) (s : Bytes) → contains_byte sep s ≡ false → split sep s ≡ s ∷ []
unfolding split contains_byte
split_one sep [] n = refl
split_one sep (c ∷ s) n = ground (arith, split_one sep s)

pub split_first :
    (sep : ℕ) (s rest : Bytes)
    → contains_byte sep s ≡ false
    → split sep (s ++ sep ∷ rest) ≡ s ∷ split sep rest
unfolding split contains_byte
split_first sep [] rest n = ground arith
split_first sep (c ∷ s) rest n = ground (arith, split_first sep s rest)

-- Three parts, none of which has a colon.
abbrev pub IsThree : Bytes → Bytes → Bytes → Bytes → Type 0
IsThree s type name actions =
    (s ≡ type ++ 58 ∷ (name ++ 58 ∷ actions))
    × (contains_byte 58 type ≡ false)
    × (contains_byte 58 name ≡ false)
    × (contains_byte 58 actions ≡ false)

pub split_three :
    (s type name actions : Bytes)
    → IsThree s type name actions
    → split 58 s ≡ type ∷ name ∷ actions ∷ []
split_three s type name actions (e, a, b, d) =
    ap (split 58) e
    ∙ split_first 58 type (name ++ 58 ∷ actions) a
    ∙ ap (λ l. type ∷ l) (split_first 58 name actions b)
    ∙ ap (λ l. type ∷ name ∷ l) (split_one 58 actions d)

-- Where the parts are not three, a reading that wants three gets something else.
pub IsThree-or_other :
    (s : Bytes)
    → ((type : Bytes) × (name : Bytes) × (actions : Bytes) × IsThree s type name actions)
      ⊎ (((x : Bytes) × (split 58 s ≡ x ∷ []))
          ⊎ ((x : Bytes) × (y : Bytes) × (split 58 s ≡ x ∷ y ∷ []))
          ⊎ ((x : Bytes) × (y : Bytes) × (z : Bytes) × (w : Bytes) × (rest : List Bytes) × (split 58
                  s
                ≡ x ∷ y ∷ z ∷ w ∷ rest)))
IsThree-or_other s = elim (split-IsSplit 58 s) [
  | inl (n, p) ↦ inr (inl (s, p))
  | inr (x, r, e, n, p) ↦ elim (split-IsSplit 58 r) [
    | inl (m, q) ↦ inr (inr (inl (x, r, p ∙ ap (λ l. x ∷ l) q)))
    | inr (y, t, f, m, q) ↦ elim (split-IsSplit 58 t) [
      | inl (k, u) ↦ inl (x, y, t, (e ∙ ap (λ l. x ++ 58 ∷ l) f, n, m, k))
      | inr (z, v, g, k, u) ↦
          let start = p ∙ ap (λ l. x ∷ l) q ∙ ap (λ l. x ∷ y ∷ l) u in
          elim (split-IsSplit 58 v) [
            | inl (_, w) ↦ inr (inr (inr (x, y, z, v, [], start ∙ ap (λ l. x ∷ y ∷ z ∷ l) w)))
            | inr (b, d, _, _, w) ↦
                inr (inr (inr (x, y, z, b, split 58 d, start ∙ ap (λ l. x ∷ y ∷ z ∷ l) w)))
          ]
    ]
  ]
]
