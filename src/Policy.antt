-- ===== src/Policy.antt =====
-- internal/policy: patterns (rbac.go) and the decision about a dependency (dependency.go). Strings are
-- bytes; a nil list of rules is the empty one, which the code treats alike.
pub mod Examples
pub mod Decision
use regimux.Prelude.{
  ℕ, ◌==◌, ◌≡◌, Bool, true, false, not, ◌&&◌, ◌||◌, List, [], ◌∷◌, ◌++◌, Option, none, some, map,
  if◌then◌else◌,
}
use regimux.Prelude.Bytes.{Bytes, bytes_eq}

-- "*".
abbrev pub star : ℕ
star = 42

-- `strings.CutSuffix(pattern, "*")`.
unfoldable pub cut_star : Bytes → Option Bytes
cut_star [] = none
cut_star (c ∷ []) = if c == star then some [] else none
cut_star (c ∷ d ∷ s) = elim (cut_star (d ∷ s)) [ none ↦ none | some before ↦ some (c ∷ before) ]

-- `strings.HasPrefix(value, before)`.
unfoldable pub has_prefix : Bytes → Bytes → Bool
has_prefix value [] = true
has_prefix [] (c ∷ s) = false
has_prefix (d ∷ value) (c ∷ s) = d == c && has_prefix value s

-- `Match`, a keyword here.
unfoldable pub matches : Bytes → Bytes → Bool
matches pattern value =
    if bytes_eq pattern value
    then true
    else elim (cut_star pattern) [ none ↦ false | some before ↦ has_prefix value before ]

pub record DependencyTarget : Type 0 where
  pub ecosystem : Bytes
  pub alias : Bytes
  pub artifact : Bytes
  pub reference : Bytes

pub record DependencyRule : Type 0 where
  pub ecosystem : Bytes
  pub alias : Bytes
  pub artifact : Bytes
  pub reference : Bytes

pub record DependencyPolicy : Type 0 where
  pub allow : List DependencyRule
  pub block : List DependencyRule

pub data Status : Type 0 where
  allowed blocked : Status

-- `none` is the zero rule of a decision that no rule made.
pub record DependencyDecision : Type 0 where
  pub status : Status
  pub rule : Option DependencyRule
  pub target : DependencyTarget

abbrev is_empty : Bytes → Bool
is_empty [] = true
is_empty (c ∷ s) = false

unfoldable pub dependency_field_matches : Bytes → Bytes → Bool
dependency_field_matches pattern value = is_empty pattern || matches pattern value

unfoldable pub dependency_rule_matches : DependencyRule → DependencyTarget → Bool
dependency_rule_matches rule target =
    dependency_field_matches rule.ecosystem target.ecosystem
    && dependency_field_matches rule.alias target.alias
    && dependency_field_matches rule.artifact target.artifact
    && dependency_field_matches rule.reference target.reference

unfoldable pub first_matching_dependency_rule :
    List DependencyRule → DependencyTarget → Option DependencyRule
first_matching_dependency_rule [] target = none
first_matching_dependency_rule (r ∷ rs) target =
    if dependency_rule_matches r target then some r else first_matching_dependency_rule rs target

unfoldable pub evaluate : DependencyPolicy → DependencyTarget → DependencyDecision
evaluate p target = elim (first_matching_dependency_rule p.block target) [
  | some rule ↦ record { status = blocked; rule = some rule; target = target }
  | none ↦ elim p.allow [
    | [] ↦ record { status = allowed; rule = none; target = target }
    | _ ∷ _ ↦ elim (first_matching_dependency_rule p.allow target) [
      | some rule ↦ record { status = allowed; rule = some rule; target = target }
      | none ↦ record { status = blocked; rule = none; target = target }
    ]
  ]
]

unfoldable pub is_allowed : DependencyDecision → Bool
is_allowed d = elim d.status [ allowed ↦ true | blocked ↦ false ]

-- `Check`: `none` is no error, and a refusal carries its decision.
unfoldable pub check : DependencyPolicy → DependencyTarget → Option DependencyDecision
check p target =
    let decision = evaluate p target in if is_allowed decision then none else some decision
