-- ===== src/Policy/Examples.antt =====
-- The policies of internal/policy at concrete rules.
use regimux.Prelude.{◌≡◌, ◌↔◌, true, [], ◌∷◌, none}
use regimux.Prelude.Bytes.{Bytes}
use regimux.Policy.{DependencyTarget, DependencyRule, DependencyPolicy, matches, check}
use regimux.Policy.Decision.{Names, Permits, matches_iff, check-Permits}

-- "go/*" and "go/x".
abbrev go_all : Bytes
go_all = 103 ∷ 111 ∷ 47 ∷ 42 ∷ []

abbrev go_x : Bytes
go_x = 103 ∷ 111 ∷ 47 ∷ 120 ∷ []

matches_iff_example : matches go_all go_x ≡ true ↔ Names go_all go_x
matches_iff_example = matches_iff go_all go_x

abbrev rule : DependencyRule
rule = record { ecosystem = []; alias = []; artifact = go_all; reference = [] }

abbrev target : DependencyTarget
target = record { ecosystem = []; alias = []; artifact = go_x; reference = [] }

abbrev blocking : DependencyPolicy
blocking = record { allow = []; block = rule ∷ [] }

check-Permits_example : check blocking target ≡ none ↔ Permits blocking target
check-Permits_example = check-Permits blocking target
