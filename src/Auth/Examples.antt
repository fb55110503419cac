-- ===== src/Auth/Examples.antt =====
-- Concrete runs of internal/auth.
use regimux.Prelude.{
  ◌≡◌, ◌↔◌, inl, inr, refl, sym, ap, ◌∙◌, Bool, true, false, ◌||◌, List, [], ◌∷◌, ◌++◌, Option,
  none, some, if◌then◌else◌, In, arith,
}
use regimux.Prelude.Bytes.{Bytes, bytes_eq, trim_space}
use regimux.Auth.{
  Collections, IsCollections, pull, repository, trim_slashes, UserDirectory, allows,
  validate_requested_scopes, AuthorizationModel, allowed_pull, access_denied, token_scope_required,
  authorize,
}
use regimux.Auth.Issued.{authorize-was_allowed}
use regimux.Auth.Granted.{KeepsOnly, AreGranted, validate_requested_scopes_iff}

abbrev any_of : (Bytes → Bool) → List Bytes → Bool
any_of test [] = false
any_of test (x ∷ xs) = test x || any_of test xs

abbrev kept : (Bytes → Option Bytes) → List Bytes → List Bytes
kept f [] = []
kept f (x ∷ xs) = elim (f x) [ none ↦ kept f xs | some y ↦ y ∷ kept f xs ]

any_of-finds :
    (test : Bytes → Bool) (xs : List Bytes)
    → any_of test xs ≡ true
    → (x : Bytes) × In x xs × (test x ≡ true)
any_of-finds test [] h = absurd (cc h)
any_of-finds test (x ∷ xs) h =
    (elim (test x)
        as (λ b.
          test x ≡ b
          → (b || any_of test xs) ≡ true
          → (y : Bytes) × In y (x ∷ xs) × (test y ≡ true)) [
            | true ↦ λ e k. (x, inl refl, e)
            | false ↦ λ e k. let (y, i, t) = any_of-finds test xs k in (y, inr i, t)
          ])
      refl h

any_of-sees :
    (test : Bytes → Bool) (xs : List Bytes) (x : Bytes)
    → In x xs
    → test x ≡ true
    → any_of test xs ≡ true
any_of-sees test [] x i h = elim i [ ]
any_of-sees test (y ∷ xs) x i h = elim i [
  | inl q ↦ ap (λ b. b || any_of test xs) (sym (ap test q) ∙ h)
  | inr j ↦ ground (arith, any_of-sees test xs x j h)
]

kept-keeps :
    (f : Bytes → Option Bytes) (xs : List Bytes) (x y : Bytes)
    → In x xs
    → f x ≡ some y
    → In y (kept f xs)
kept-keeps f [] x y i h = elim i [ ]
kept-keeps f (z ∷ xs) x y i h =
    (elim (f z)
        as (λ o.
          f z ≡ o
          → In y (elim o as (λ x. List Bytes) [ none ↦ kept f xs | some w ↦ w ∷ kept f xs ])) [
            | none ↦ λ e. elim i [
              | inl q ↦ absurd (cc (sym e ∙ sym (ap f q) ∙ h))
              | inr j ↦ kept-keeps f xs x y j h
            ]
            | some w ↦ λ e. elim i [
              | inl q ↦ inl (ground (arith, sym h ∙ ap f q ∙ e))
              | inr j ↦ inr (kept-keeps f xs x y j h)
            ]
          ])
      refl

abbrev lists : Collections
lists = record { any = any_of; filter_map = kept }

abbrev lists-IsCollections : IsCollections lists
lists-IsCollections = record {
  any_finds = any_of-finds;
  any_sees = any_of-sees;
  filter_map_keeps = kept-keeps;
}

kept-finds :
    (f : Bytes → Option Bytes) (xs : List Bytes) (y : Bytes)
    → In y (kept f xs)
    → (x : Bytes) × In x xs × (f x ≡ some y)
kept-finds f [] y i = elim i [ ]
kept-finds f (x ∷ xs) y i =
    (elim (f x)
        as (λ o.
          f x ≡ o
          → In y (elim o as (λ _. List Bytes) [ none ↦ kept f xs | some w ↦ w ∷ kept f xs ])
          → (z : Bytes) × In z (x ∷ xs) × (f z ≡ some y)) [
            | none ↦ λ e j. let (z, k, g) = kept-finds f xs y j in (z, inr k, g)
            | some w ↦ λ e j. elim j [
              | inl q ↦ (x, inl refl, e ∙ ap some (sym q))
              | inr l ↦ let (z, k, g) = kept-finds f xs y l in (z, inr k, g)
            ]
          ])
      refl i

abbrev lists-KeepsOnly : KeepsOnly lists
lists-KeepsOnly = record { filter_map_finds = kept-finds }

abbrev no_wildcard : Bytes → Bytes → Bool
no_wildcard pattern resource = false

-- "a", whose user "a" may pull "t/*".
abbrev team_user : Bytes
team_user = 97 ∷ []

abbrev team : UserDirectory
team = record {
  users = λ name. if bytes_eq name team_user then some ((116 ∷ 47 ∷ 42 ∷ []) ∷ []) else none;
}

-- "t/x" and "u/x".
abbrev team_repo : Bytes
team_repo = 116 ∷ 47 ∷ 120 ∷ []

abbrev other_repo : Bytes
other_repo = 117 ∷ 47 ∷ 120 ∷ []

abbrev pull_of : Bytes → Bytes
pull_of name = repository ++ 58 ∷ name ++ 58 ∷ pull

validated_team_repo :
    validate_requested_scopes lists no_wildcard team (pull_of team_repo ∷ []) team_user ≡ none
unfolding validate_requested_scopes
validated_team_repo = refl

validated_other_repo :
    validate_requested_scopes lists no_wildcard team (pull_of other_repo ∷ []) team_user
    ≡ some access_denied
unfolding validate_requested_scopes
validated_other_repo = refl

abbrev request : List Bytes → Bytes → AuthorizationModel
request permissions resource = record {
  principal = some (record { id = team_user; permissions = permissions });
  action = pull;
  resource = resource;
}

authorized_team_repo :
    authorize lists no_wildcard team (request (pull_of team_repo ∷ []) team_repo) ≡ allowed_pull
unfolding authorize
authorized_team_repo = refl

unlisted_team_repo : authorize lists no_wildcard team (request [] team_repo) ≡ token_scope_required
unfolding authorize
unlisted_team_repo = refl

-- A scope with two actions is accepted, and is no permission to pull.
validated_pull_and_push :
    validate_requested_scopes lists no_wildcard team
      ((pull_of team_repo ++ 44 ∷ 112 ∷ 117 ∷ 115 ∷ 104 ∷ []) ∷ [])
      team_user
    ≡ none
unfolding validate_requested_scopes
validated_pull_and_push = refl

unauthorized_pull_and_push :
    authorize lists no_wildcard team
      (request ((pull_of team_repo ++ 44 ∷ 112 ∷ 117 ∷ 115 ∷ 104 ∷ []) ∷ []) team_repo)
    ≡ token_scope_required
unfolding authorize
unauthorized_pull_and_push = refl

authorize-was_allowed_example :
    (allows lists no_wildcard team team_user
        (trim_slashes (trim_space (trim_slashes (trim_slashes team_repo))))
      ≡ true)
    × (allows lists no_wildcard team team_user (trim_slashes team_repo) ≡ true)
authorize-was_allowed_example =
    authorize-was_allowed lists lists-IsCollections no_wildcard team team
      (record { id = team_user; permissions = pull_of team_repo ∷ [] }) team_repo
      validated_team_repo authorized_team_repo

validate_requested_scopes_iff_example :
    (validate_requested_scopes lists no_wildcard team (pull_of team_repo ∷ []) team_user ≡ none)
    ↔ AreGranted lists lists-IsCollections lists-KeepsOnly no_wildcard team
        (pull_of team_repo ∷ [])
        team_user
validate_requested_scopes_iff_example =
    validate_requested_scopes_iff lists lists-IsCollections lists-KeepsOnly no_wildcard team
      (pull_of team_repo ∷ []) team_user
