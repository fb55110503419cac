-- ===== src/Auth/Loop.antt =====
-- The loop of `validateRequestedScopes` in internal/auth/service.go.
use regimux.Prelude.{◌≡◌, ◌↔◌, refl, ap, ◌∙◌, Bool, true, List, [], ◌∷◌, Option, none, arith}
use regimux.Prelude.Bytes.{Bytes}
use regimux.Auth.{
  Collections, Scope, AuthFault, ParsedScope, refused, parsed, parse_scope, requires_pull,
  UserDirectory, allows, validate_requested_scopes, answer,
}

module _ (c : Collections) (wildcard : Bytes → Bytes → Bool) where
  pub accepted :
      (directory : UserDirectory) (username : Bytes) (p : ParsedScope) (rest : Option AuthFault)
      → answer c wildcard directory username p rest ≡ none
      → (s : Scope) × (p ≡ parsed s)
        × (rest ≡ none)
        × (requires_pull c s ≡ true → allows c wildcard directory username s.name ≡ true)
  accepted directory username (refused fault) rest h = absurd (cc h)
  accepted directory username (parsed s) rest h = (s, refl, ground (arith), λ r. ground (arith))

  granted :
      (directory : UserDirectory) (username : Bytes) (s : Scope) (rest : Option AuthFault)
      → rest ≡ none
      → (requires_pull c s ≡ true → allows c wildcard directory username s.name ≡ true)
      → answer c wildcard directory username (parsed s) rest ≡ none
  granted directory username s rest r a = ground (arith)

  -- No scope ends the loop.
  abbrev pub ArePassed : UserDirectory → List Bytes → Bytes → Type 0
  ArePassed directory [] username = Unit {0}
  ArePassed directory (text ∷ scopes) username =
      ((s : Scope) × (parse_scope c text ≡ parsed s)
        × (requires_pull c s ≡ true → allows c wildcard directory username s.name ≡ true))
      × ArePassed directory scopes username

  pub passed_iff :
      (directory : UserDirectory) (scopes : List Bytes) (username : Bytes)
      → validate_requested_scopes c wildcard directory scopes username ≡ none
        ↔ ArePassed directory scopes username
  unfolding validate_requested_scopes
  passed_iff directory [] username = ((λ h. tt), (λ h. refl))
  passed_iff directory (text ∷ scopes) username =
      let (f, g) = passed_iff directory scopes username in
      (
        (λ v.
            let (s, e, v', a) =
              accepted directory username (parse_scope c text)
                (validate_requested_scopes c wildcard directory scopes username) v in
            ((s, e, a), f v')),
        (λ ((s, e, a), k).
            ap
              (λ x.
                answer c wildcard directory username x
                  (validate_requested_scopes c wildcard directory scopes username))
              e
            ∙ granted directory username s
                (validate_requested_scopes c wildcard directory scopes username) (g k) a),
      )
