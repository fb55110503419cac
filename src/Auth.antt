-- ===== src/Auth.antt =====
-- internal/auth: the scopes of tokens (scope.go), what a user may pull (user_directory.go), the scopes that
-- a token may carry and the decision about a request (service.go). The lists of lo and collectionx
-- are an interface, and `wildcard` is the regular expression that a pattern with "*" becomes.
pub mod Loop
pub mod Parts
pub mod Patterns
pub mod Granted
pub mod Issued
pub mod Examples
use regimux.Prelude.{
  ℕ, zero, suc, ◌≡◌, ◌==◌, Bool, true, false, ◌&&◌, ◌||◌, not, List, [], ◌∷◌, ◌++◌, Option, none,
  some, if◌then◌else◌, In,
}
use regimux.Prelude.Bytes.{Bytes, bytes_eq, is_empty, trim_space, trim_right, contains_byte}
use regimux.Policy.{has_prefix}

-- `any` is `Any` of a stream and `ContainsBy`, and `filter_map` is `FilterMap`.
pub record Collections : Type 0 where
  pub any : (Bytes → Bool) → List Bytes → Bool
  pub filter_map : (Bytes → Option Bytes) → List Bytes → List Bytes

-- What they are documented to do.
pub record IsCollections (c : Collections) : Type 0 where
  pub any_finds :
      (test : Bytes → Bool) (values : List Bytes)
      → c.any test values ≡ true
      → (value : Bytes) × In value values × (test value ≡ true)
  pub any_sees :
      (test : Bytes → Bool) (values : List Bytes) (value : Bytes)
      → In value values
      → test value ≡ true
      → c.any test values ≡ true
  pub filter_map_keeps :
      (f : Bytes → Option Bytes) (values : List Bytes) (value result : Bytes)
      → In value values
      → f value ≡ some result
      → In result (c.filter_map f values)

-- "pull", "repository" and "registry:ping".
abbrev pub pull : Bytes
pull = 112 ∷ 117 ∷ 108 ∷ 108 ∷ []

abbrev pub repository : Bytes
repository = 114 ∷ 101 ∷ 112 ∷ 111 ∷ 115 ∷ 105 ∷ 116 ∷ 111 ∷ 114 ∷ 121 ∷ []

abbrev pub registry_ping : Bytes
registry_ping = 114 ∷ 101 ∷ 103 ∷ 105 ∷ 115 ∷ 116 ∷ 114 ∷ 121 ∷ 58 ∷ 112 ∷ 105 ∷ 110 ∷ 103 ∷ []

pub record Scope : Type 0 where
  pub type : Bytes
  pub name : Bytes
  pub actions : List Bytes

pub data AuthFault : Type 0 where
  scope_invalid scope_incomplete access_denied : AuthFault

pub data ParsedScope : Type 0 where
  refused : AuthFault → ParsedScope
  parsed : Scope → ParsedScope

unfoldable pub trim_left : ℕ → Bytes → Bytes
trim_left b [] = []
trim_left b (c ∷ s) = let rest = trim_left b s in if c == b then rest else c ∷ s

-- `strings.Trim` for '/', which is 47.
unfoldable pub trim_slashes : Bytes → Bytes
unfolding trim_left trim_right
trim_slashes s = trim_right 47 (trim_left 47 s)

-- A byte before the first part.
abbrev pub prepend : ℕ → List Bytes → List Bytes
prepend c [] = []
prepend c (p ∷ ps) = (c ∷ p) ∷ ps

-- `strings.Split` at one byte.
unfoldable pub split : ℕ → Bytes → List Bytes
split sep [] = [] ∷ []
split sep (c ∷ s) = let rest = split sep s in if c == sep then [] ∷ rest else prepend c rest

abbrev pub kept_action : Bytes → Option Bytes
kept_action action =
    let trimmed = trim_space action in if is_empty trimmed then none else some trimmed

module _ (c : Collections) where
  unfoldable pub requires_pull : Scope → Bool
  unfolding bytes_eq trim_space
  requires_pull s =
      if not (bytes_eq s.type repository)
      then false
      else c.any (λ action. bytes_eq (trim_space action) pull) s.actions

  abbrev pub complete : Scope → ParsedScope
  complete s = elim s.actions [
    | [] ↦ refused scope_incomplete
    | _ ∷ _ ↦ if is_empty s.type || is_empty s.name then refused scope_incomplete else parsed s
  ]

  abbrev pub parse_parts : List Bytes → ParsedScope
  parse_parts (type ∷ name ∷ actions ∷ []) = complete (record {
    type = trim_space type;
    name = trim_slashes (trim_space name);
    actions = c.filter_map kept_action (split 44 actions);
  })
  parse_parts _ = refused scope_invalid

  unfoldable pub parse_scope : Bytes → ParsedScope
  unfolding split trim_space trim_slashes
  parse_scope value = parse_parts (split 58 (trim_space value))

  unfoldable pub list_contains : List Bytes → Bytes → Bool
  unfolding bytes_eq trim_space
  list_contains values candidate =
      if is_empty candidate
      then false
      else c.any (λ value. bytes_eq (trim_space value) candidate) values

  unfoldable pub principal_has_pull_scope : List Bytes → Bytes → Bool
  unfolding list_contains trim_slashes
  principal_has_pull_scope permissions resource =
      list_contains permissions (repository ++ 58 ∷ trim_slashes resource ++ 58 ∷ pull)

-- `strings.CutSuffix(pattern, "/*")`.
unfoldable pub cut_slash_star : Bytes → Option Bytes
cut_slash_star [] = none
cut_slash_star (c ∷ []) = none
cut_slash_star (c ∷ d ∷ []) = if c == 47 && d == 42 then some [] else none
cut_slash_star (c ∷ d ∷ e ∷ s) = elim (cut_slash_star (d ∷ e ∷ s)) [
  | none ↦ none
  | some before ↦ some (c ∷ before)
]

module _ (wildcard : Bytes → Bytes → Bool) where
  unfoldable pub repository_pattern_matches : Bytes → Bytes → Bool
  unfolding trim_slashes trim_space bytes_eq cut_slash_star has_prefix contains_byte
  repository_pattern_matches pattern resource =
      let p = trim_slashes (trim_space pattern) in
      let r = trim_slashes (trim_space resource) in
      if is_empty p || is_empty r
      then false
      else if bytes_eq p (42 ∷ []) || bytes_eq p r
      then true
      else elim (cut_slash_star p) [
        | some prefix ↦ bytes_eq r prefix || has_prefix r (prefix ++ 47 ∷ [])
        | none ↦ if not (contains_byte 42 p) then false else wildcard p r
      ]

-- The repositories of each user.
pub record UserDirectory : Type 0 where
  pub users : Bytes → Option (List Bytes)

module _ (c : Collections) (wildcard : Bytes → Bytes → Bool) where
  unfoldable pub allows : UserDirectory → Bytes → Bytes → Bool
  unfolding repository_pattern_matches
  allows directory username resource = elim (directory.users username) [
    | none ↦ false
    | some repositories ↦
        c.any (λ pattern. repository_pattern_matches wildcard pattern resource) repositories
  ]

  -- What the loop of `validateRequestedScopes` does at a scope, where `rest` is behind it.
  abbrev pub answer : UserDirectory → Bytes → ParsedScope → Option AuthFault → Option AuthFault
  answer directory username (refused fault) rest = some fault
  answer directory username (parsed scope) rest =
      if requires_pull c scope && not (allows directory username scope.name)
      then some access_denied
      else rest

  -- The first scope that is refused ends the loop.
  unfoldable pub validate_requested_scopes : UserDirectory → List Bytes → Bytes → Option AuthFault
  unfolding parse_scope requires_pull allows
  validate_requested_scopes directory [] username = none
  validate_requested_scopes directory (text ∷ scopes) username =
      let rest = validate_requested_scopes directory scopes username in
      answer directory username (parse_scope c text) rest

pub record Principal : Type 0 where
  pub id : Bytes
  pub permissions : List Bytes

pub record AuthorizationModel : Type 0 where
  pub principal : Option Principal
  pub action : Bytes
  pub resource : Bytes

pub data Decision : Type 0 where
  allowed_ping allowed_pull : Decision
  unsupported_action invalid_principal missing_resource : Decision
  token_scope_required repository_not_allowed : Decision

module _ (c : Collections) (wildcard : Bytes → Bytes → Bool) where
  unfoldable pub authorize : UserDirectory → AuthorizationModel → Decision
  unfolding bytes_eq trim_space trim_slashes principal_has_pull_scope allows
  authorize directory input =
      if bytes_eq input.action registry_ping
      then allowed_ping
      else if not (bytes_eq input.action pull)
      then unsupported_action
      else elim input.principal [
        | none ↦ invalid_principal
        | some p ↦
            let resource = trim_slashes input.resource in
            if is_empty (trim_space p.id)
            then invalid_principal
            else if is_empty resource
            then missing_resource
            else if not (principal_has_pull_scope c p.permissions resource)
            then token_scope_required
            else if not (allows c wildcard directory p.id resource)
            then repository_not_allowed
            else allowed_pull
      ]
