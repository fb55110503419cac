-- ===== src/Auth/Issued.antt =====
-- internal/auth: what a token that was issued lets its user pull.
use regimux.Prelude.{
  ◌≡◌, ◌==◌, ◌⊎◌, inl, inr, refl, sym, ap, ◌∙◌, Bool, true, false, List, [], ◌∷◌, ◌++◌, none, some,
  if◌then◌else◌, In, arith,
}
use regimux.Prelude.Bytes.{Bytes, bytes_eq, bytes_eq_iff, trim_space}
use regimux.Auth.{
  Collections, IsCollections, Scope, parsed, split, prepend, parse_scope, parse_parts, kept_action,
  complete, requires_pull, trim_slashes, pull, repository, list_contains, principal_has_pull_scope,
  UserDirectory, allows, validate_requested_scopes, Principal, allowed_pull, authorize,
}
use regimux.Auth.Loop.{accepted}

-- The parts behind a name: the name and "pull", or more where it has a colon.
split_name :
    (name : Bytes)
    → (split 58 (name ++ 58 ∷ pull) ≡ name ∷ pull ∷ [])
      ⊎ ((x : Bytes) × (y : Bytes) × (z : Bytes) × (rest : List Bytes) × (split 58
              (name ++ 58 ∷ pull)
            ≡ x ∷ y ∷ z ∷ rest))
unfolding split
split_name [] = inl refl
split_name (c ∷ s) =
    elim (c == 58)
      as (λ b.
        ((if b then [] ∷ split 58 (s ++ 58 ∷ pull) else prepend c (split 58 (s ++ 58 ∷ pull)))
          ≡ (c ∷ s) ∷ pull ∷ [])
        ⊎ ((x : Bytes) × (y : Bytes) × (z : Bytes) × (rest : List Bytes) × ((if b
                then [] ∷ split 58 (s ++ 58 ∷ pull)
                else prepend c (split 58 (s ++ 58 ∷ pull)))
              ≡ x ∷ y ∷ z ∷ rest))) [
                | true ↦ elim (split_name s) [
                  | inl e ↦ inr ([], s, pull, [], ap (λ l. [] ∷ l) e)
                  | inr (x, y, z, rest, e) ↦ inr ([], x, y, z ∷ rest, ap (λ l. [] ∷ l) e)
                ]
                | false ↦ elim (split_name s) [
                  | inl e ↦ inl (ap (prepend c) e)
                  | inr (x, y, z, rest, e) ↦ inr (c ∷ x, y, z, rest, ap (prepend c) e)
                ]
              ]

module _ (c : Collections) (laws : IsCollections c) where
  complete-parsed : (s t : Scope) → complete c s ≡ parsed t → s ≡ t
  complete-parsed s t h = ground (arith)

  -- The scope that asks for a pull of `name`.
  abbrev pull_scope : Bytes → Scope
  pull_scope name = record {
    type = trim_space repository;
    name = trim_slashes (trim_space name);
    actions = c.filter_map kept_action (split 44 pull);
  }

  requires_pull-pull_scope : (name : Bytes) → requires_pull c (pull_scope name) ≡ true
  unfolding requires_pull trim_space split bytes_eq
  requires_pull-pull_scope name =
      laws.any_sees (λ action. bytes_eq (trim_space action) pull)
        (c.filter_map kept_action (split 44 pull)) pull
        (laws.filter_map_keeps kept_action (split 44 pull) pull pull (inl refl) refl) refl

  parse_parts-pull :
      (name : Bytes) (s : Scope)
      → parse_parts c (repository ∷ split 58 (name ++ 58 ∷ pull)) ≡ parsed s
      → pull_scope name ≡ s
  parse_parts-pull name s h = elim (split_name name) [
    | inl e ↦
        complete-parsed (pull_scope name) s (sym (ap (λ l. parse_parts c (repository ∷ l)) e) ∙ h)
    | inr (x, y, z, rest, e) ↦ absurd (cc (sym (ap (λ l. parse_parts c (repository ∷ l)) e) ∙ h))
  ]

  parse_scope-pull :
      (text name : Bytes) (s : Scope)
      → trim_space text ≡ repository ++ 58 ∷ name ++ 58 ∷ pull
      → parse_scope c text ≡ parsed s
      → pull_scope name ≡ s
  unfolding parse_scope split
  parse_scope-pull text name s t h =
      parse_parts-pull name s (sym (ap (λ l. parse_parts c (split 58 l)) t) ∙ h)

  module _ (wildcard : Bytes → Bytes → Bool) where
    -- A scope of the token that reads as a pull of `name` passed the check when it was issued.
    validated :
        (directory : UserDirectory) (scopes : List Bytes) (username text name : Bytes)
        → validate_requested_scopes c wildcard directory scopes username ≡ none
        → In text scopes
        → trim_space text ≡ repository ++ 58 ∷ name ++ 58 ∷ pull
        → allows c wildcard directory username (trim_slashes (trim_space name)) ≡ true
    unfolding validate_requested_scopes
    validated directory [] username text name v i t = elim i [ ]
    validated directory (u ∷ scopes) username text name v i t =
        let (s, e, v', a) =
          accepted c wildcard directory username (parse_scope c u)
            (validate_requested_scopes c wildcard directory scopes username) v in
        elim i [
          | inl q ↦
              (let same = parse_scope-pull u name s (ap trim_space (sym q) ∙ t) e in
                ap (λ x. allows c wildcard directory username x.name) same
                ∙ a (ap (requires_pull c) (sym same) ∙ requires_pull-pull_scope name))
          | inr j ↦ validated directory scopes username text name v' j t
        ]

    listed :
        (permissions : List Bytes) (resource : Bytes)
        → principal_has_pull_scope c permissions resource ≡ true
        → (text : Bytes) × In text permissions
          × (trim_space text ≡ repository ++ 58 ∷ trim_slashes resource ++ 58 ∷ pull)
    unfolding principal_has_pull_scope list_contains
    listed permissions resource h =
        let (text, i, e) =
          laws.any_finds
            (λ value.
              bytes_eq (trim_space value) (repository ++ 58 ∷ trim_slashes resource ++ 58 ∷ pull))
            permissions h in
        (
          text,
          i,
          (bytes_eq_iff (trim_space text) (repository ++ 58 ∷ trim_slashes resource ++ 58 ∷ pull)).0
              e,
        )

    authorize-pull :
        (directory : UserDirectory) (p : Principal) (resource : Bytes)
        → authorize c wildcard directory
            (record { principal = some p; action = pull; resource = resource })
          ≡ allowed_pull
        → (principal_has_pull_scope c p.permissions (trim_slashes resource) ≡ true)
          × (allows c wildcard directory p.id (trim_slashes resource) ≡ true)
    unfolding authorize bytes_eq
    authorize-pull directory p resource h = ground (arith)

    -- Where the lists do what they are documented to do, a token that carries scopes which were accepted
    -- for its user lets a pull through only if that user was allowed the repository when the scopes
    -- were accepted, and is allowed it now, whatever became of the directory of users in between.
    pub authorize-was_allowed :
        (before now : UserDirectory) (p : Principal) (resource : Bytes)
        → validate_requested_scopes c wildcard before p.permissions p.id ≡ none
        → authorize c wildcard now
            (record { principal = some p; action = pull; resource = resource })
          ≡ allowed_pull
        → (allows c wildcard before p.id
              (trim_slashes (trim_space (trim_slashes (trim_slashes resource))))
            ≡ true)
          × (allows c wildcard now p.id (trim_slashes resource) ≡ true)
    authorize-was_allowed before now p resource v h =
        let (scope, may) = authorize-pull now p resource h in
        let (text, i, t) = listed p.permissions (trim_slashes resource) scope in
        (validated before p.permissions p.id text (trim_slashes (trim_slashes resource)) v i t, may)
