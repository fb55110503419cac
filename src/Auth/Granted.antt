-- ===== src/Auth/Granted.antt =====
-- internal/auth: which scopes a token is issued for, in terms of their texts and of the directory of users.
use regimux.Prelude.{
  ◌≡◌, ◌≢◌, ◌↔◌, inl, inr, refl, sym, subst, ap, ◌∙◌, Bool, true, false, List, [], ◌∷◌, Option,
  none, some, arith, In, List-cases,
}
use regimux.Prelude.Bytes.{Bytes, bytes_eq, bytes_eq_iff, is_empty, trim_space}
use regimux.Auth.{
  Collections, IsCollections, Scope, parsed, parse_scope, parse_parts, complete, kept_action, split,
  trim_slashes, pull, repository, requires_pull, repository_pattern_matches, UserDirectory, allows,
  validate_requested_scopes,
}
use regimux.Auth.Loop.{ArePassed, passed_iff}
use regimux.Auth.Patterns.{Fits, repository_pattern_matches_iff}
use regimux.Auth.Parts.{IsThree, split_three, IsThree-or_other}

-- What else `FilterMap` is documented to do: it makes nothing up.
pub record KeepsOnly (c : Collections) : Type 0 where
  pub filter_map_finds :
      (f : Bytes → Option Bytes) (values : List Bytes) (result : Bytes)
      → In result (c.filter_map f values)
      → (value : Bytes) × In value values × (f value ≡ some result)

-- One of the actions is not blank.
abbrev pub HasAction : Bytes → Type 0
HasAction actions =
    (action : Bytes) × In action (split 44 actions) × (is_empty (trim_space action) ≡ false)

-- The scope is for a repository, and one of its actions is "pull".
abbrev pub AsksPull : Bytes → Bytes → Type 0
AsksPull type actions =
    (trim_space type ≡ repository)
    × ((action : Bytes) × In action (split 44 actions) × (trim_space (trim_space action) ≡ pull))

module _ (c : Collections) (laws : IsCollections c) (only : KeepsOnly c)
    (wildcard : Bytes → Bytes → Bool) where
  -- The user is known, and one of the user's patterns fits.
  abbrev pub MayPull : UserDirectory → Bytes → Bytes → Type 0
  MayPull directory username resource =
      (repositories : List Bytes) × (directory.users username ≡ some repositories)
      × ((pattern : Bytes) × In pattern repositories × Fits wildcard pattern resource)

  -- The scope has a type, a name and an action, and is for a repository that the user may pull from
  -- where it asks for a pull.
  abbrev pub IsGranted : UserDirectory → Bytes → Bytes → Type 0
  IsGranted directory username text =
      (type : Bytes) × (name : Bytes) × (actions : Bytes) × IsThree (trim_space text) type name
        actions
      × (is_empty (trim_space type) ≡ false)
      × (is_empty (trim_slashes (trim_space name)) ≡ false)
      × HasAction actions
      × (AsksPull type actions → MayPull directory username (trim_slashes (trim_space name)))

  abbrev scope_of : Bytes → Bytes → Bytes → Scope
  scope_of type name actions = record {
    type = trim_space type;
    name = trim_slashes (trim_space name);
    actions = c.filter_map kept_action (split 44 actions);
  }

  allows_iff :
      (directory : UserDirectory) (username resource : Bytes)
      → (allows c wildcard directory username resource ≡ true) ↔ MayPull directory username resource
  unfolding allows
  allows_iff directory username resource = go (directory.users username) refl
    where
      go :
          (r : Option (List Bytes))
          → directory.users username ≡ r
          → (elim r as (λ _. Bool) [
            | none ↦ false
            | some repositories ↦
                c.any (λ p. repository_pattern_matches wildcard p resource) repositories
          ]
              ≡ true)
            ↔ MayPull directory username resource
      go none e = ((λ h. absurd (cc h)), (λ (l, f, _). absurd (cc (sym e ∙ f))))
      go (some repositories) e = (
        (λ h.
            let (p, i, m) =
              laws.any_finds (λ p. repository_pattern_matches wildcard p resource) repositories h in
            (repositories, e, (p, i, (repository_pattern_matches_iff wildcard p resource).0 m))),
        (λ (l, f, (p, i, m)).
            laws.any_sees (λ p. repository_pattern_matches wildcard p resource) repositories p
              (subst (λ k. In p k) (ground (arith, sym f ∙ e)) i)
              ((repository_pattern_matches_iff wildcard p resource).1 m)),
      )

  kept_action_iff :
      (action result : Bytes)
      → (kept_action action ≡ some result)
        ↔ ((result ≡ trim_space action) × (is_empty (trim_space action) ≡ false))
  kept_action_iff action result = ground arith

  not_blank : (s : Bytes) → trim_space s ≡ pull → is_empty s ≡ false
  unfolding trim_space
  not_blank [] h = absurd (cc h)
  not_blank (b ∷ s) h = refl

  has_pull_iff :
      (actions : Bytes)
      → (c.any
            (λ action. bytes_eq (trim_space action) pull)
            (c.filter_map kept_action (split 44 actions))
          ≡ true)
        ↔ ((action : Bytes) × In action (split 44 actions)
            × (trim_space (trim_space action) ≡ pull))
  has_pull_iff actions = (
    (λ h.
        let (r, i, e) =
          laws.any_finds (λ action. bytes_eq (trim_space action) pull)
            (c.filter_map kept_action (split 44 actions)) h in
        let (a, j, k) = only.filter_map_finds kept_action (split 44 actions) r i in
        let same = ((kept_action_iff a r).0 k).0 in
        (a, j, ap trim_space (sym same) ∙ (bytes_eq_iff (trim_space r) pull).0 e)),
    (λ (a, j, e).
        laws.any_sees (λ action. bytes_eq (trim_space action) pull)
          (c.filter_map kept_action (split 44 actions)) (trim_space a)
          (laws.filter_map_keeps kept_action (split 44 actions) a (trim_space a) j
            ((kept_action_iff a (trim_space a)).1 (refl, not_blank (trim_space a) e)))
          ((bytes_eq_iff (trim_space (trim_space a)) pull).1 e)),
  )

  requires_pull_iff :
      (type name actions : Bytes)
      → (requires_pull c (scope_of type name actions) ≡ true) ↔ AsksPull type actions
  unfolding requires_pull
  requires_pull_iff type name actions =
      ground (arith, has_pull_iff actions, bytes_eq_iff (trim_space type) repository)

  HasAction-iff :
      (actions : Bytes) → (c.filter_map kept_action (split 44 actions) ≢ []) ↔ HasAction actions
  HasAction-iff actions = (
    (λ h. elim (List-cases (c.filter_map kept_action (split 44 actions))) [
      | inl e ↦ absurd (h e)
      | inr (r, rest, e) ↦
          let (a, j, k) =
            only.filter_map_finds kept_action (split 44 actions) r
              (subst (λ l. In r l) (sym e) (inl refl)) in
          (a, j, ((kept_action_iff a r).0 k).1)
    ]),
    (λ (a, j, n) e.
        subst (λ l. In (trim_space a) l) e
          (laws.filter_map_keeps kept_action (split 44 actions) a (trim_space a) j
            ((kept_action_iff a (trim_space a)).1 (refl, n)))),
  )

  complete_iff :
      (s t : Scope)
      → (complete c s ≡ parsed t)
        ↔ ((s ≡ t) × (s.actions ≢ []) × (is_empty s.type ≡ false) × (is_empty s.name ≡ false))
  complete_iff s t = ground (arith, List-cases s.actions)

  -- A scope reads exactly if it has three parts, with what must not be missing.
  reads :
      (text : Bytes) (s : Scope)
      → parse_scope c text ≡ parsed s
      → (type : Bytes) × (name : Bytes) × (actions : Bytes) × IsThree
          (trim_space text)
          type
          name
          actions
        × (complete c (scope_of type name actions) ≡ parsed s)
  unfolding parse_scope
  reads text s h = elim (IsThree-or_other (trim_space text)) [
    | inl (type, name, actions, t) ↦ (
      type,
      name,
      actions,
      t,
      sym (ap (parse_parts c) (split_three (trim_space text) type name actions t)) ∙ h,
    )
    | inr (inl (x, e)) ↦ absurd (cc (sym (ap (parse_parts c) e) ∙ h))
    | inr (inr (inl (x, y, e))) ↦ absurd (cc (sym (ap (parse_parts c) e) ∙ h))
    | inr (inr (inr (x, y, z, w, rest, e))) ↦ absurd (cc (sym (ap (parse_parts c) e) ∙ h))
  ]

  IsGranted-iff :
      (directory : UserDirectory) (username text : Bytes)
      → ((s : Scope) × (parse_scope c text ≡ parsed s)
          × (requires_pull c s ≡ true → allows c wildcard directory username s.name ≡ true))
        ↔ IsGranted directory username text
  unfolding parse_scope
  IsGranted-iff directory username text = (
    (λ (s, h, may).
        let (type, name, actions, t, k) = reads text s h in
        let (same, some_action, some_type, some_name) =
          (complete_iff (scope_of type name actions) s).0 k in
        (
          type,
          name,
          actions,
          t,
          some_type,
          some_name,
          (HasAction-iff actions).0 some_action,
          λ asks. (allows_iff directory username (trim_slashes (trim_space name))).0 (
              ap (λ x. allows c wildcard directory username x.name) same
              ∙ may
                  (ap (requires_pull c) (sym same) ∙ (requires_pull_iff type name actions).1 asks)),
        )),
    (λ (type, name, actions, t, some_type, some_name, some_action, may). (
      scope_of type name actions,
      ap (parse_parts c) (split_three (trim_space text) type name actions t)
          ∙ (complete_iff (scope_of type name actions) (scope_of type name actions)).1
              (refl, (HasAction-iff actions).1 some_action, some_type, some_name),
      λ asks.
          (allows_iff directory username (trim_slashes (trim_space name))).1
            (may ((requires_pull_iff type name actions).0 asks)),
    )),
  )

  abbrev pub AreGranted : UserDirectory → List Bytes → Bytes → Type 0
  AreGranted directory [] username = Unit {0}
  AreGranted directory (text ∷ scopes) username =
      IsGranted directory username text × AreGranted directory scopes username

  passed-granted :
      (directory : UserDirectory) (scopes : List Bytes) (username : Bytes)
      → ArePassed c wildcard directory scopes username ↔ AreGranted directory scopes username
  passed-granted directory [] username = ((λ h. h), (λ h. h))
  passed-granted directory (text ∷ scopes) username =
      let (f, g) = IsGranted-iff directory username text in
      let (h, k) = passed-granted directory scopes username in
      ((λ (a, b). (f a, h b)), (λ (a, b). (g a, k b)))

  -- Where the lists do what they are documented to do, the requested scopes are accepted exactly if
  -- each one, without the space around it, is a type, a name and actions between two colons, with
  -- none of them missing, and is for a repository that one of the patterns of the known user fits
  -- where the type is "repository" and one of the actions is "pull".
  pub validate_requested_scopes_iff :
      (directory : UserDirectory) (scopes : List Bytes) (username : Bytes)
      → (validate_requested_scopes c wildcard directory scopes username ≡ none)
        ↔ AreGranted directory scopes username
  validate_requested_scopes_iff directory scopes username =
      let (f, g) = passed_iff c wildcard directory scopes username in
      let (h, k) = passed-granted directory scopes username in ((λ v. h (f v)), (λ a. g (k a)))
