-- ===== src/CacheGc/Live.antt =====
-- What is in use in a snapshot, in terms of its rows: internal/cachegc/references.go without the sets and
-- maps that it builds.
use text.Mathlib.TextEquality.{eq_iff}
use regimux.Prelude.{ℕ, ◌≤◌, ◌≡◌, ◌≢◌, ◌↔◌, ◌⊎◌, inl, inr, true, List, [], ◌∷◌, arith, Bool}
use regimux.CacheGc.Records.{ManifestRecord, TagRecord, PullRecord, Key, key_eq, contains_key}
use regimux.CacheGc.Classify.{is_recent}
use regimux.CacheGc.Classify.Recent.{AllBefore, AnySet, is_recent_iff}
use regimux.CacheGc.References.{
  tag_key, pull_key, manifest_key, tagged_key, active_pull_references, tag_active, active_tags,
  active_manifests, lookup_flag, manifest_active,
}

-- One of the rows has the property.
abbrev pub Some : {A : Type 0} → (A → Type 0) → List A → Type 0
Some P [] = ⊥
Some P (x ∷ xs) = P x ⊎ Some P xs

abbrev pub NoneSet : List ℕ → Type 0
NoneSet [] = Unit {0}
NoneSet (t ∷ ts) = (t ≡ 0) × NoneSet ts

-- No time is set, or one that is set is not before the cutoff.
abbrev pub Recent : ℕ → List ℕ → Type 0
Recent cutoff ts = NoneSet ts ⊎ Some (λ t. (t ≢ 0) × (cutoff ≤ t)) ts

set_or_none : (ts : List ℕ) → (AnySet ts × (NoneSet ts → ⊥)) ⊎ (NoneSet ts × (AnySet ts → ⊥))
set_or_none [] = inr (tt, λ h. h)
set_or_none (t ∷ ts) = ground (arith, set_or_none ts)

before_or_reached :
    (cutoff : ℕ) (ts : List ℕ)
    → (AllBefore cutoff ts × (Some (λ t. (t ≢ 0) × (cutoff ≤ t)) ts → ⊥))
      ⊎ (Some (λ t. (t ≢ 0) × (cutoff ≤ t)) ts × (AllBefore cutoff ts → ⊥))
before_or_reached cutoff [] = inl (tt, λ h. h)
before_or_reached cutoff (t ∷ ts) = ground (arith, before_or_reached cutoff ts)

pub Recent-iff : (cutoff : ℕ) (ts : List ℕ) → (is_recent cutoff ts ≡ true) ↔ Recent cutoff ts
Recent-iff cutoff ts =
    ground (arith, is_recent_iff cutoff ts, set_or_none ts, before_or_reached cutoff ts)

-- Two rows carry the same three names.
abbrev pub Same : Key → Key → Type 0
Same (a, b, c) (x, y, z) = (a ≡ x) × (b ≡ y) × (c ≡ z)

key_eq_iff : (j k : Key) → (key_eq j k ≡ true) ↔ Same j k
key_eq_iff (a, b, c) (x, y, z) = ground (arith, eq_iff a x, eq_iff b y, eq_iff c z)

module _ (cutoff : ℕ) where
  -- Somebody pulled by this name recently.
  abbrev pub IsPulled : Key → List PullRecord → Type 0
  IsPulled k pulls =
      Some
        (λ p.
          Recent cutoff (p.last_pull_at ∷ p.updated_at ∷ p.created_at ∷ []) × Same (pull_key p) k)
        pulls

  IsPulled-iff :
      (k : Key) (ps : List PullRecord)
      → (contains_key k (active_pull_references cutoff ps) ≡ true) ↔ IsPulled k ps
  unfolding active_pull_references contains_key
  IsPulled-iff k [] = ground arith
  IsPulled-iff k (p ∷ ps) = ground (
    arith,
    IsPulled-iff k ps,
    Recent-iff cutoff (p.last_pull_at ∷ p.updated_at ∷ p.created_at ∷ []),
    key_eq_iff (pull_key p) k,
  )

  -- A tag that is recent or was pulled recently.
  abbrev pub IsActiveTag : List PullRecord → TagRecord → Type 0
  IsActiveTag pulls t =
      Recent cutoff (t.updated_at ∷ t.created_at ∷ []) ⊎ IsPulled (tag_key t) pulls

  tag_active_iff :
      (pulls : List PullRecord) (t : TagRecord)
      → (tag_active cutoff (active_pull_references cutoff pulls) t ≡ true) ↔ IsActiveTag pulls t
  unfolding tag_active
  tag_active_iff pulls t =
      ground (
        arith,
        Recent-iff cutoff (t.updated_at ∷ t.created_at ∷ []),
        IsPulled-iff (tag_key t) pulls,
      )

  -- An active tag names the manifest.
  abbrev pub IsPointedTo : List PullRecord → Key → List TagRecord → Type 0
  IsPointedTo pulls k = Some (λ t. IsActiveTag pulls t × Same (tagged_key t) k)

  IsPointedTo-iff :
      (pulls : List PullRecord) (k : Key) (ts : List TagRecord)
      → (contains_key k (active_manifests cutoff (active_pull_references cutoff pulls) ts) ≡ true)
        ↔ IsPointedTo pulls k ts
  unfolding active_manifests contains_key
  IsPointedTo-iff pulls k [] = ground arith
  IsPointedTo-iff pulls k (t ∷ ts) =
      ground
        (arith, IsPointedTo-iff pulls k ts, tag_active_iff pulls t, key_eq_iff (tagged_key t) k)

  -- A manifest that is recent or that an active tag points to.
  abbrev pub IsActiveManifest : List PullRecord → List TagRecord → ManifestRecord → Type 0
  IsActiveManifest pulls tags m =
      Recent cutoff (m.updated_at ∷ m.created_at ∷ []) ⊎ IsPointedTo pulls (manifest_key m) tags

  pub manifest_active_iff :
      (pulls : List PullRecord) (tags : List TagRecord) (m : ManifestRecord)
      → (manifest_active cutoff
            (active_manifests cutoff (active_pull_references cutoff pulls) tags)
            m
          ≡ true)
        ↔ IsActiveManifest pulls tags m
  unfolding manifest_active
  manifest_active_iff pulls tags m = ground (
    arith,
    Recent-iff cutoff (m.updated_at ∷ m.created_at ∷ []),
    IsPointedTo-iff pulls (manifest_key m) tags,
  )

  -- The last one of the tags of this name is active.
  abbrev pub LastIsActive : List PullRecord → Key → List TagRecord → Type 0
  LastIsActive pulls k [] = ⊥
  LastIsActive pulls k (t ∷ ts) =
      LastIsActive pulls k ts
      ⊎ ((Some (λ u. Same (tag_key u) k) ts → ⊥) × Same (tag_key t) k × IsActiveTag pulls t)

  last_or_none :
      (pulls : List PullRecord) (k : Key) (ts : List TagRecord)
      → LastIsActive pulls k ts
      → Some (λ u. Same (tag_key u) k) ts
  last_or_none pulls k [] h = h
  last_or_none pulls k (t ∷ ts) (inl h) = inr (last_or_none pulls k ts h)
  last_or_none pulls k (t ∷ ts) (inr (_, s, _)) = inl s

  -- The map of the tags, with what it holds before them.
  active_tags_iff :
      (pulls : List PullRecord) (k : Key) (ts : List TagRecord) (found : List (Key × Bool))
      → (lookup_flag k (active_tags cutoff (active_pull_references cutoff pulls) ts found) ≡ true)
        ↔ (LastIsActive pulls k ts
            ⊎ ((Some (λ u. Same (tag_key u) k) ts → ⊥) × (lookup_flag k found ≡ true)))
  unfolding active_tags lookup_flag
  active_tags_iff pulls k [] found = ground arith
  active_tags_iff pulls k (t ∷ ts) found = ground (
    arith,
    active_tags_iff pulls k ts
        ((tag_key t, tag_active cutoff (active_pull_references cutoff pulls) t) ∷ found),
    tag_active_iff pulls t,
    key_eq_iff (tag_key t) k,
    last_or_none pulls k ts,
  )

  pub last_active_iff :
      (pulls : List PullRecord) (k : Key) (ts : List TagRecord)
      → (lookup_flag k (active_tags cutoff (active_pull_references cutoff pulls) ts []) ≡ true)
        ↔ LastIsActive pulls k ts
  unfolding lookup_flag
  last_active_iff pulls k ts = ground (arith, active_tags_iff pulls k ts [])
