-- ===== src/Coalescer/Leaders.antt =====
-- Every interleaving of the callers of internal/coalescer/tracker.go keeps one leader for each key.
use text.Mathlib.TextEquality.{eq_iff}
use regimux.Prelude.{
  ℕ, ◌+◌, ◌≤◌, ◌<◌, ◌≡◌, ◌≢◌, refl, sym, ◌∙◌, subst, ap, ◌↔◌, ◌⊎◌, inl, inr, Bool, true, false, not,
  Option, none, some, String, arith,
}
use regimux.Coalescer.{ConcurrentMap, FillError, Tracker, new_tracker, begin, finish, wait}

-- What the code relies on: a stored value is found under its key, an old one is kept and answered, and
-- the other keys are left alone.
pub record IsMap (c : ConcurrentMap) : Type 0 where
  pub get-empty : (k : String) → c.get k c.empty ≡ none
  pub get_or_store-old :
      (k : String) (v w : ℕ) (m : c.Map) → c.get k m ≡ some w → (c.get_or_store k v m).0 ≡ (w, true)
  pub get_or_store-new :
      (k : String) (v : ℕ) (m : c.Map) → c.get k m ≡ none → (c.get_or_store k v m).0 ≡ (v, false)
  pub get-kept :
      (k j : String) (v w : ℕ) (m : c.Map)
      → c.get k m ≡ some w
      → c.get j (c.get_or_store k v m).1 ≡ c.get j m
  pub get-stored :
      (k : String) (v : ℕ) (m : c.Map)
      → c.get k m ≡ none
      → c.get k (c.get_or_store k v m).1 ≡ some v
  pub get-other :
      (k j : String) (v : ℕ) (m : c.Map) → j ≢ k → c.get j (c.get_or_store k v m).1 ≡ c.get j m
  pub get-deleted : (k : String) (m : c.Map) → c.get k (c.load_and_delete k m) ≡ none
  pub get-remaining :
      (k j : String) (m : c.Map) → j ≢ k → c.get j (c.load_and_delete k m) ≡ c.get j m

-- Who leads which fill, as a predicate on keys and fills.
abbrev pub Leads : Type 1
Leads = String → ℕ → Type 0

module _ (c : ConcurrentMap) where
  -- Callers take steps in any order: each begins a fill of a key, and one that leads finishes it. The
  -- index says who leads behind the steps.
  pub data Reachable : Tracker c → Leads → Type 1 where
    start : Reachable (new_tracker c) (λ k f. ⊥)
    leads :
        {t : Tracker c} {l : Leads} (k : String)
        → Reachable t l
        → k ≢ ""
        → (begin c k t).0 ≡ (some t.next, true)
        → Reachable (begin c k t).1 (λ j f. ((j ≡ k) × (f ≡ t.next)) ⊎ l j f)
    follows :
        {t : Tracker c} {l : Leads} (k : String) (f : ℕ)
        → Reachable t l
        → k ≢ ""
        → (begin c k t).0 ≡ (some f, false)
        → Reachable (begin c k t).1 l
    finishes :
        {t : Tracker c} {l : Leads} (k : String) (f : ℕ) (e : FillError)
        → Reachable t l
        → l k f
        → Reachable (finish c k f e t) (λ j g. (j ≢ k) × l j g)

  pub record Inv (t : Tracker c) (l : Leads) : Type 0 where
    pub listed : (k : String) (f : ℕ) → l k f ↔ (c.get k t.fills ≡ some f)
    pub pending : (k : String) (f : ℕ) → l k f → (t.outcome f ≡ none) × (f < t.next)
    pub fresh : (f : ℕ) → t.next ≤ f → t.outcome f ≡ none
    pub distinct : (k j : String) (f : ℕ) → l k f → l j f → k ≡ j

  conflict : (a : Option ℕ) (f : ℕ) → a ≡ none → a ≡ some f → ⊥
  conflict a f h k = ground arith

  clash : (b : Bool) → b ≡ true → b ≡ false → ⊥
  clash b h k = ground arith

  some-injective : (a b : ℕ) → some a ≡ some b → a ≡ b
  some-injective a b h = ground arith

  begin_lem :
      (k : String) (t : Tracker c)
      → k ≢ ""
      → begin c k t ≡ (
        (some (c.get_or_store k t.next t.fills).0.0, not (c.get_or_store k t.next t.fills).0.1),
        record t { fills = (c.get_or_store k t.next t.fills).1; next = t.next + 1 },
      )
  unfolding begin
  begin_lem k t h = ground (arith, eq_iff k "")

  module _ (m : IsMap c) where
    begin-old :
        (k : String) (t : Tracker c) (w : ℕ)
        → k ≢ ""
        → c.get k t.fills ≡ some w
        → begin c k t ≡ (
          (some w, false),
          record t { fills = (c.get_or_store k t.next t.fills).1; next = t.next + 1 },
        )
    begin-old k t w h e = begin_lem k t h ∙ (rw (m.get_or_store-old k t.next w t.fills e) refl)

    begin-new :
        (k : String) (t : Tracker c)
        → k ≢ ""
        → c.get k t.fills ≡ none
        → begin c k t ≡ (
          (some t.next, true),
          record t { fills = (c.get_or_store k t.next t.fills).1; next = t.next + 1 },
        )
    begin-new k t h e = begin_lem k t h ∙ (rw (m.get_or_store-new k t.next t.fills e) refl)

    same_or_not : (j k : String) → (j ≡ k) ⊎ (j ≢ k)
    same_or_not j k = ground (arith, eq_iff j k)

    follow-Inv :
        (t : Tracker c) (l : Leads) (k : String) (w : ℕ)
        → c.get k t.fills ≡ some w
        → Inv t l
        → Inv (record t { fills = (c.get_or_store k t.next t.fills).1; next = t.next + 1 }) l
    follow-Inv t l k w e i = record {
      listed = λ j f. rw (m.get-kept k j t.next w t.fills e) (i.listed j f);
      pending = λ j f h. ((i.pending j f h).0, omega (arith, (i.pending j f h).1));
      fresh = λ f h. i.fresh f (omega arith);
      distinct = i.distinct;
    }

    lead-Inv :
        (t : Tracker c) (l : Leads) (k : String)
        → c.get k t.fills ≡ none
        → Inv t l
        → Inv
            (record t { fills = (c.get_or_store k t.next t.fills).1; next = t.next + 1 })
            (λ j f. ((j ≡ k) × (f ≡ t.next)) ⊎ l j f)
    lead-Inv t l k e i = record {
      listed = λ j f. elim (same_or_not j k) [
        | inl p ↦ (
          (elim [
            | inl (_, q) ↦
                ap (λ x. c.get x (c.get_or_store k t.next t.fills).1) p
                ∙ m.get-stored k t.next t.fills e
                ∙ ap (λ x. some x) (sym q)
            | inr h ↦
                elim (conflict (c.get k t.fills) f e
                  (ap (λ x. c.get x t.fills) (sym p) ∙ (i.listed j f).0 h)) [ ]
          ]),
          λ x. inl (
            p,
            some-injective f t.next (
                sym x
                ∙ ap (λ y. c.get y (c.get_or_store k t.next t.fills).1) p
                ∙ m.get-stored k t.next t.fills e),
          ),
        )
        | inr n ↦ (
          (elim [
            | inl (p, _) ↦ elim (n p) [ ]
            | inr h ↦ m.get-other k j t.next t.fills n ∙ (i.listed j f).0 h
          ]),
          λ x. inr ((i.listed j f).1 (sym (m.get-other k j t.next t.fills n) ∙ x)),
        )
      ];
      pending = λ j f. elim [
        | inl (p, q) ↦ (ap (λ x. t.outcome x) q ∙ i.fresh t.next (omega arith), omega (arith, q))
        | inr h ↦ ((i.pending j f h).0, omega (arith, (i.pending j f h).1))
      ];
      fresh = λ f h. i.fresh f (omega arith);
      distinct = λ j g f x y. apart j g f x y;
    }
      where
        apart :
            (j g : String) (f : ℕ)
            → ((j ≡ k) × (f ≡ t.next)) ⊎ l j f
            → ((g ≡ k) × (f ≡ t.next)) ⊎ l g f
            → j ≡ g
        apart j g f (inl (p, q)) (inl (p', q')) = p ∙ sym p'
        apart j g f (inl (p, q)) (inr b) = ground (arith, q, (i.pending g f b).1)
        apart j g f (inr a) (inl (p, q)) = ground (arith, q, (i.pending j f a).1)
        apart j g f (inr a) (inr b) = i.distinct j g f a b

    gone :
        (k j : String) (g : ℕ) (fills : c.Map)
        → j ≡ k
        → c.get j (c.load_and_delete k fills) ≡ some g
        → ⊥
    gone k j g fills p x =
        conflict (c.get k (c.load_and_delete k fills)) g (m.get-deleted k fills)
          (ap (λ y. c.get y (c.load_and_delete k fills)) (sym p) ∙ x)

    finish-Inv :
        (t : Tracker c) (l : Leads) (k : String) (f : ℕ) (e : FillError)
        → l k f
        → Inv t l
        → Inv (finish c k f e t) (λ j g. (j ≢ k) × l j g)
    unfolding finish
    finish-Inv t l k f e h i = record {
      listed = λ j g. elim (same_or_not j k) [
        | inl p ↦ ((λ (n, _). elim (n p) [ ]), λ x. elim (gone k j g t.fills p x) [ ])
        | inr n ↦ (
          (λ (_, x). m.get-remaining k j t.fills n ∙ (i.listed j g).0 x),
          λ x. (n, (i.listed j g).1 (sym (m.get-remaining k j t.fills n) ∙ x)),
        )
      ];
      pending = λ j g (n, x).
          let apart : g ≢ f = (λ q. n (i.distinct j k f (subst (λ y. l j y) q x) h)) in
          (ground (arith, apart, (i.pending j g x).0), (i.pending j g x).1);
      fresh = λ g b. let old : f < t.next = (i.pending k f h).1 in ground (arith, i.fresh g b);
      distinct = λ j g x (_, a) (_, b). i.distinct j g x a b;
    }

    Option-split : (a : Option ℕ) → (a ≡ none) ⊎ ((w : ℕ) × (a ≡ some w))
    Option-split none = inl refl
    Option-split (some w) = inr (w, refl)

    Reachable-Inv : (t : Tracker c) (l : Leads) → Reachable t l → Inv t l
    unfolding new_tracker
    Reachable-Inv _ _ start = record {
      listed = λ k f.
          ((λ h. elim h [ ]), λ h. elim (conflict (c.get k c.empty) f (m.get-empty k) h) [ ]);
      pending = λ k f h. elim h [ ];
      fresh = λ f h. refl;
      distinct = λ k j f h. elim h [ ];
    }
    Reachable-Inv _ _ (leads {t = t} {l = l} k r h e) =
        let i = Reachable-Inv t l r in
        elim (Option-split (c.get k t.fills)) [
          | inl o ↦
              subst (λ x. Inv x (λ j f. ((j ≡ k) × (f ≡ t.next)) ⊎ l j f))
                (ap (λ x. x.1) (sym (begin-new k t h o))) (lead-Inv t l k o i)
          | inr (w, o) ↦
              elim (clash ((begin c k t).0.1) (ap (λ x. x.1) e)
                (ap (λ x. x.0.1) (begin-old k t w h o))) [ ]
        ]
    Reachable-Inv _ _ (follows {t = t} {l = l} k f r h e) =
        let i = Reachable-Inv t l r in
        elim (Option-split (c.get k t.fills)) [
          | inl o ↦
              elim (clash ((begin c k t).0.1) (ap (λ x. x.0.1) (begin-new k t h o))
                (ap (λ x. x.1) e)) [ ]
          | inr (w, o) ↦
              subst (λ x. Inv x l) (ap (λ x. x.1) (sym (begin-old k t w h o)))
                (follow-Inv t l k w o i)
        ]
    Reachable-Inv _ _ (finishes {t = t} {l = l} k f e r h) =
        finish-Inv t l k f e h (Reachable-Inv t l r)

    -- Over a map that keeps its promises, in every interleaving of callers: one that leads a
    -- key is the only one, its fill is open, and when it finishes, those who wait for the fill
    -- get its error and the next caller of the key leads a new one.
    pub Reachable-leads :
        (t : Tracker c) (l : Leads) (k : String) (f : ℕ)
        → Reachable t l
        → l k f
        → k ≢ ""
        → ((g : ℕ) → l k g → f ≡ g)
          × (wait c f t ≡ none)
          × ((e : FillError)
              → (wait c f (finish c k f e t) ≡ some e)
                × ((begin c k (finish c k f e t)).0 ≡ (some t.next, true)))
    unfolding wait finish
    Reachable-leads t l k f r h n =
        let i = Reachable-Inv t l r in
        (
          (λ g x. some-injective f g (sym ((i.listed k f).0 h) ∙ (i.listed k g).0 x)),
          (i.pending k f h).0,
          λ e. (
            ground arith,
            ap (λ x. x.0) (begin-new k (finish c k f e t) n (m.get-deleted k t.fills)),
          ),
        )

    -- Over a map that keeps its promises, in every interleaving of callers: one that is told
    -- to wait for a fill waits for one that somebody leads.
    pub Reachable-follows :
        (t : Tracker c) (l : Leads) (k : String) (f : ℕ)
        → Reachable t l
        → k ≢ ""
        → (begin c k t).0 ≡ (some f, false)
        → l k f
    Reachable-follows t l k f r n e =
        let i = Reachable-Inv t l r in
        elim (Option-split (c.get k t.fills)) [
          | inl o ↦
              elim (clash ((begin c k t).0.1) (ap (λ x. x.0.1) (begin-new k t n o))
                (ap (λ x. x.1) e)) [ ]
          | inr (w, o) ↦
              let same =
                some-injective w f
                  (ap (λ x. x.0.0) (sym (begin-old k t w n o)) ∙ ap (λ x. x.0) e) in
              (i.listed k f).1 (o ∙ ap (λ x. some x) same)
        ]
