-- ===== src/Endpoints/Choice.antt =====
-- Which endpoints internal/ecosystem/endpoint_selector.go tries, and which records it goes by.
use regimux.Prelude.{
  In, ◌≡◌, ◌≢◌, refl, sym, ◌∙◌, ap, inl, inr, ◌↔◌, true, false, List, [], ◌∷◌, arith, if◌then◌else◌,
}
use regimux.Prelude.Order.{second}
use regimux.Endpoints.{
  EndpointHealthCandidate, healthy, filter_healthy, prioritize_endpoint_candidates,
  compare_endpoint_health_candidate,
}

-- No later candidate goes before an earlier one.
abbrev pub IsOrdered : List EndpointHealthCandidate → Type 0
IsOrdered [] = Unit {0}
IsOrdered (c ∷ cs) =
    ((d : EndpointHealthCandidate) → In d cs → compare_endpoint_health_candidate c d ≢ second)
    × IsOrdered cs

In-filter_healthy :
    (c : EndpointHealthCandidate) (cs : List EndpointHealthCandidate)
    → In c (filter_healthy cs) ↔ In c cs × (healthy c ≡ true)
unfolding filter_healthy
In-filter_healthy c [] = ((λ h. elim h [ ]), λ (h, k). h)
In-filter_healthy c (d ∷ cs) =
    elim (healthy d)
        as (λ b.
          healthy d ≡ b
          → In c (if b then d ∷ filter_healthy cs else filter_healthy cs)
            ↔ In c (d ∷ cs) × (healthy c ≡ true)) [
              | true ↦ λ e. (
                (elim [
                  | inl p ↦ (inl p, ap healthy p ∙ e)
                  | inr l ↦ (inr ((In-filter_healthy c cs).0 l).0, ((In-filter_healthy c cs).0 l).1)
                ]),
                λ (l, h). elim l [
                  | inl p ↦ inl p
                  | inr k ↦ inr ((In-filter_healthy c cs).1 (k, h))
                ],
              )
              | false ↦ λ e. (
                (λ l. (inr ((In-filter_healthy c cs).0 l).0, ((In-filter_healthy c cs).0 l).1)),
                λ (l, h). elim l [
                  | inl p ↦ elim (not_both d e (sym (ap healthy p) ∙ h)) [ ]
                  | inr k ↦ (In-filter_healthy c cs).1 (k, h)
                ],
              )
            ]
      refl
  where
    not_both : (d : EndpointHealthCandidate) → healthy d ≡ false → healthy d ≡ true → ⊥
    not_both d e f = ground arith

filter_healthy-IsOrdered :
    (cs : List EndpointHealthCandidate) → IsOrdered cs → IsOrdered (filter_healthy cs)
unfolding filter_healthy
filter_healthy-IsOrdered [] h = tt
filter_healthy-IsOrdered (c ∷ cs) (h, k) =
    elim (healthy c)
        as (λ b.
          healthy c ≡ b → IsOrdered (if b then c ∷ filter_healthy cs else filter_healthy cs)) [
            | true ↦
                λ e. ((λ d l. h d ((In-filter_healthy d cs).0 l).0), filter_healthy-IsOrdered cs k)
            | false ↦ λ e. filter_healthy-IsOrdered cs k
          ]
      refl

-- What the choice among candidates promises: one that is healthy drives out those that are not, none
-- is dropped where all are unhealthy, and the better ones go first.
abbrev pub IsChoice : List EndpointHealthCandidate → List EndpointHealthCandidate → Type 0
IsChoice cs ps =
    ((c : EndpointHealthCandidate)
      → In c cs
      → healthy c ≡ true
      → (d : EndpointHealthCandidate) → In d ps ↔ In d cs × (healthy d ≡ true))
    × (((c : EndpointHealthCandidate) → In c cs → healthy c ≡ false)
        → (d : EndpointHealthCandidate) → In d ps ↔ In d cs)
    × IsOrdered ps

module _ (sort : List EndpointHealthCandidate → List EndpointHealthCandidate)
    (In-sort : (c : EndpointHealthCandidate) (cs : List EndpointHealthCandidate)
      → In c (sort cs) ↔ In c cs)
    (sort-IsOrdered : (cs : List EndpointHealthCandidate) → IsOrdered (sort cs)) where
  In-healthy :
      (c : EndpointHealthCandidate) (cs : List EndpointHealthCandidate)
      → In c (filter_healthy (sort cs)) ↔ In c cs × (healthy c ≡ true)
  In-healthy c cs =
      let (f, g) = In-filter_healthy c (sort cs) in
      let (h, k) = In-sort c cs in ((λ l. (h (f l).0, (f l).1)), λ (l, e). g (k l, e))

  -- For any sort that keeps the candidates and puts none before one that compares as better:
  -- if one candidate is healthy then exactly the healthy ones are tried, if none is then all
  -- are, and none goes before one that compares as better.
  pub prioritize_endpoint_candidates-IsChoice :
      (cs : List EndpointHealthCandidate) → IsChoice cs (prioritize_endpoint_candidates sort cs)
  unfolding prioritize_endpoint_candidates
  prioritize_endpoint_candidates-IsChoice [] =
      ((λ c l. elim l [ ]), (λ h d. ((λ l. l), λ l. l)), tt)
  prioritize_endpoint_candidates-IsChoice (c ∷ []) = (
    (λ b l h d. ((λ k. (k, single b d l k h)), λ (k, _). k)),
    (λ h d. ((λ l. l), λ l. l)),
    ((λ d l. elim l [ ]), tt),
  )
    where
      single :
          (b d : EndpointHealthCandidate)
          → In b (c ∷ [])
          → In d (c ∷ [])
          → healthy b ≡ true
          → healthy d ≡ true
      single b d (inl p) (inl q) h = ap healthy (q ∙ sym p) ∙ h
      single b d (inl p) (inr x) h = elim x [ ]
      single b d (inr x) l h = elim x [ ]
  prioritize_endpoint_candidates-IsChoice (c ∷ d ∷ cs) =
      go (filter_healthy (sort (c ∷ d ∷ cs))) (λ x. In-healthy x (c ∷ d ∷ cs))
        (filter_healthy-IsOrdered _ (sort-IsOrdered (c ∷ d ∷ cs)))
    where
      absurd : (x : EndpointHealthCandidate) → healthy x ≡ false → healthy x ≡ true → ⊥
      absurd x e f = ground arith

      go :
          (hs : List EndpointHealthCandidate)
          → ((x : EndpointHealthCandidate) → In x hs ↔ In x (c ∷ d ∷ cs) × (healthy x ≡ true))
          → IsOrdered hs
          → IsChoice (c ∷ d ∷ cs) (elim hs as (λ _. List EndpointHealthCandidate) [
            | [] ↦ sort (c ∷ d ∷ cs)
            | h ∷ t ↦ h ∷ t
          ])
      go [] f o = (
        (λ x l h. elim ((f x).1 (l, h)) [ ]),
        (λ h x. In-sort x (c ∷ d ∷ cs)),
        sort-IsOrdered (c ∷ d ∷ cs),
      )
      go (h ∷ t) f o = (
        (λ x l e. f),
        (λ none x. elim (absurd h (none h ((f h).0 (inl refl)).0) ((f h).0 (inl refl)).1) [ ]),
        o,
      )
