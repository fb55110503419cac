-- ===== src/Endpoints/Sorting.antt =====
-- A sort that keeps the promise which internal/ecosystem/endpoint_selector.go relies on.
use regimux.Prelude.{
  In, ◌+◌, ◌<◌, ◌≡◌, ◌≢◌, refl, sym, subst, ◌⊎◌, inl, inr, ◌↔◌, List, [], ◌∷◌, arith,
}
use regimux.Prelude.Int.{pos_part, neg_part}
use regimux.Prelude.Order.{Compared, first, second, either}
use regimux.Endpoints.{
  EndpointHealthCandidate, endpoint_health_penalty, compare_endpoint_health_candidate,
}
use regimux.Endpoints.Choice.{IsOrdered}

-- The three keys of a comparison, the score as a difference of two numbers.
abbrev Above : EndpointHealthCandidate → EndpointHealthCandidate → Type 0
Above x y =
    (endpoint_health_penalty y < endpoint_health_penalty x)
    ⊎ ((endpoint_health_penalty x ≡ endpoint_health_penalty y)
        × ((pos_part y.score + neg_part x.score < pos_part x.score + neg_part y.score)
            ⊎ ((pos_part x.score + neg_part y.score ≡ pos_part y.score + neg_part x.score)
                × (y.original_idx < x.original_idx))))

second_iff :
    (x y : EndpointHealthCandidate) → (compare_endpoint_health_candidate x y ≡ second) ↔ Above x y
unfolding compare_endpoint_health_candidate
second_iff x y = ground arith

goes_trans :
    (x y z : EndpointHealthCandidate)
    → compare_endpoint_health_candidate x y ≢ second
    → compare_endpoint_health_candidate y z ≢ second
    → compare_endpoint_health_candidate x z ≢ second
goes_trans x y z h k = ground (arith, second_iff x y, second_iff y z, second_iff x z)

goes_total :
    (x y : EndpointHealthCandidate)
    → compare_endpoint_health_candidate x y ≡ second
    → compare_endpoint_health_candidate y x ≢ second
goes_total x y h = ground (arith, second_iff x y, second_iff y x)

insert : EndpointHealthCandidate → List EndpointHealthCandidate → List EndpointHealthCandidate
insert c [] = c ∷ []
insert c (x ∷ xs) =
    let rest = insert c xs in
    elim (compare_endpoint_health_candidate c x) [
      | first ↦ c ∷ x ∷ xs
      | either ↦ c ∷ x ∷ xs
      | second ↦ x ∷ rest
    ]

pub insertion_sort : List EndpointHealthCandidate → List EndpointHealthCandidate
unfolding insert
insertion_sort [] = []
insertion_sort (x ∷ xs) = insert x (insertion_sort xs)

abbrev Inserted :
    EndpointHealthCandidate → List EndpointHealthCandidate → List EndpointHealthCandidate → Type 0
Inserted c xs ys =
    (IsOrdered xs → IsOrdered ys) × ((d : EndpointHealthCandidate) → In d ys ↔ In d (c ∷ xs))

insert-Inserted :
    (c : EndpointHealthCandidate) (xs : List EndpointHealthCandidate) → Inserted c xs (insert c xs)
unfolding insert
insert-Inserted c [] = ((λ h. ((λ d l. elim l [ ]), tt)), λ d. ((λ l. l), λ l. l))
insert-Inserted c (x ∷ xs) = go (compare_endpoint_health_candidate c x) refl (insert-Inserted c xs)
  where
    front : compare_endpoint_health_candidate c x ≢ second → Inserted c (x ∷ xs) (c ∷ x ∷ xs)
    front h = (
      (λ o. (
        (λ d. elim [
          | inl p ↦ subst (λ y. compare_endpoint_health_candidate c y ≢ second) (sym p) h
          | inr l ↦ goes_trans c x d h (o.0 d l)
        ]),
        o,
      )),
      λ d. ((λ l. l), λ l. l),
    )

    go :
        (r : Compared)
        → compare_endpoint_health_candidate c x ≡ r
        → Inserted c xs (insert c xs)
        → Inserted c
            (x ∷ xs)
            (elim r [ first ↦ c ∷ x ∷ xs | either ↦ c ∷ x ∷ xs | second ↦ x ∷ insert c xs ])
    go first e _ = front (λ f. ground arith)
    go either e _ = front (λ f. ground arith)
    go second e (o, i) = (
      (λ h. (
        (λ d l. elim ((i d).0 l) [
          | inl p ↦
              subst (λ y. compare_endpoint_health_candidate x y ≢ second) (sym p) (goes_total c x e)
          | inr k ↦ h.0 d k
        ]),
        o h.1,
      )),
      λ d. (
        (elim [
          | inl p ↦ inr (inl p)
          | inr l ↦ elim ((i d).0 l) [ inl p ↦ inl p | inr k ↦ inr (inr k) ]
        ]),
        elim [
          | inl p ↦ inr ((i d).1 (inl p))
          | inr l ↦ elim l [ inl p ↦ inl p | inr k ↦ inr ((i d).1 (inr k)) ]
        ],
      ),
    )

pub In-insertion_sort :
    (c : EndpointHealthCandidate) (xs : List EndpointHealthCandidate)
    → In c (insertion_sort xs) ↔ In c xs
unfolding insertion_sort
In-insertion_sort c [] = ((λ l. l), λ l. l)
In-insertion_sort c (x ∷ xs) =
    let i = (insert-Inserted x (insertion_sort xs)).1 c in
    let (f, g) = In-insertion_sort c xs in
    (
      (λ l. elim (i.0 l) [ inl p ↦ inl p | inr k ↦ inr (f k) ]),
      λ l. i.1 (elim l [ inl p ↦ inl p | inr k ↦ inr (g k) ]),
    )

pub insertion_sort-IsOrdered : (xs : List EndpointHealthCandidate) → IsOrdered (insertion_sort xs)
unfolding insertion_sort
insertion_sort-IsOrdered [] = tt
insertion_sort-IsOrdered (x ∷ xs) =
    (insert-Inserted x (insertion_sort xs)).0 (insertion_sort-IsOrdered xs)
