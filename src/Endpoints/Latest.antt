-- ===== src/Endpoints/Latest.antt =====
-- Which record internal/ecosystem/endpoint_selector.go goes by for an endpoint.
use regimux.Prelude.{
  In, ◌≤◌, ◌≡◌, ◌≢◌, refl, sym, ◌∙◌, ap, subst, ◌⊎◌, inl, inr, Bool, true, false, List, [], ◌∷◌,
  Option, none, some, arith, if◌then◌else◌, ltb,
}
use regimux.Prelude.Bytes.{Bytes, bytes_eq, bytes_eq_iff}
use regimux.Endpoints.{
  EndpointHealthRecord, RecordMap, get, put, collect_latest, normalize_endpoint, is_empty,
}

get-put :
    (k j : Bytes) (r : EndpointHealthRecord) (m : RecordMap)
    → get k (put j r m) ≡ (if bytes_eq j k then some r else get k m)
unfolding get put
get-put k j r [] = refl
get-put k j r ((i, q) ∷ m) =
    ground (arith, get-put k j r m, bytes_eq_iff i j, bytes_eq_iff i k, bytes_eq_iff j k)

-- What is found for a key behind the records `rs`, where `before` was found ahead of them.
abbrev pub IsLatest :
    Bytes
    → Option EndpointHealthRecord
    → List EndpointHealthRecord
    → Option EndpointHealthRecord
    → Type 0
IsLatest k before rs none =
    (before ≡ none) × ((r : EndpointHealthRecord) → In r rs → normalize_endpoint r.registry ≢ k)
IsLatest k before rs (some q) =
    ((before ≡ some q) ⊎ (In q rs × (normalize_endpoint q.registry ≡ k)))
    × ((x : EndpointHealthRecord) → before ≡ some x → x.updated_at ≤ q.updated_at)
    × ((r : EndpointHealthRecord)
        → In r rs
        → normalize_endpoint r.registry ≡ k
        → r.updated_at ≤ q.updated_at)

-- The body of the loop for one record.
abbrev step : EndpointHealthRecord → RecordMap → RecordMap
step r m =
    let registry = normalize_endpoint r.registry in
    if is_empty registry then m else elim (get registry m) [
      | none ↦ put registry r m
      | some existing ↦ if ltb existing.updated_at r.updated_at then put registry r m else m
    ]

-- A record of another endpoint changes nothing for a key.
step_other :
    (r : EndpointHealthRecord) (m : RecordMap) (k : Bytes)
    → normalize_endpoint r.registry ≢ k
    → get k (step r m) ≡ get k m
step_other r m k h = ground (
  arith,
  get-put k (normalize_endpoint r.registry) r m,
  bytes_eq_iff (normalize_endpoint r.registry) k,
)

newer : EndpointHealthRecord → Option EndpointHealthRecord → EndpointHealthRecord
newer r none = r
newer r (some x) = if ltb x.updated_at r.updated_at then r else x

step_same :
    (r : EndpointHealthRecord) (m : RecordMap) (k : Bytes)
    → is_empty k ≡ false
    → normalize_endpoint r.registry ≡ k
    → get k (step r m) ≡ some (newer r (get k m))
unfolding newer
step_same r m k h e = ground (
  arith,
  get-put k (normalize_endpoint r.registry) r m,
  bytes_eq_iff (normalize_endpoint r.registry) k,
)

other-IsLatest :
    (k : Bytes) (r : EndpointHealthRecord) (rs : List EndpointHealthRecord)
    (before out : Option EndpointHealthRecord)
    → normalize_endpoint r.registry ≢ k
    → IsLatest k before rs out
    → IsLatest k before (r ∷ rs) out
other-IsLatest k r rs before none h (e, f) = (
  e,
  λ x. elim [
    | inl p ↦ λ q. h (sym (ap (λ y. normalize_endpoint y.registry) p) ∙ q)
    | inr l ↦ f x l
  ],
)
other-IsLatest k r rs before (some q) h (a, b, c) = (
  (elim a [ inl e ↦ inl e | inr (l, e) ↦ inr (inr l, e) ]),
  b,
  λ x. elim [
    | inl p ↦ λ e. elim (h (sym (ap (λ y. normalize_endpoint y.registry) p) ∙ e)) [ ]
    | inr l ↦ c x l
  ],
)

same-IsLatest :
    (k : Bytes) (r : EndpointHealthRecord) (rs : List EndpointHealthRecord)
    (before out : Option EndpointHealthRecord)
    → normalize_endpoint r.registry ≡ k
    → IsLatest k (some (newer r before)) rs out
    → IsLatest k before (r ∷ rs) out
unfolding newer
same-IsLatest k r rs before none h (e, f) = ground arith
same-IsLatest k r rs none (some q) h (a, b, c) = (
  (elim a [ inl e ↦ inr (inl (ground arith), (ground arith)) | inr (l, e) ↦ inr (inr l, e) ]),
  (λ x e. ground arith),
  λ x. elim [ inl p ↦ λ e. let h = b r refl in ground arith | inr l ↦ c x l ],
)
same-IsLatest k r rs (some y) (some q) h (a, b, c) =
    let top = b (newer r (some y)) refl in
    (
      found (ltb y.updated_at r.updated_at) refl a,
      (λ x e. ground arith),
      λ x. elim [ inl p ↦ λ e. bound x p top | inr l ↦ c x l ],
    )
  where
    bound :
        (x : EndpointHealthRecord)
        → x ≡ r
        → (newer r (some y)).updated_at ≤ q.updated_at
        → x.updated_at ≤ q.updated_at
    bound x p t = ground arith

    found :
        (b : Bool)
        → ltb y.updated_at r.updated_at ≡ b
        → (some (if b then r else y) ≡ some q) ⊎ (In q rs × (normalize_endpoint q.registry ≡ k))
        → (some y ≡ some q) ⊎ (In q (r ∷ rs) × (normalize_endpoint q.registry ≡ k))
    found true e (inl f) =
        let p : r ≡ q = ground arith in
        inr (inl (sym p), ap (λ z. normalize_endpoint z.registry) (sym p) ∙ h)
    found false e (inl f) = inl f
    found b e (inr (l, g)) = inr (inr l, g)

collect_latest-IsLatest :
    (k : Bytes) (rs : List EndpointHealthRecord) (m : RecordMap)
    → is_empty k ≡ false
    → IsLatest k (get k m) rs (get k (collect_latest rs m))
unfolding collect_latest
collect_latest-IsLatest k [] m h = go (get k m)
  where
    go : (o : Option EndpointHealthRecord) → IsLatest k o [] o
    go none = (refl, λ r l. elim l [ ])
    go (some q) = (inl refl, (λ x e. ground arith), λ r l. elim l [ ])
collect_latest-IsLatest k (r ∷ rs) m h =
    elim (bytes_eq (normalize_endpoint r.registry) k)
        as (λ b.
          bytes_eq (normalize_endpoint r.registry) k ≡ b
          → IsLatest k (get k m) (r ∷ rs) (get k (collect_latest rs (step r m)))) [
            | true ↦ λ e.
                let same = (bytes_eq_iff (normalize_endpoint r.registry) k).0 e in
                same-IsLatest k r rs (get k m) _ same (
                  subst (λ o. IsLatest k o rs (get k (collect_latest rs (step r m))))
                    (step_same r m k h same) (collect_latest-IsLatest k rs (step r m) h))
            | false ↦ λ e.
                let other : normalize_endpoint r.registry ≢ k =
                  (λ p. ground (arith, (bytes_eq_iff (normalize_endpoint r.registry) k).1 p)) in
                other-IsLatest k r rs (get k m) _ other (
                  subst (λ o. IsLatest k o rs (get k (collect_latest rs (step r m))))
                    (step_other r m k other) (collect_latest-IsLatest k rs (step r m) h))
          ]
      refl

-- For an endpoint that is not empty: the map built from a listing has no record for it exactly if no
-- row of the listing names it, and otherwise the record of a row that names it, than which no row
-- that names it was updated later.
pub collect_latest_lem :
    (k : Bytes) (rs : List EndpointHealthRecord)
    → is_empty k ≡ false
    → IsLatest k none rs (get k (collect_latest rs []))
unfolding get
collect_latest_lem k rs h = collect_latest-IsLatest k rs [] h
