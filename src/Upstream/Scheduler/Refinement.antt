-- ===== src/Upstream/Scheduler/Refinement.antt =====
-- The counts of internal/ecosystems/container/upstream/layer_scheduler.go against the reservations that
-- are not released yet.
use regimux.Prelude.{
  ℕ, zero, suc, ◌+◌, ◌<◌, ◌≤◌, ◌≡◌, refl, subst, Bool, true, false, List, [], ◌∷◌, Option, none,
  some, map, foldl, length, take, min, if◌then◌else◌, arith, ◌||◌, leb, length-map,
}
use regimux.Prelude.Int.{ℤ, pos, pos_part, half_word, leb_ℤ}
use regimux.Prelude.Bytes.{Bytes, is_empty}
use regimux.Upstream.Health.{EndpointHealthOptions}
use regimux.Upstream.Scheduler.{
  UpstreamRuntime, EndpointRuntimeCandidate, LayerSchedulerCandidate, LayerScheduler, initialised,
  new_layer_scheduler,
}
use regimux.Upstream.Scheduler.Reservations.{
  prune_recent, reserve, release, release_one, reserve_one, schedule, Reservation, System, Action,
  scheduled, called, mark_done, call, with_reservation, act, act_all, registry_of,
}
use regimux.Upstream.Scheduler.Counts.{
  counted, occurrences, pair_occurrences, Holds, Holds-cong, occurrences-le, reserve_all-Holds,
  release_all-Holds,
}

-- How often a registry stands in the reservations that are not released.
abbrev pub outstanding : List Reservation → Bytes → ℕ
outstanding [] k = 0
outstanding (r ∷ rs) k = (if r.done then 0 else occurrences k r.registries) + outstanding rs k

-- The same among the reservations of one digest.
abbrev pub outstanding_of : List Reservation → Bytes → Bytes → ℕ
outstanding_of [] d k = 0
outstanding_of (r ∷ rs) d k =
    (if r.done then 0 else pair_occurrences d r.digest k r.registries) + outstanding_of rs d k

-- At most so many registries are reserved in all.
abbrev pub reserved : List Action → ℕ
reserved [] = 0
reserved (scheduled digest candidates top_n reserve_count now ∷ actions) =
    pos_part reserve_count + reserved actions
reserved (called i ∷ actions) = reserved actions

abbrev pub start : EndpointHealthOptions → System
start opts = record { scheduler = new_layer_scheduler opts; reservations = [] }

abbrev Tracks : ℕ → System → Type 0
Tracks n s =
    Holds s.scheduler (outstanding s.reservations) (outstanding_of s.reservations)
    × ((k : Bytes) → outstanding s.reservations k ≤ n)
    × ((d k : Bytes) → outstanding_of s.reservations d k ≤ n)

mark_done-le :
    (i : ℕ) (rs : List Reservation)
    → ((k : Bytes) → outstanding (mark_done i rs) k ≤ outstanding rs k)
      × ((d k : Bytes) → outstanding_of (mark_done i rs) d k ≤ outstanding_of rs d k)
unfolding mark_done
mark_done-le i [] = ((λ k. omega arith), λ d k. omega arith)
mark_done-le zero (r ∷ rs) = ((λ k. ground arith), λ d k. ground arith)
mark_done-le (suc i) (r ∷ rs) =
    ((λ k. omega (arith, (mark_done-le i rs).0 k)), λ d k. omega (arith, (mark_done-le i rs).1 d k))

release_once :
    (done : Bool) (ks : List Bytes) (digest : Bytes) (s : LayerScheduler) (f o : Bytes → ℕ)
    (g q : Bytes → Bytes → ℕ)
    → ((k : Bytes) → f k + ((if done then 0 else occurrences k ks) + o k) < half_word)
    → ((d k : Bytes)
        → g d k + ((if done then 0 else pair_occurrences d digest k ks) + q d k) < half_word)
    → Holds s
        (λ k. f k + ((if done then 0 else occurrences k ks) + o k))
        (λ d k. g d k + ((if done then 0 else pair_occurrences d digest k ks) + q d k))
    → Holds
        (if done then s else release digest ks s)
        (λ k. f k + (0 + o k))
        (λ d k. g d k + (0 + q d k))
unfolding release
release_once true ks digest s f o g q a b h = h
release_once false ks digest s f o g q a b h =
    Holds-cong (foldl (release_one digest) s ks) _ _ _ _ (λ k. omega arith) (λ d k. omega arith)
      (release_all-Holds ks s _ _ digest a b h)

-- A call gives back what its reservation holds; `f` and `g` count the reservations before it.
call-Holds :
    (i : ℕ) (rs : List Reservation) (s : LayerScheduler) (f : Bytes → ℕ) (g : Bytes → Bytes → ℕ)
    → ((k : Bytes) → f k + outstanding rs k < half_word)
    → ((d k : Bytes) → g d k + outstanding_of rs d k < half_word)
    → Holds s (λ k. f k + outstanding rs k) (λ d k. g d k + outstanding_of rs d k)
    → Holds
        (call i rs s)
        (λ k. f k + outstanding (mark_done i rs) k)
        (λ d k. g d k + outstanding_of (mark_done i rs) d k)
unfolding call mark_done
call-Holds i [] s f g a b h = h
call-Holds zero (r ∷ rs) s f g a b h =
    release_once r.done r.registries r.digest s f (outstanding rs) g (outstanding_of rs) a b h
call-Holds (suc i) (r ∷ rs) s f g a b h =
    let x : Bytes → ℕ = λ k. if r.done then 0 else occurrences k r.registries in
    let y : Bytes → Bytes → ℕ =
      λ d k. if r.done then 0 else pair_occurrences d r.digest k r.registries in
    Holds-cong (call i rs s) _ _ _ _ (λ k. omega arith) (λ d k. omega arith)
      (call-Holds i rs s (λ k. f k + x k) (λ d k. g d k + y d k) (λ k. omega (arith, a k))
        (λ d k. omega (arith, b d k))
        (Holds-cong s _ _ _ _ (λ k. omega arith) (λ d k. omega arith) h))

length-take-le : {A : Type 0} (n : ℕ) (xs : List A) → length (take n xs) ≤ n
length-take-le zero xs = omega arith
length-take-le (suc n) [] = omega arith
length-take-le (suc n) (x ∷ xs) = omega (arith, length-take-le n xs)

-- What a reservation adds.
abbrev Grown : Bytes → ℕ → List Reservation → LayerScheduler × Option (List Bytes) → Type 0
Grown digest n rs (s, none) = Holds s (outstanding rs) (outstanding_of rs)
Grown digest n rs (s, some ks) =
    (length ks ≤ n)
    × Holds s (λ k. occurrences k ks + outstanding rs k)
        (λ d k. pair_occurrences d digest k ks + outstanding_of rs d k)

reserve-Grown :
    (digest : Bytes) (candidates : List LayerSchedulerCandidate) (reserve_count : ℤ) (now m : ℕ)
    (s : LayerScheduler) (rs : List Reservation)
    → m + pos_part reserve_count < half_word
    → ((k : Bytes) → outstanding rs k ≤ m)
    → ((d k : Bytes) → outstanding_of rs d k ≤ m)
    → Holds s (outstanding rs) (outstanding_of rs)
    → Grown digest (pos_part reserve_count) rs (reserve digest candidates reserve_count now s)
unfolding reserve
reserve-Grown digest candidates reserve_count now m s rs small a b h =
    pick (leb_ℤ reserve_count (pos 0) || leb (length candidates) 0) (s, none)
      (foldl (reserve_one digest now) s registries, some registries) h
      (
        le,
        reserve_all-Holds registries s _ _ digest now (λ k. omega (arith, a k, le))
            (λ d k. omega (arith, b d k, le)) h,
      )
  where
    chosen : List LayerSchedulerCandidate
    chosen = take (min (pos_part reserve_count) (length candidates)) candidates

    registries : List Bytes
    registries = map registry_of chosen

    le : length registries ≤ pos_part reserve_count
    le = omega (
      arith,
      length-map chosen registry_of,
      length-take-le (min (pos_part reserve_count) (length candidates)) candidates,
    )

    pick :
        (c : Bool) (p q : LayerScheduler × Option (List Bytes))
        → Grown digest (pos_part reserve_count) rs p
        → Grown digest (pos_part reserve_count) rs q
        → Grown digest (pos_part reserve_count) rs (if c then p else q)
    pick true p q h k = h
    pick false p q h k = k

with_reservation-Tracks :
    (digest : Bytes) (rs : List Reservation) (n m : ℕ)
    (r : LayerScheduler × List UpstreamRuntime × Option (List Bytes))
    → ((k : Bytes) → outstanding rs k ≤ n)
    → ((d k : Bytes) → outstanding_of rs d k ≤ n)
    → Grown digest m rs (r.0, r.2)
    → Tracks (n + (m + 0)) (with_reservation digest rs r)
unfolding with_reservation
with_reservation-Tracks digest rs n m (s, _, none) a b h =
    (h, (λ k. omega (arith, a k)), λ d k. omega (arith, b d k))
with_reservation-Tracks digest rs n m (s, _, some ks) a b (le, h) = (
  h,
  (λ k. omega (arith, a k, occurrences-le k ks)),
  λ d k. ground (arith, b d k, occurrences-le k ks),
)

split :
    (a : Action) (actions : List Action)
    → reserved (a ∷ actions) ≡ reserved (a ∷ []) + reserved actions
split (scheduled _ _ _ _ _) actions = omega arith
split (called _) actions = omega arith

module _ (sort : List LayerSchedulerCandidate → List LayerSchedulerCandidate) where
  schedule-Grown :
      (digest : Bytes) (candidates : List EndpointRuntimeCandidate) (top_n reserve_count : ℤ)
      (now n : ℕ) (s : LayerScheduler) (rs : List Reservation)
      → n + pos_part reserve_count < half_word
      → ((k : Bytes) → outstanding rs k ≤ n)
      → ((d k : Bytes) → outstanding_of rs d k ≤ n)
      → Holds s (outstanding rs) (outstanding_of rs)
      → Grown digest (pos_part reserve_count) rs (
        (schedule sort digest candidates top_n reserve_count now s).0,
        (schedule sort digest candidates top_n reserve_count now s).2,
      )
  unfolding schedule initialised prune_recent
  schedule-Grown digest candidates top_n reserve_count now n s rs small a b h =
      elim (leb (length candidates) 1)
          as (λ c.
            (r : LayerScheduler × List UpstreamRuntime × Option (List Bytes))
            → Grown digest (pos_part reserve_count) rs (r.0, r.2)
            → Grown digest (pos_part reserve_count) rs (
              (if c then (s, map (λ c. c.runtime) candidates, none) else r).0,
              (if c then (s, map (λ c. c.runtime) candidates, none) else r).2,
            )) [ true ↦ λ r k. h | false ↦ λ r k. k ]
        _
        (reserve-Grown digest _ reserve_count now n (prune_recent (initialised s) now) rs small a b
          h)

  act-Tracks :
      (a : Action) (s : System) (n : ℕ)
      → n + reserved (a ∷ []) < half_word
      → Tracks n s
      → Tracks (n + reserved (a ∷ [])) (act sort a s)
  unfolding act
  act-Tracks (called i) s n small (h, a, b) = (
    Holds-cong (call i s.reservations s.scheduler) _ _ _ _ (λ k. omega arith) (λ d k. omega arith)
        (call-Holds i s.reservations s.scheduler (λ k. 0) (λ d k. 0) (λ k. omega (arith, a k))
          (λ d k. omega (arith, b d k))
          (Holds-cong s.scheduler _ _ _ _ (λ k. omega arith) (λ d k. omega arith) h)),
    (λ k. omega (arith, a k, (mark_done-le i s.reservations).0 k)),
    λ d k. omega (arith, b d k, (mark_done-le i s.reservations).1 d k),
  )
  act-Tracks (scheduled digest candidates top_n reserve_count now) s n small (h, a, b) =
      with_reservation-Tracks digest s.reservations n (pos_part reserve_count)
        (schedule sort digest candidates top_n reserve_count now s.scheduler) a b
        (schedule-Grown digest candidates top_n reserve_count now n s.scheduler s.reservations
          (omega arith) a b h)

  act_all-Tracks :
      (actions : List Action) (s : System) (n : ℕ)
      → n + reserved actions < half_word
      → Tracks n s
      → Tracks (n + reserved actions) (act_all sort actions s)
  unfolding act_all
  act_all-Tracks [] s n small h = subst (λ m. Tracks m s) (omega arith) h
  act_all-Tracks (a ∷ actions) s n small h =
      subst (λ m. Tracks m (act_all sort actions (act sort a s))) (omega (arith, split a actions))
        (act_all-Tracks actions (act sort a s) (n + reserved (a ∷ []))
          (omega (arith, split a actions)) (act-Tracks a s n (omega (arith, split a actions)) h))

  -- The two maps are the counters of what is reserved: behind any history of schedulings and calls
  -- of the returned functions, each function any number of times, which reserve fewer than 2 ^ 63
  -- registries, a registry's count is the number of its places in the reservations whose function
  -- was not called, and is absent where there are none; the same for each digest that is not empty.
  pub act_all-outstanding :
      (opts : EndpointHealthOptions) (actions : List Action)
      → reserved actions < half_word
      → ((k : Bytes)
          → (act_all sort actions (start opts)).scheduler.in_flight k
            ≡ counted (outstanding (act_all sort actions (start opts)).reservations k))
        × ((d k : Bytes)
            → is_empty d ≡ false
            → (act_all sort actions (start opts)).scheduler.digest_in_flight (d, k)
              ≡ counted (outstanding_of (act_all sort actions (start opts)).reservations d k))
  unfolding new_layer_scheduler
  act_all-outstanding opts actions small =
      (act_all-Tracks actions (start opts) 0 (omega arith)
        (((λ k. refl), λ d k e. refl), (λ k. omega arith), λ d k. omega arith)).0
