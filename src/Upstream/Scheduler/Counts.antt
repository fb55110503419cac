-- ===== src/Upstream/Scheduler/Counts.antt =====
-- The two maps of counts of internal/ecosystems/container/upstream/layer_scheduler_reservations.go as
-- counters of numbers.
use regimux.Prelude.{
  ℕ, zero, suc, ◌+◌, ◌-◌, ◌<◌, ◌≤◌, ◌≡◌, refl, ap, ◌∙◌, Bool, false, List, [], ◌∷◌, Option, none,
  some, foldl, length, if◌then◌else◌, arith,
}
use regimux.Prelude.Int.{ℤ, pos, half_word, add64-pos, sub64-pos}
use regimux.Prelude.Bytes.{Bytes, is_empty, bytes_eq, bytes_eq_iff}
use regimux.Upstream.Scheduler.{LayerScheduler, pair_eq, increment, decrement}
use regimux.Upstream.Scheduler.Reservations.{
  reserve_one, reserve_digest, release_one, release_digest,
}

-- A count of zero is not in the map.
abbrev pub counted : ℕ → Option ℤ
counted zero = none
counted (suc n) = some (pos (suc n))

module _ {K : Type 0} (eq : K → K → Bool) where
  increment-counted :
      (m : K → Option ℤ) (k j : K) (n i : ℕ)
      → m k ≡ counted n
      → m j ≡ counted i
      → suc n < half_word
      → increment eq k m j ≡ counted (if eq j k then suc n else i)
  unfolding increment
  increment-counted m k j zero i e f h = ground (arith, add64-pos 0 1)
  increment-counted m k j (suc n) i e f h = ground (arith, add64-pos (suc n) 1)

  decrement-counted :
      (m : K → Option ℤ) (k j : K) (n i : ℕ)
      → m k ≡ counted n
      → m j ≡ counted i
      → n < half_word
      → decrement eq k m j ≡ counted (if eq j k then n - 1 else i)
  unfolding decrement
  decrement-counted m k j zero i e f h = ground arith
  decrement-counted m k j (suc zero) i e f h = ground arith
  decrement-counted m k j (suc (suc n)) i e f h = ground (arith, sub64-pos (suc (suc n)) 1)

abbrev pub hit : Bytes → Bytes → ℕ
hit j k = if bytes_eq j k then 1 else 0

abbrev pub pair_hit : Bytes → Bytes → Bytes → Bytes → ℕ
pair_hit d digest j k = if bytes_eq d digest then hit j k else 0

-- The maps hold the numbers `f` of each registry, and `g` of each digest but the empty one on each.
abbrev pub Holds : LayerScheduler → (Bytes → ℕ) → (Bytes → Bytes → ℕ) → Type 0
Holds s f g =
    ((k : Bytes) → s.in_flight k ≡ counted (f k))
    × ((d k : Bytes) → is_empty d ≡ false → s.digest_in_flight (d, k) ≡ counted (g d k))

pub Holds-cong :
    (s : LayerScheduler) (f f' : Bytes → ℕ) (g g' : Bytes → Bytes → ℕ)
    → ((k : Bytes) → f k ≡ f' k)
    → ((d k : Bytes) → g d k ≡ g' d k)
    → Holds s f g
    → Holds s f' g'
Holds-cong s f f' g g' p q (h, l) =
    ((λ k. h k ∙ ap counted (p k)), λ d k e. l d k e ∙ ap counted (q d k))

reserve_one-Holds :
    (s : LayerScheduler) (f : Bytes → ℕ) (g : Bytes → Bytes → ℕ) (digest registry : Bytes) (now : ℕ)
    → suc (f registry) < half_word
    → suc (g digest registry) < half_word
    → Holds s f g
    → Holds
        (reserve_one digest now s registry)
        (λ k. hit k registry + f k)
        (λ d k. pair_hit d digest k registry + g d k)
unfolding reserve_one reserve_digest
reserve_one-Holds s f g digest registry now a b (h, l) = (in_flight, of_digest digest b)
  where
    in_flight :
        (k : Bytes) → increment bytes_eq registry s.in_flight k ≡ counted (hit k registry + f k)
    in_flight k =
        increment-counted bytes_eq s.in_flight registry k (f registry) (f k) (h registry) (h k) a
        ∙ ap counted (ground (arith, bytes_eq_iff k registry))

    of_digest :
        (digest : Bytes)
        → suc (g digest registry) < half_word
        → (d k : Bytes) → is_empty d ≡ false
        → (if is_empty digest
              then s.digest_in_flight
              else increment pair_eq (digest, registry) s.digest_in_flight)
            (d, k)
          ≡ counted (pair_hit d digest k registry + g d k)
    of_digest [] b d k e = l d k e ∙ ap counted (ground (arith, bytes_eq_iff d []))
    of_digest (c ∷ digest) b d k e =
        increment-counted pair_eq s.digest_in_flight (c ∷ digest, registry) (d, k)
          (g (c ∷ digest) registry) (g d k) (l (c ∷ digest) registry refl) (l d k e) b
        ∙ ap counted (ground (arith, bytes_eq_iff d (c ∷ digest), bytes_eq_iff k registry))

release_one-Holds :
    (s : LayerScheduler) (f : Bytes → ℕ) (g : Bytes → Bytes → ℕ) (digest registry : Bytes)
    → f registry < half_word
    → g digest registry < half_word
    → Holds s f g
    → Holds
        (release_one digest s registry)
        (λ k. f k - hit k registry)
        (λ d k. g d k - pair_hit d digest k registry)
unfolding release_one release_digest
release_one-Holds s f g digest registry a b (h, l) = (in_flight, of_digest digest b)
  where
    in_flight :
        (k : Bytes) → decrement bytes_eq registry s.in_flight k ≡ counted (f k - hit k registry)
    in_flight k =
        decrement-counted bytes_eq s.in_flight registry k (f registry) (f k) (h registry) (h k) a
        ∙ ap counted (ground (arith, bytes_eq_iff k registry))

    of_digest :
        (digest : Bytes)
        → g digest registry < half_word
        → (d k : Bytes) → is_empty d ≡ false
        → (if is_empty digest
              then s.digest_in_flight
              else decrement pair_eq (digest, registry) s.digest_in_flight)
            (d, k)
          ≡ counted (g d k - pair_hit d digest k registry)
    of_digest [] b d k e = l d k e ∙ ap counted (ground (arith, bytes_eq_iff d []))
    of_digest (c ∷ digest) b d k e =
        decrement-counted pair_eq s.digest_in_flight (c ∷ digest, registry) (d, k)
          (g (c ∷ digest) registry) (g d k) (l (c ∷ digest) registry refl) (l d k e) b
        ∙ ap counted (ground (arith, bytes_eq_iff d (c ∷ digest), bytes_eq_iff k registry))

abbrev pub occurrences : Bytes → List Bytes → ℕ
occurrences k [] = 0
occurrences k (x ∷ xs) = hit k x + occurrences k xs

abbrev pub pair_occurrences : Bytes → Bytes → Bytes → List Bytes → ℕ
pair_occurrences d digest k xs = if bytes_eq d digest then occurrences k xs else 0

pub occurrences-le : (k : Bytes) (xs : List Bytes) → occurrences k xs ≤ length xs
occurrences-le k [] = omega arith
occurrences-le k (x ∷ xs) = ground (arith, occurrences-le k xs)

pub reserve_all-Holds :
    (xs : List Bytes) (s : LayerScheduler) (f : Bytes → ℕ) (g : Bytes → Bytes → ℕ) (digest : Bytes)
    (now : ℕ)
    → ((k : Bytes) → f k + length xs < half_word)
    → ((d k : Bytes) → g d k + length xs < half_word)
    → Holds s f g
    → Holds
        (foldl (reserve_one digest now) s xs)
        (λ k. occurrences k xs + f k)
        (λ d k. pair_occurrences d digest k xs + g d k)
reserve_all-Holds [] s f g digest now a b h =
    Holds-cong s f _ g _ (λ k. omega arith) (λ d k. ground arith) h
reserve_all-Holds (x ∷ xs) s f g digest now a b h =
    Holds-cong (foldl (reserve_one digest now) (reserve_one digest now s x) xs) _ _ _ _
      (λ k. omega arith) (λ d k. ground arith)
      (reserve_all-Holds xs (reserve_one digest now s x) (λ k. hit k x + f k)
        (λ d k. pair_hit d digest k x + g d k) digest now (λ k. ground (arith, a k))
        (λ d k. ground (arith, b d k))
        (reserve_one-Holds s f g digest x now (omega (arith, a x)) (omega (arith, b digest x)) h))

pub release_all-Holds :
    (xs : List Bytes) (s : LayerScheduler) (f : Bytes → ℕ) (g : Bytes → Bytes → ℕ) (digest : Bytes)
    → ((k : Bytes) → f k < half_word)
    → ((d k : Bytes) → g d k < half_word)
    → Holds s f g
    → Holds
        (foldl (release_one digest) s xs)
        (λ k. f k - occurrences k xs)
        (λ d k. g d k - pair_occurrences d digest k xs)
release_all-Holds [] s f g digest a b h =
    Holds-cong s f _ g _ (λ k. omega arith) (λ d k. ground arith) h
release_all-Holds (x ∷ xs) s f g digest a b h =
    Holds-cong (foldl (release_one digest) (release_one digest s x) xs) _ _ _ _ (λ k. omega arith)
      (λ d k. ground arith)
      (release_all-Holds xs (release_one digest s x) (λ k. f k - hit k x)
        (λ d k. g d k - pair_hit d digest k x) digest (λ k. omega (arith, a k))
        (λ d k. omega (arith, b d k)) (release_one-Holds s f g digest x (a x) (b digest x) h))
