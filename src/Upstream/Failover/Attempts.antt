-- ===== src/Upstream/Failover/Attempts.antt =====
-- How many attempts of internal/ecosystems/container/upstream/failover_blob.go run while they fail, and
-- when the loop ends.
use regimux.Prelude.{
  ℕ, zero, suc, ◌+◌, ◌-◌, ◌≤◌, ◌<◌, ◌≡◌, ◌==◌, refl, sym, subst, ap, ◌∙◌, Bool, true, false, List,
  [], ◌∷◌, Option, none, some, ltb, leb, if◌then◌else◌, length, min, map, arith,
}
use regimux.Upstream.Failover.Blob.{
  BlobFailoverRunner, failed, Verdict, context_error, all_failed, start_next, start_initial,
  new_runner, read, finish_attempt, handle_result, done, Event, result, attempt_at, wait,
}

-- The results of the running attempts at the places, each an error that lets the next endpoint be tried.
abbrev pub failures : List ℕ → List Event
failures places = map (λ place. result place (failed true false false)) places

-- Each place is that of a running attempt, where `m` results are still to come.
abbrev pub ArePlaces : ℕ → ℕ → List ℕ → Type 0
ArePlaces max_attempts m [] = Unit {0}
ArePlaces max_attempts m (place ∷ places) =
    (place < min max_attempts m) × ArePlaces max_attempts (m - 1) places

-- `m` endpoints have no result yet, and as many of them run as may.
abbrev Waits : ℕ → BlobFailoverRunner → Type 0
Waits m r =
    (r.next_attempt + m ≡ r.len + r.in_flight)
    × (r.next_attempt ≤ r.len)
    × (r.in_flight ≡ min r.max_attempts m)
    × (length r.running ≡ r.in_flight)

length-read : (i : ℕ) (xs : List ℕ) → i < length xs → length (read i xs) + 1 ≡ length xs
unfolding read
length-read i [] h = absurd (omega arith)
length-read zero (x ∷ xs) h = omega arith
length-read (suc i) (x ∷ xs) h = omega (arith, length-read i xs (omega arith))

-- The runner once `k` more attempts have started.
abbrev next_started : BlobFailoverRunner → BlobFailoverRunner
next_started r = record r {
  next_attempt = suc r.next_attempt;
  in_flight = suc r.in_flight;
  active = suc r.next_attempt ∷ r.active;
  running = suc r.next_attempt ∷ r.running;
}

abbrev IsStarted : ℕ → BlobFailoverRunner → BlobFailoverRunner → Type 0
IsStarted k r s =
    (s.next_attempt ≡ r.next_attempt + k)
    × (s.in_flight ≡ r.in_flight + k)
    × (length s.running ≡ length r.running + k)
    × (s.len ≡ r.len)
    × (s.max_attempts ≡ r.max_attempts)

start_next-below : (r : BlobFailoverRunner) → r.next_attempt < r.len → start_next r ≡ next_started r
unfolding start_next
start_next-below r h =
    let below : leb r.len r.next_attempt ≡ false = ground arith in
    ap (λ b. if b then r else next_started r) below

start_initial-IsStarted :
    (k : ℕ) (r : BlobFailoverRunner)
    → r.next_attempt + k ≤ r.len
    → IsStarted k r (start_initial k r)
unfolding start_initial
start_initial-IsStarted zero r h = (omega arith, omega arith, omega arith, refl, refl)
start_initial-IsStarted (suc k) r h =
    let below : leb r.len r.next_attempt ≡ false = ground arith in
    let (a, b, c, d, e) = start_initial-IsStarted k (next_started r) (omega arith) in
    subst (λ b. IsStarted (suc k) r (if b then r else start_initial k (start_next r))) (sym below)
      (subst (λ x. IsStarted (suc k) r (start_initial k x)) (sym (start_next-below r (omega arith)))
        (omega arith, omega arith, omega arith, d, e))

new_runner-Waits :
    (max_attempts len : ℕ)
    → 0 < max_attempts
    → Waits len (new_runner max_attempts len)
      × ((new_runner max_attempts len).len ≡ len)
      × ((new_runner max_attempts len).max_attempts ≡ min max_attempts len)
unfolding new_runner
new_runner-Waits max_attempts len h =
    let bounded = if ltb len max_attempts then len else max_attempts in
    let r : BlobFailoverRunner = record {
      max_attempts = bounded;
      len = len;
      next_attempt = 0;
      in_flight = 0;
      active = [];
      running = [];
    } in
    let k : bounded ≡ min max_attempts len = ground arith in
    let (a, b, c, d, e) = start_initial-IsStarted bounded r (omega arith) in
    ((omega arith, omega arith, omega arith, omega arith), d, e ∙ k)

-- The runner without the attempt whose result is read.
abbrev behind : ℕ → BlobFailoverRunner → BlobFailoverRunner
behind place r =
    finish_attempt (attempt_at place r.running) (record r { running = read place r.running })

-- What a failure leaves behind.
abbrev left : ℕ → BlobFailoverRunner → BlobFailoverRunner
left place r = if ltb r.next_attempt r.len then next_started (behind place r) else behind place r

handle_result-left :
    (place : ℕ) (r : BlobFailoverRunner)
    → handle_result
        (attempt_at place r.running)
        (failed true false false)
        (record r { running = read place r.running })
      ≡ (left place r, none)
unfolding handle_result finish_attempt
handle_result-left place r =
    elim (ltb r.next_attempt r.len)
        as (λ b.
          ltb r.next_attempt r.len ≡ b
          → ◌≡◌ {A = BlobFailoverRunner × Option Verdict}
              (if b then (start_next (behind place r), none) else (behind place r, none))
              ((if b then next_started (behind place r) else behind place r), none)) [
                | true ↦ λ e. ap (λ x. (x, none)) (start_next-below (behind place r) (ground arith))
                | false ↦ λ e. refl
              ]
      refl

abbrev WaitsLike : ℕ → BlobFailoverRunner → BlobFailoverRunner → Type 0
WaitsLike m r s = Waits m s × (s.max_attempts ≡ r.max_attempts) × (s.len ≡ r.len)

left-WaitsLike :
    (m place : ℕ) (r : BlobFailoverRunner)
    → place < r.in_flight
    → Waits (suc m) r
    → WaitsLike m r (left place r)
unfolding finish_attempt
left-WaitsLike m place r h (a, b, c, d) =
    let read_one = length-read place r.running (omega arith) in
    elim (ltb r.next_attempt r.len)
        as (λ b.
          ltb r.next_attempt r.len ≡ b
          → WaitsLike m r (if b then next_started (behind place r) else behind place r)) [
            | true ↦ λ e.
                let below : r.next_attempt < r.len = ground arith in
                ((omega arith, omega arith, omega arith, omega arith), refl, refl)
            | false ↦ λ e.
                let above : r.len ≤ r.next_attempt = ground arith in
                ((omega arith, omega arith, omega arith, omega arith), refl, refl)
          ]
      refl

-- The end of a wait that meets `n` failures with `m` results to come.
abbrev pub Ends : Bool → ℕ → ℕ → ℕ → BlobFailoverRunner × Option Verdict → Type 0
Ends ended bound m n (r, verdict) =
    (verdict ≡ (if ltb n m then none else some (if ended then context_error else all_failed)))
    × (r.in_flight ≡ min bound (m - n))

done-lem : (m : ℕ) (r : BlobFailoverRunner) → 0 < r.max_attempts → Waits m r → done r ≡ (m == 0)
unfolding done
done-lem m r h (a, b, c, d) = ground arith

wait-step :
    (ended : Bool) (place : ℕ) (events : List Event) (r : BlobFailoverRunner)
    → done r ≡ false
    → wait ended (result place (failed true false false) ∷ events) r
      ≡ wait ended events (left place r)
unfolding wait
wait-step ended place events r e =
    ap
      (λ b.
        if b
        then (r, some (if ended then context_error else all_failed))
        else after (
            handle_result (attempt_at place r.running) (failed true false false)
              (record r { running = read place r.running })))
      e
    ∙ ap after (handle_result-left place r)
  where
    after : BlobFailoverRunner × Option Verdict → BlobFailoverRunner × Option Verdict
    after h = elim h.1 [ some v ↦ (h.0, some v) | none ↦ wait ended events h.0 ]

wait-Ends :
    (ended : Bool) (places : List ℕ) (bound m : ℕ) (r : BlobFailoverRunner)
    → 0 < bound
    → r.max_attempts ≡ bound
    → Waits m r
    → ArePlaces bound m places
    → Ends ended bound m (length places) (wait ended (failures places) r)
unfolding wait
wait-Ends ended [] bound m r h q w p =
    subst
      (λ b.
        Ends ended bound m 0
          (if b then (r, some (if ended then context_error else all_failed)) else (r, none)))
      (sym (done-lem m r (omega arith) w)) (no_more m w)
  where
    no_more :
        (m : ℕ)
        → Waits m r
        → Ends ended bound m 0
            (if m == 0 then (r, some (if ended then context_error else all_failed)) else (r, none))
    no_more zero (a, b, c, d) = (refl, omega arith)
    no_more (suc m) (a, b, c, d) = (ground arith, ground arith)
wait-Ends ended (place ∷ places) bound zero r h q w p = absurd (ground (arith, p.0))
wait-Ends ended (place ∷ places) bound (suc m) r h q w (p, ps) =
    let (v, k, l) = left-WaitsLike m place r (ground (arith, w.2)) w in
    let rest =
      wait-Ends ended places bound m (left place r) h (k ∙ q) v
        (subst (λ i. ArePlaces bound i places) (omega arith) ps) in
    subst (Ends ended bound (suc m) (suc (length places)))
      (sym (
        wait-step ended place (failures places) r
          (done-lem (suc m) r (omega arith) w ∙ not_zero m)))
      (shift (length places) (wait ended (failures places) (left place r)) rest)
  where
    not_zero : (m : ℕ) → (suc m == 0) ≡ false
    not_zero m = ground arith

    shift :
        (n : ℕ) (x : BlobFailoverRunner × Option Verdict)
        → Ends ended bound m n x
        → Ends ended bound (suc m) (suc n) x
    shift n (s, verdict) (a, b) = (a ∙ ground arith, b ∙ ap (min bound) (omega arith))

-- While every result is an error that lets the next endpoint be tried, the loop never waits with
-- nothing running: with `len` endpoints and up to `max_attempts` attempts at a time, behind `n`
-- results the smaller of that bound and `len - n` attempts run; the loop goes on as long as `n` is
-- below `len` and then ends with the error of the context or the error that all failed.
pub wait-failures :
    (ended : Bool) (max_attempts len : ℕ) (places : List ℕ)
    → 0 < max_attempts
    → 0 < len
    → ArePlaces (min max_attempts len) len places
    → Ends ended
        (min max_attempts len)
        len
        (length places)
        (wait ended (failures places) (new_runner max_attempts len))
wait-failures ended max_attempts len places h l p =
    let (w, a, b) = new_runner-Waits max_attempts len h in
    wait-Ends ended places (min max_attempts len) len (new_runner max_attempts len) (omega arith) b
      w p
