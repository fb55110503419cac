-- ===== src/Upstream/Failover/Blob.antt =====
-- internal/ecosystems/container/upstream/failover_blob.go: the attempts at a blob that run at the same
-- time. The endpoints are the positions below `len`; an attempt is the position behind its
-- endpoint. `running` are the attempts whose result was not read yet, which is what the goroutines
-- and the channel hold.
use regimux.Prelude.{
  ℕ, zero, suc, ◌-◌, ◌==◌, Bool, ◌&&◌, not, List, [], ◌∷◌, Option, none, some, ltb, leb,
  if◌then◌else◌,
}

pub record BlobFailoverRunner : Type 0 where
  pub max_attempts : ℕ
  pub len : ℕ
  pub next_attempt : ℕ
  pub in_flight : ℕ
  pub active : List ℕ
  pub running : List ℕ

-- A result of `runAgainstRuntime`, with the answers of `shouldFailover`, of `ctx.Err` and of
-- `hasSelectedSuccess` when it is handled.
pub data Outcome : Type 0 where
  succeeded : Outcome
  unselected : Outcome
  failed : (failover context_ended selected_success : Bool) → Outcome

-- What `wait` returns.
pub data Verdict : Type 0 where
  won : (attempt : ℕ) → Verdict
  context_error : Verdict
  attempt_error : (attempt : ℕ) → Verdict
  all_failed : Verdict

-- `startNext` with `nextRuntime`.
unfoldable pub start_next : BlobFailoverRunner → BlobFailoverRunner
start_next r = if leb r.len r.next_attempt then r else record r {
  next_attempt = suc r.next_attempt;
  in_flight = suc r.in_flight;
  active = suc r.next_attempt ∷ r.active;
  running = suc r.next_attempt ∷ r.running;
}

-- The rounds of `startInitial`; the one that starts nothing ends the loop, and so do those behind it.
unfoldable pub start_initial : ℕ → BlobFailoverRunner → BlobFailoverRunner
unfolding start_next
start_initial zero r = r
start_initial (suc rounds) r =
    let started = start_initial rounds (start_next r) in
    if leb r.len r.next_attempt then r else started

unfoldable pub new_runner : ℕ → ℕ → BlobFailoverRunner
unfolding start_initial
new_runner max_attempts len =
    let bounded = if ltb len max_attempts then len else max_attempts in
    start_initial bounded (record {
      max_attempts = bounded;
      len = len;
      next_attempt = 0;
      in_flight = 0;
      active = [];
      running = [];
    })

unfoldable pub without : ℕ → List ℕ → List ℕ
without a [] = []
without a (b ∷ bs) = let rest = without a bs in if a == b then rest else b ∷ rest

unfoldable pub only : ℕ → List ℕ → List ℕ
only a [] = []
only a (b ∷ bs) = let rest = only a bs in if a == b then b ∷ rest else rest

-- The result of one running attempt is read.
unfoldable pub read : ℕ → List ℕ → List ℕ
read i [] = []
read zero (a ∷ later) = later
read (suc i) (a ∷ later) = a ∷ read i later

unfoldable pub finish_attempt : ℕ → BlobFailoverRunner → BlobFailoverRunner
unfolding without
finish_attempt attempt r = record r {
  in_flight = r.in_flight - 1;
  active = without attempt r.active;
}

unfoldable pub cancel_attempts_except : ℕ → BlobFailoverRunner → BlobFailoverRunner
unfolding only
cancel_attempts_except keep r = record r { active = only keep r.active }

unfoldable pub handle_result :
    ℕ → Outcome → BlobFailoverRunner → BlobFailoverRunner × Option Verdict
unfolding finish_attempt cancel_attempts_except start_next
handle_result attempt unselected r = (finish_attempt attempt r, none)
handle_result attempt succeeded r =
    (cancel_attempts_except attempt (finish_attempt attempt r), some (won attempt))
handle_result attempt (failed failover context_ended selected_success) r =
    let finished = finish_attempt attempt r in
    let has_next = ltb r.next_attempt r.len in
    if context_ended
    then (cancel_attempts_except 0 finished, some context_error)
    else if selected_success
    then (finished, none)
    else if not failover
    then (cancel_attempts_except 0 finished, some (attempt_error attempt))
    else if has_next
    then (start_next finished, none)
    else (finished, none)

unfoldable pub done : BlobFailoverRunner → Bool
done r = leb r.len r.next_attempt && r.in_flight == 0

-- What `wait` meets: the result of the running attempt at a place, or the end of the context.
pub data Event : Type 0 where
  result : (place : ℕ) → Outcome → Event
  context_done : Event

unfoldable pub attempt_at : ℕ → List ℕ → ℕ
attempt_at i [] = 0
attempt_at zero (a ∷ later) = a
attempt_at (suc i) (a ∷ later) = attempt_at i later

-- The loop of `wait` over the events it meets; `none` stands for a loop that still waits. The flag
-- says whether the context has ended when the loop is over.
unfoldable pub wait : Bool → List Event → BlobFailoverRunner → BlobFailoverRunner × Option Verdict
unfolding done handle_result cancel_attempts_except read attempt_at
wait ended [] r =
    if done r then (r, some (if ended then context_error else all_failed)) else (r, none)
wait ended (context_done ∷ events) r =
    if done r
    then (r, some (if ended then context_error else all_failed))
    else (cancel_attempts_except 0 r, some context_error)
wait ended (result place outcome ∷ events) r =
    let (handled, verdict) =
      handle_result (attempt_at place r.running) outcome
        (record r { running = read place r.running }) in
    let rest = wait ended events handled in
    if done r
    then (r, some (if ended then context_error else all_failed))
    else elim verdict [ some v ↦ (handled, some v) | none ↦ rest ]
