-- ===== src/Upstream/Scheduler.antt =====
-- internal/ecosystems/container/upstream/layer_scheduler.go and layer_scheduler_reservations.go: the
-- endpoints of a blob in the order to try them, and the calls that are reserved on them. Each call
-- runs under the lock. Maps are functions, nil maps are empty, times are ℕ, and `sort` stands for
-- `List.Sort` of collectionx with `layerSchedulerCandidateCompare`.

pub mod Reservations
pub mod Counts
pub mod Refinement
use regimux.Prelude.{
  ℕ, suc, ◌+◌, ◌≡◌, ◌==◌, Bool, true, false, ◌&&◌, ◌||◌, not, List, [], ◌∷◌, ◌++◌, Option, none,
  some, map, foldl, min, length, take, if◌then◌else◌,
}
use regimux.Prelude.Int.{ℤ, pos, pos_part, sub_ℕ, ltb_ℤ, leb_ℤ, add64, sub64, mul64, max_ℤ}
use regimux.Prelude.Bytes.{Bytes, is_empty, bytes_eq}
use regimux.Prelude.Order.{Compared, first, second, either, compare_ℕ, compare_ℤ}
use regimux.Upstream.Health.{
  EndpointHealthOptions, EndpointHealthSnapshot, normalize_endpoint_health_options,
  normalize_endpoint_health_registry, differ, positive_or,
}

-- The fields of `upstreamRuntime` that are read here and in the failover.
pub record UpstreamRuntime : Type 0 where
  pub registry : Bytes
  pub is_mirror : Bool
  pub authenticated : Bool

pub record EndpointRuntimeCandidate : Type 0 where
  pub runtime : UpstreamRuntime
  pub state : EndpointHealthSnapshot

pub record LayerSchedulerCandidate : Type 0 where
  pub runtime : UpstreamRuntime
  pub state : EndpointHealthSnapshot
  pub score : ℤ
  pub index : ℕ

pub record LayerSchedulerOptions : Type 0 where
  pub inflight_penalty : ℤ
  pub recent_penalty : ℤ
  pub recent_window : ℤ
  pub same_digest_affinity : ℤ

pub record LayerScheduler : Type 0 where
  pub opts : LayerSchedulerOptions
  pub in_flight : Bytes → Option ℤ
  pub digest_in_flight : Bytes × Bytes → Option ℤ
  pub recent : Bytes → Option ℕ

abbrev pub default_recent_window : ℤ
default_recent_window = pos 2000000000

unfoldable pub new_layer_scheduler : EndpointHealthOptions → LayerScheduler
new_layer_scheduler opts =
    let penalty = (normalize_endpoint_health_options opts).inflight_penalty in
    record {
      opts = record {
        inflight_penalty = penalty;
        recent_penalty = penalty;
        recent_window = default_recent_window;
        same_digest_affinity = penalty;
      };
      in_flight = λ registry. none;
      digest_in_flight = λ pair. none;
      recent = λ registry. none;
    }

-- `defaultEndpointHealthInflightPenalty` is 50 milliseconds.
unfoldable pub initialised : LayerScheduler → LayerScheduler
initialised s =
    let penalty = positive_or s.opts.inflight_penalty (pos 50000000) in
    record s {
      opts = record {
        inflight_penalty = penalty;
        recent_penalty = positive_or s.opts.recent_penalty penalty;
        recent_window = positive_or s.opts.recent_window default_recent_window;
        same_digest_affinity = positive_or s.opts.same_digest_affinity penalty;
      };
    }

unfoldable pub discount_duration : ℤ → ℤ → ℤ
discount_duration value discount =
    if leb_ℤ discount (pos 0)
    then value
    else if leb_ℤ value discount
    then pos 0
    else sub64 value discount

-- A missing key reads as zero.
abbrev pub count_or_zero : Option ℤ → ℤ
count_or_zero none = pos 0
count_or_zero (some n) = n

unfoldable pub recent_penalty : LayerScheduler → Bytes → ℕ → ℤ
recent_penalty s registry now = elim (s.recent registry) [
  | none ↦ pos 0
  | some assigned_at ↦
      if leb_ℤ s.opts.recent_window (pos 0)
        || leb_ℤ s.opts.recent_window (max_ℤ (sub_ℕ now assigned_at) (pos 0))
      then pos 0
      else s.opts.recent_penalty
]

unfoldable pub same_digest_affinity : LayerScheduler → Bytes → Bytes → ℤ
same_digest_affinity s digest registry =
    if is_empty digest || leb_ℤ (count_or_zero (s.digest_in_flight (digest, registry))) (pos 0)
    then pos 0
    else s.opts.same_digest_affinity

unfoldable pub score_of : LayerScheduler → Bytes → Bytes → EndpointHealthSnapshot → ℕ → ℤ
score_of s digest registry state now =
    let row = normalize_endpoint_health_registry registry in
    discount_duration
      (add64 (add64 state.score (mul64 (count_or_zero (s.in_flight row)) s.opts.inflight_penalty))
        (recent_penalty s row now))
      (same_digest_affinity s digest row)

-- From the index on.
unfoldable pub score_candidates :
    LayerScheduler → Bytes → List EndpointRuntimeCandidate → ℕ → ℕ → List LayerSchedulerCandidate
score_candidates s digest [] i now = []
score_candidates s digest (c ∷ cs) i now =
    record {
      runtime = c.runtime;
      state = c.state;
      score = score_of s digest c.runtime.registry c.state now;
      index = i;
    }
    ∷ score_candidates s digest cs (suc i) now

unfoldable pub layer_scheduler_candidate_compare :
    LayerSchedulerCandidate → LayerSchedulerCandidate → Compared
layer_scheduler_candidate_compare left right =
    if differ left.state.in_cooldown right.state.in_cooldown
    then (if left.state.in_cooldown then second else first)
    else elim (compare_ℤ left.score right.score) [
      | first ↦ first
      | second ↦ second
      | either ↦ compare_ℕ left.index right.index
    ]

-- The set of indexes as a list.
unfoldable pub contains : ℕ → List LayerSchedulerCandidate → Bool
contains i [] = false
contains i (c ∷ cs) = c.index == i || contains i cs

unfoldable pub not_selected :
    List LayerSchedulerCandidate → List LayerSchedulerCandidate → List LayerSchedulerCandidate
not_selected selected [] = []
not_selected selected (c ∷ cs) =
    let rest = not_selected selected cs in if contains c.index selected then rest else c ∷ rest

-- The number that `topN` stands for among `len` candidates.
unfoldable pub top_count : ℤ → ℕ → ℕ
top_count top_n len = if leb_ℤ top_n (pos 0) || ltb_ℤ (pos len) top_n then len else pos_part top_n

-- Sets or replaces one key.
abbrev pub update : {K V : Type 0} → (K → K → Bool) → K → Option V → (K → Option V) → K → Option V
update eq k v m j = if eq j k then v else m j

abbrev pub pair_eq : Bytes × Bytes → Bytes × Bytes → Bool
pair_eq (a, b) (c, d) = bytes_eq a c && bytes_eq b d

unfoldable pub increment : {K : Type 0} → (K → K → Bool) → K → (K → Option ℤ) → K → Option ℤ
increment eq k m = update eq k (some (add64 (count_or_zero (m k)) (pos 1))) m

-- A missing key is deleted or left alone, which is the same.
unfoldable pub decrement : {K : Type 0} → (K → K → Bool) → K → (K → Option ℤ) → K → Option ℤ
decrement eq k m =
    update eq k
      (if leb_ℤ (count_or_zero (m k)) (pos 1)
        then none
        else some (sub64 (count_or_zero (m k)) (pos 1)))
      m
