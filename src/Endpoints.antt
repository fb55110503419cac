-- ===== src/Endpoints.antt =====
-- internal/ecosystem/endpoint_selector.go: the endpoints of an upstream in the order to try them.
-- Durations are nanoseconds in int64 and times are ℕ with 0 as the zero time. `sort` stands for
-- `List.Sort` of collectionx with `compareEndpointHealthCandidate`.
pub mod Sorting
pub mod Examples
pub mod Choice
pub mod Latest
use regimux.Prelude.{
  ℕ, suc, ◌+◌, ◌*◌, ◌==◌, ltb, Bool, true, false, not, ◌&&◌, ◌||◌, List, [], ◌∷◌, Option, none,
  some, map, if◌then◌else◌,
}
use regimux.Prelude.Int.{ℤ, pos, pos_part, neg_part, sub_ℕ, wrap64, add64}
use regimux.Prelude.Bytes.{Bytes, is_empty, bytes_eq, trim_space, trim_right}
use regimux.Prelude.Order.{Compared, first, second, either, compare_ℕ, compare_ℤ}

-- The fields of `meta.EndpointHealthRecord` that are read here.
pub record EndpointHealthRecord : Type 0 where
  pub registry : Bytes
  pub latency_ewma : ℤ
  pub consecutive_failures : ℤ
  pub cooldown_until : ℕ
  pub degraded_until : ℕ
  pub updated_at : ℕ

pub record EndpointHealthCandidate : Type 0 where
  pub endpoint : Bytes
  pub score : ℤ
  pub in_cooldown : Bool
  pub in_degraded : Bool
  pub original_idx : ℕ

pub record UpstreamConfig : Type 0 where
  pub registry : Bytes
  pub mirrors : List Bytes

abbrev pub endpoint_unknown_latency : ℤ
endpoint_unknown_latency = pos 1000000000

abbrev pub endpoint_failure_penalty : ℕ
endpoint_failure_penalty = 500000000

-- The slash is 47.
unfoldable pub normalize_endpoint : Bytes → Bytes
normalize_endpoint endpoint = trim_right 47 (trim_space endpoint)

unfoldable pub normalize_all : List Bytes → List Bytes
normalize_all [] = []
normalize_all (e ∷ es) =
    let rest = normalize_all es in
    let n = normalize_endpoint e in if is_empty n then rest else n ∷ rest

unfoldable pub normalized_upstream_endpoints : UpstreamConfig → List Bytes
normalized_upstream_endpoints cfg = normalize_all (cfg.registry ∷ cfg.mirrors)

-- The map from endpoints to records: an association list whose keys are distinct.
abbrev pub RecordMap : Type 0
RecordMap = List (Bytes × EndpointHealthRecord)

unfoldable pub get : Bytes → RecordMap → Option EndpointHealthRecord
get k [] = none
get k ((j, r) ∷ m) = if bytes_eq j k then some r else get k m

unfoldable pub put : Bytes → EndpointHealthRecord → RecordMap → RecordMap
put k r [] = (k, r) ∷ []
put k r ((j, q) ∷ m) = let rest = put k r m in if bytes_eq j k then (k, r) ∷ m else (j, q) ∷ rest

-- The loop of `latestEndpointHealthByEndpoint`.
unfoldable pub collect_latest : List EndpointHealthRecord → RecordMap → RecordMap
collect_latest [] m = m
collect_latest (r ∷ rs) m =
    let registry = normalize_endpoint r.registry in
    collect_latest rs (
      if is_empty registry then m else elim (get registry m) [
        | none ↦ put registry r m
        | some existing ↦ if ltb existing.updated_at r.updated_at then put registry r m else m
      ])

-- `none` stands for the nil map. The listing is `none` where it failed or there is no repository.
unfoldable pub latest_endpoint_health_by_endpoint :
    Option (List EndpointHealthRecord) → Option RecordMap
latest_endpoint_health_by_endpoint none = none
latest_endpoint_health_by_endpoint (some records) = elim (collect_latest records []) [
  | [] ↦ none
  | x ∷ m ↦ some (x ∷ m)
]

-- `time.Duration(n) * unit`.
abbrev pub times64 : ℤ → ℕ → ℤ
times64 n unit = wrap64 (sub_ℕ (pos_part n * unit) (neg_part n * unit))

abbrev pub lasts : ℕ → ℕ → Bool
lasts now until = not (until == 0) && ltb now until

unfoldable pub build_endpoint_health_candidate : Bytes → ℕ → ℕ → RecordMap → EndpointHealthCandidate
build_endpoint_health_candidate endpoint original_idx now m = elim (get endpoint m) [
  | none ↦ record {
    endpoint = endpoint;
    score = endpoint_unknown_latency;
    in_cooldown = false;
    in_degraded = false;
    original_idx = original_idx;
  }
  | some r ↦
      let failed = add64 r.latency_ewma (times64 r.consecutive_failures endpoint_failure_penalty) in
      record {
        endpoint = endpoint;
        score =
            if lasts now r.degraded_until
            then add64 failed (pos endpoint_failure_penalty)
            else failed;
        in_cooldown = lasts now r.cooldown_until;
        in_degraded = lasts now r.degraded_until;
        original_idx = original_idx;
      }
]

-- From the index on.
unfoldable pub endpoint_health_candidates :
    List Bytes → ℕ → ℕ → RecordMap → List EndpointHealthCandidate
endpoint_health_candidates [] idx now m = []
endpoint_health_candidates (e ∷ es) idx now m =
    build_endpoint_health_candidate e idx now m ∷ endpoint_health_candidates es (suc idx) now m

unfoldable pub endpoint_health_penalty : EndpointHealthCandidate → ℕ
endpoint_health_penalty c = (if c.in_cooldown then 2 else 0) + (if c.in_degraded then 1 else 0)

unfoldable pub compare_endpoint_health_candidate :
    EndpointHealthCandidate → EndpointHealthCandidate → Compared
compare_endpoint_health_candidate left right =
    elim (compare_ℕ (endpoint_health_penalty left) (endpoint_health_penalty right)) [
      | first ↦ first
      | second ↦ second
      | either ↦ elim (compare_ℤ left.score right.score) [
        | first ↦ first
        | second ↦ second
        | either ↦ compare_ℕ left.original_idx right.original_idx
      ]
    ]

abbrev pub healthy : EndpointHealthCandidate → Bool
healthy c = not c.in_cooldown && not c.in_degraded

unfoldable pub filter_healthy : List EndpointHealthCandidate → List EndpointHealthCandidate
filter_healthy [] = []
filter_healthy (c ∷ cs) = let rest = filter_healthy cs in if healthy c then c ∷ rest else rest

module _ (sort : List EndpointHealthCandidate → List EndpointHealthCandidate) where
  unfoldable pub prioritize_endpoint_candidates :
      List EndpointHealthCandidate → List EndpointHealthCandidate
  prioritize_endpoint_candidates [] = []
  prioritize_endpoint_candidates (c ∷ []) = c ∷ []
  prioritize_endpoint_candidates (c ∷ d ∷ cs) =
      let sorted = sort (c ∷ d ∷ cs) in
      elim (filter_healthy sorted) [ [] ↦ sorted | h ∷ hs ↦ h ∷ hs ]

  unfoldable pub upstream_endpoints :
      Option (List EndpointHealthRecord) → ℕ → UpstreamConfig → List Bytes
  upstream_endpoints listing now cfg =
      let endpoints = normalized_upstream_endpoints cfg in
      elim (latest_endpoint_health_by_endpoint listing) [
        | none ↦ endpoints
        | some m ↦
            map (λ c. c.endpoint)
              (prioritize_endpoint_candidates (endpoint_health_candidates endpoints 0 now m))
      ]
