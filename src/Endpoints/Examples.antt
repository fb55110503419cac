-- ===== src/Endpoints/Examples.antt =====
-- The endpoints of internal/ecosystem/endpoint_selector.go at concrete records.
use regimux.Prelude.{ℕ, refl, Bool, true, false, [], ◌∷◌, none}
use regimux.Prelude.Int.{pos}
use regimux.Prelude.Bytes.{Bytes}
use regimux.Endpoints.{
  EndpointHealthRecord, EndpointHealthCandidate, prioritize_endpoint_candidates, collect_latest,
  get,
}
use regimux.Endpoints.Choice.{IsChoice, prioritize_endpoint_candidates-IsChoice}
use regimux.Endpoints.Sorting.{insertion_sort, In-insertion_sort, insertion_sort-IsOrdered}
use regimux.Endpoints.Latest.{IsLatest, collect_latest_lem}

-- "a".
abbrev name : Bytes
name = 97 ∷ []

abbrev row : ℕ → EndpointHealthRecord
row t = record {
  registry = name;
  latency_ewma = pos 0;
  consecutive_failures = pos 0;
  cooldown_until = 0;
  degraded_until = 0;
  updated_at = t;
}

collect_latest_lem_example :
    IsLatest name none
      (row 3 ∷ row 5 ∷ row 4 ∷ [])
      (get name (collect_latest (row 3 ∷ row 5 ∷ row 4 ∷ []) []))
collect_latest_lem_example = collect_latest_lem name (row 3 ∷ row 5 ∷ row 4 ∷ []) refl

abbrev candidate : Bool → ℕ → EndpointHealthCandidate
candidate cold i = record {
  endpoint = name;
  score = pos 5;
  in_cooldown = cold;
  in_degraded = false;
  original_idx = i;
}

prioritize_endpoint_candidates-IsChoice_example :
    IsChoice
      (candidate true 0 ∷ candidate false 1 ∷ [])
      (prioritize_endpoint_candidates insertion_sort (candidate true 0 ∷ candidate false 1 ∷ []))
prioritize_endpoint_candidates-IsChoice_example =
    prioritize_endpoint_candidates-IsChoice insertion_sort In-insertion_sort
      insertion_sort-IsOrdered (candidate true 0 ∷ candidate false 1 ∷ [])
