-- ===== src/Upstream/Failover.antt =====
-- internal/ecosystems/container/upstream/failover_decision.go and failover.go: whether the next endpoint
-- is tried after an error, and the endpoints one behind the other. What `errors.AsType` and the
-- libraries say of an error is the record `Failure`.

pub mod Blob
pub mod Attempts
pub mod Terminal
use regimux.Prelude.{
  ℕ, ◌≡◌, Bool, true, false, ◌&&◌, ◌||◌, not, List, [], ◌∷◌, Option, none, some, if◌then◌else◌,
}
use regimux.Prelude.Int.{ℤ, pos, leb_ℤ, eqb_ℤ}
use regimux.Prelude.Bytes.{Bytes, is_empty}
use regimux.Upstream.Scheduler.{UpstreamRuntime}

pub data Operation : Type 0 where
  manifest blob tags referrers other_operation : Operation

-- `clientx.KindOf`.
pub data ErrorKind : Type 0 where
  timeout temporary conn_refused dns network : ErrorKind
  unknown canceled tls closed codec other_kind : ErrorKind

-- The statuses are those of `upstreamHTTPStatusError` and of `distribution.FromError`.
pub record Failure : Type 0 where
  pub allowlist_forbidden : Bool
  pub authenticated_status : Bool
  pub upstream_status : Option ℤ
  pub distribution_status : Option ℤ
  pub kind : ErrorKind

pub record FailoverRequest : Type 0 where
  pub operation : Operation
  pub repository : Bytes
  pub allow_public_mirror_forbidden : Bool
  pub endpoint_is_mirror : Bool
  pub endpoint_authenticated : Bool

unfoldable pub should_failover_not_found : Operation → Bool
should_failover_not_found manifest = true
should_failover_not_found blob = true
should_failover_not_found tags = true
should_failover_not_found referrers = true
should_failover_not_found other_operation = false

unfoldable pub should_failover_status : FailoverRequest → ℤ → Bool
unfolding should_failover_not_found
should_failover_status req status =
    if eqb_ℤ status (pos 400) || eqb_ℤ status (pos 401)
    then false
    else if eqb_ℤ status (pos 403)
    then false
    else if eqb_ℤ status (pos 404)
    then should_failover_not_found req.operation
    else if eqb_ℤ status (pos 429)
    then true
    else leb_ℤ (pos 500) status

unfoldable pub should_failover_error : ErrorKind → Bool
should_failover_error timeout = true
should_failover_error temporary = true
should_failover_error conn_refused = true
should_failover_error dns = true
should_failover_error network = true
should_failover_error unknown = false
should_failover_error canceled = false
should_failover_error tls = false
should_failover_error closed = false
should_failover_error codec = false
should_failover_error other_kind = false

unfoldable pub should_failover : FailoverRequest → Failure → Bool
unfolding should_failover_status should_failover_error
should_failover req e =
    if e.allowlist_forbidden
    then req.allow_public_mirror_forbidden
      && req.endpoint_is_mirror
      && not req.endpoint_authenticated
    else if e.authenticated_status
    then false
    else elim e.upstream_status [
      | some status ↦ should_failover_status req status
      | none ↦ elim e.distribution_status [
        | some status ↦ should_failover_status req status
        | none ↦ should_failover_error e.kind
      ]
    ]

-- The pool's policy on forbidden answers of public mirrors is the first argument.
unfoldable pub decorate_failover_request :
    Bool → FailoverRequest → UpstreamRuntime → FailoverRequest
decorate_failover_request public_policy req runtime = record req {
  allow_public_mirror_forbidden = public_policy;
  endpoint_is_mirror = runtime.is_mirror;
  endpoint_authenticated = runtime.authenticated;
}

-- What the loop of `doWithSequentialFailover` ends with.
pub data Sequential : Type 0 where
  answered : Sequential
  context_ended : Sequential
  failed_with : Failure → Sequential

-- `attempt` stands for `runAgainstRuntime`, `ended` for `ctx.Err`, and the rest for the records of
-- a success and of a failure, with their events.
pub record Attempting (W : Type 0) : Type 0 where
  pub attempt : UpstreamRuntime → W → W × Option Failure
  pub ended : W → Bool
  pub record_endpoint_success : FailoverRequest → UpstreamRuntime → W → W
  pub record_endpoint_failure : FailoverRequest → UpstreamRuntime → Failure → W → W

module _ {W : Type 0} (client : Attempting W) (public_policy : Bool) (req : FailoverRequest) where
  -- The last check of the context, behind the loop.
  abbrev pub checked : W → Sequential → W × Sequential
  checked w r = (w, if client.ended w then context_ended else r)

  -- `last` is the latest error; there is none before the first attempt.
  unfoldable pub do_with_sequential_failover :
      List UpstreamRuntime → Sequential → W → W × Sequential
  unfolding should_failover decorate_failover_request
  do_with_sequential_failover [] last w = checked w last
  do_with_sequential_failover (runtime ∷ runtimes) last w =
      let attempt_req = decorate_failover_request public_policy req runtime in
      let (after, error) = client.attempt runtime w in
      elim error [
        | none ↦ checked (client.record_endpoint_success attempt_req runtime after) answered
        | some e ↦
            let rest =
              do_with_sequential_failover runtimes (failed_with e)
                (client.record_endpoint_failure attempt_req runtime e after) in
            if client.ended after
            then (after, context_ended)
            else if should_failover attempt_req e
            then rest
            else checked after (failed_with e)
      ]
