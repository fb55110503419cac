-- ===== src/Upstream/Failover/Terminal.antt =====
-- The errors after which internal/ecosystems/container/upstream/failover.go tries no other endpoint.
use regimux.Prelude.{◌≡◌, ◌⊎◌, Bool, true, false, List, ◌∷◌, some, arith, if◌then◌else◌}
use regimux.Prelude.Int.{pos}
use regimux.Upstream.Scheduler.{UpstreamRuntime}
use regimux.Upstream.Failover.{
  Failure, FailoverRequest, should_failover, should_failover_status, decorate_failover_request,
  Sequential, context_ended, failed_with, Attempting, do_with_sequential_failover,
}

-- An answer that speaks for the caller's rights or request: the endpoint was asked with credentials, or
-- it answered 400, 401 or 403; a mirror that does not carry the repository is none.
abbrev pub IsTerminal : Failure → Type 0
IsTerminal e =
    (e.allowlist_forbidden ≡ false)
    × ((e.authenticated_status ≡ true)
        ⊎ (e.upstream_status ≡ some (pos 400))
        ⊎ (e.upstream_status ≡ some (pos 401))
        ⊎ (e.upstream_status ≡ some (pos 403)))

IsTerminal-stops :
    (req : FailoverRequest) (e : Failure) → IsTerminal e → should_failover req e ≡ false
unfolding should_failover should_failover_status
IsTerminal-stops req e (h, k) = ground arith

-- An error of that kind ends the search: no endpoint behind the one that gave it is asked and nothing
-- is recorded against it, and the caller gets that error, or that of the context if it has ended.
pub terminal_error-ends :
    {W : Type 0} (client : Attempting W) (public_policy : Bool) (req : FailoverRequest)
    (runtime : UpstreamRuntime) (runtimes : List UpstreamRuntime) (last : Sequential) (w : W)
    (after : W) (e : Failure)
    → client.attempt runtime w ≡ (after, some e)
    → IsTerminal e
    → do_with_sequential_failover client public_policy req (runtime ∷ runtimes) last w
      ≡ (after, if client.ended after then context_ended else failed_with e)
unfolding do_with_sequential_failover
terminal_error-ends {W} client public_policy req runtime runtimes last w after e p h =
    ground (arith, p, IsTerminal-stops (decorate_failover_request public_policy req runtime) e h)
