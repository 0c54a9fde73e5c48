-- ===== src/Gateway/Service.antt =====
-- services/mcp-gateway/src/relay/service.ts: calls of the workspace agent, with one retry after the
-- agent has reconnected. What the request manager and the connection do in each turn of the loop is an
-- argument.
pub mod Retry
pub mod Finish
mod Tests
use mcp_access_stack_legacy.Prelude.{
  is_some, ℕ, ◌+◌, min, Bool, true, false, ◌&&◌, ◌||◌, not, List, [], ◌∷◌, Option, none, some,
  if◌then◌else◌, leb, ◌==◌,
}
use mcp_access_stack_legacy.Core.Errors.{ErrorCode, agent_unavailable}
use mcp_access_stack_legacy.Core.Timeout.{OperationDeadline, remaining_operation_time_ms}
use mcp_access_stack_legacy.Core.Relay.{
  RelayOperation, is_retryable_relay_operation, AgentAvailabilityReason, agent_not_connected,
  gateway_shutdown, reconnect_timeout, AgentAvailabilityOutcome, not_started, unknown, ErrorDetails,
  create_agent_unavailable_details,
}
use mcp_access_stack_legacy.Gateway.Messages.{AppError, Settlement, resolved, rejected}
use mcp_access_stack_legacy.Gateway.Connection.{
  AgentRelay, ServiceEvent, accepted, hello, closing, shut_down, aborts, elapses, closes, is_open,
  is_connected, on_event, on_events, reconnect_wait_ms, resolves, await_ready,
  wait_for_ready_generation,
}

-- What meets one turn of the loop: the time, what happens while its request is pending, how that
-- request is settled, and what happens while the turn waits for the agent.
pub record Turn : Type 0 where
  pub now : ℕ
  pub during : List ServiceEvent
  pub reply : Settlement
  pub waiting : List ServiceEvent

-- `sends` has the generation of every request that was handed to the request manager, the last one
-- first; `answer` is how the call is settled, `none` while it runs.
pub record Run : Type 0 where
  pub service : AgentRelay
  pub sends : List ℕ
  pub answer : Option Settlement

abbrev pub done : AgentRelay → List ℕ → Settlement → Run
done s sends answer = record { service = s; sends = sends; answer = some answer }

abbrev pub running : AgentRelay → List ℕ → Run
running s sends = record { service = s; sends = sends; answer = none }

pub unavailable :
    RelayOperation → AgentAvailabilityReason → AgentAvailabilityOutcome → ℕ → Bool → Settlement
unavailable operation reason outcome generation retry_attempted = rejected (record {
  code = agent_unavailable;
  reason = none;
  details =
      some (create_agent_unavailable_details operation reason outcome generation retry_attempted);
})

abbrev pub is_agent_unavailable : ErrorCode → Bool
is_agent_unavailable agent_unavailable = true
is_agent_unavailable _ = false

abbrev pub outcome_of : Option ErrorDetails → AgentAvailabilityOutcome
outcome_of none = unknown
outcome_of (some details) = details.outcome

abbrev pub is_shutdown : Option ErrorDetails → Bool
is_shutdown none = false
is_shutdown (some details) = elim details.reason [ gateway_shutdown ↦ true | _ ↦ false ]

-- The error that is thrown when no retry is left.
pub final_error : Bool → AppError → AppError
final_error false error = error
final_error true error = elim error.details [
  | none ↦ error
  | some details ↦ record error { details = some (record details { retry_attempted = true }) }
]

-- What follows a wait: the next turn, or an error if the agent did not reconnect.
pub after_wait :
    RelayOperation
    → AgentAvailabilityOutcome
    → List ℕ
    → (AgentRelay → Run)
    → AgentRelay × Option Bool
    → Run
unfolding unavailable
after_wait operation outcome sends next (s, none) = running s sends
after_wait operation outcome sends next (s, some true) = next s
after_wait operation outcome sends next (s, some false) =
    done s sends (unavailable operation reconnect_timeout outcome s.connection_generation true)

module _ (operation : RelayOperation) (deadline : Option OperationDeadline) where
  -- A turn that finds no connected agent.
  pub not_connected :
      Turn → Bool → AgentAvailabilityOutcome → List ℕ → (AgentRelay → Run) → AgentRelay → Run
  unfolding after_wait unavailable wait_for_ready_generation
  not_connected turn recovery_attempted outcome sends next s =
      let minimum =
        if is_open s.socket then s.connection_generation else s.connection_generation + 1 in
      if not (is_retryable_relay_operation operation) || (recovery_attempted || s.aborted)
      then done s sends (
          unavailable operation
            (if recovery_attempted then reconnect_timeout else agent_not_connected) outcome
            s.connection_generation recovery_attempted)
      else after_wait operation outcome sends next
          (wait_for_ready_generation minimum deadline turn.now turn.waiting s)

  -- The `catch` of a turn: `s` is the service when the request was rejected with `error`, and
  -- `generation` that under which it was sent.
  pub request_failed :
      Turn
      → Bool
      → ℕ
      → AppError
      → List ℕ
      → (AgentAvailabilityOutcome → AgentRelay → Run)
      → AgentRelay
      → Run
  unfolding after_wait wait_for_ready_generation final_error
  request_failed turn recovery_attempted generation error sends next s =
      let outcome = outcome_of error.details in
      if not (is_agent_unavailable error.code)
      then done s sends (rejected error)
      else if not (is_retryable_relay_operation operation)
          || (recovery_attempted || (is_shutdown error.details || s.aborted))
      then done s sends (rejected (final_error recovery_attempted error))
      else after_wait operation outcome sends (next outcome)
          (wait_for_ready_generation (generation + 1) deadline turn.now turn.waiting s)

  -- The `try` of a turn, once its request has been settled.
  pub settled_request :
      Turn
      → Bool
      → ℕ
      → List ℕ
      → (AgentAvailabilityOutcome → AgentRelay → Run)
      → Settlement
      → AgentRelay
      → Run
  unfolding request_failed
  settled_request turn recovery_attempted generation sends next resolved s = done s sends resolved
  settled_request turn recovery_attempted generation sends next (rejected error) s =
      request_failed turn recovery_attempted generation error sends next s

  -- One turn of the loop of `call`, at values of `recoveryAttempted` and `outcome`; `next` is the rest.
  pub one_turn :
      Turn
      → Bool
      → AgentAvailabilityOutcome
      → List ℕ
      → (AgentAvailabilityOutcome → List ℕ → AgentRelay → Run)
      → AgentRelay
      → Run
  unfolding not_connected settled_request on_events is_connected unavailable
  one_turn turn recovery_attempted outcome sends next s =
      let sends' = s.connection_generation ∷ sends in
      if s.closed
      then done s sends (
          unavailable operation gateway_shutdown outcome s.connection_generation recovery_attempted)
      else if not (is_connected s)
      then not_connected turn recovery_attempted outcome sends (next outcome sends) s
      else settled_request turn recovery_attempted s.connection_generation sends'
          (λ outcome. next outcome sends') turn.reply (on_events turn.during s)

  -- The loop, one turn for each of the list. A turn that goes on has attempted a recovery.
  pub call_turns : List Turn → Bool → AgentAvailabilityOutcome → List ℕ → AgentRelay → Run
  unfolding one_turn
  call_turns [] recovery_attempted outcome sends s = running s sends
  call_turns (turn ∷ turns) recovery_attempted outcome sends s =
      one_turn turn recovery_attempted outcome sends (call_turns turns true) s

  pub call : List Turn → AgentRelay → Run
  unfolding call_turns
  call turns s = call_turns turns false not_started [] s
