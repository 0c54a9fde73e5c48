-- ===== src/Gateway/Requests.antt =====
-- services/mcp-gateway/src/relay/request-manager.ts: requests that wait for the workspace agent.
-- A promise is settled by an entry of `settled`, a message is sent by an entry of `sent`; in both the
-- last entry comes first. The timer and the abort listener of a request exist while it is pending, so
-- `timed_out` and `aborted` do nothing for one that is not. Logging is left out.
pub mod Settle
pub mod Once
pub mod Reach
mod Tests
use mcp_access_stack_legacy.Prelude.{
  ℕ, ◌+◌, String, Bool, true, false, not, List, [], ◌∷◌, Option, none, some, if◌then◌else◌, leb,
  ltb, ◌==◌, length,
}
use mcp_access_stack_legacy.Prelude.Assoc.{Assoc, get, put, delete, size}
use mcp_access_stack_legacy.Core.Errors.{
  ErrorCode, agent_busy, agent_timeout, agent_unavailable, relay_protocol_error,
  operation_cancelled, Result, ok, throw,
}
use mcp_access_stack_legacy.Core.Timeout.{
  OperationDeadline, OperationTerminalReason, create_operation_deadline,
  remaining_operation_time_ms, max_synchronous_operation_timeout_ms, command_termination_grace_ms,
  background_wait_completion_grace_ms,
}
use mcp_access_stack_legacy.Core.Relay.{
  RelayOperation, run_command, wait_background_task, AgentAvailabilityReason, relay_send_failed,
  unknown, ErrorDetails, create_agent_unavailable_details,
}
use mcp_access_stack_legacy.Gateway.Messages.{
  AppError, Settlement, resolved, rejected, CancelReason, upstream_timeout, cancelled,
  client_disconnected, Message, request, cancel, operation_completion_grace_ms, relay_interruption,
  timeout_error, RelayResponse, failure, success, outcome_of,
}

pub record PendingRequest : Type 0 where
  pub operation : RelayOperation
  pub generation : ℕ
  pub started_at : ℕ
  pub watchdog_ms : ℕ

pub record AgentRelayRequestManager : Type 0 where
  pub pending : Assoc PendingRequest
  pub request_timeout_ms : ℕ
  pub max_concurrency : ℕ
  pub max_payload_bytes : ℕ
  pub settled : List (String × Settlement)
  pub sent : List Message

pub settle : String → Settlement → AgentRelayRequestManager → AgentRelayRequestManager
settle request_id outcome m = record m { settled = (request_id, outcome) ∷ m.settled }

pub send : Message → AgentRelayRequestManager → AgentRelayRequestManager
send message m = record m { sent = message ∷ m.sent }

-- `takePending`, then what the caller does with the request, if it was pending.
pub with_pending :
    String
    → (PendingRequest → AgentRelayRequestManager → AgentRelayRequestManager)
    → AgentRelayRequestManager
    → AgentRelayRequestManager
with_pending request_id f m = elim (get request_id m.pending) [
  | none ↦ m
  | some p ↦ f p (record m { pending = delete request_id m.pending })
]

pub cancel_pending :
    String → CancelReason → AppError → AgentRelayRequestManager → AgentRelayRequestManager
unfolding with_pending settle send
cancel_pending request_id reason error =
    with_pending request_id
      (λ p m. settle request_id (rejected error) (send (cancel request_id reason) m))

-- The timer of a request fires.
pub timed_out : String → AgentRelayRequestManager → AgentRelayRequestManager
unfolding cancel_pending
timed_out request_id = cancel_pending request_id upstream_timeout timeout_error

-- The signal of a request aborts.
pub aborted : String → Option AppError → AgentRelayRequestManager → AgentRelayRequestManager
unfolding cancel_pending relay_interruption
aborted request_id reason =
    let (why, error) = relay_interruption reason in cancel_pending request_id why error

-- The callback of `send` gets an error.
pub send_failed : String → AgentRelayRequestManager → AgentRelayRequestManager
unfolding with_pending settle
send_failed request_id = with_pending request_id (λ p. settle request_id (
    rejected (record {
      code = agent_unavailable;
      reason = some OperationTerminalReason.client_disconnected;
      details = some (
          create_agent_unavailable_details p.operation relay_send_failed unknown p.generation
            false);
    })))

-- The deadline of a call: that of its context, within the synchronous limit, or the configured one.
pub call_deadline : Option OperationDeadline → ℕ → AgentRelayRequestManager → OperationDeadline
call_deadline none now m = create_operation_deadline m.request_timeout_ms none now
call_deadline (some d) now m =
    create_operation_deadline max_synchronous_operation_timeout_ms (some d) now

-- The signal of a context: absent or not aborted, or aborted with a reason.
pub data Signal : Type 0 where
  quiet : Signal
  fired : Option AppError → Signal

-- `this.pending.set(requestId, …)`, with the delay of the timer that is started.
pub new_pending : RelayOperation → ℕ → ℕ → ℕ → PendingRequest
unfolding operation_completion_grace_ms
new_pending operation generation remaining started_at = record {
  operation = operation;
  generation = generation;
  started_at = started_at;
  watchdog_ms = remaining + operation_completion_grace_ms operation;
}

-- The executor of the promise that `call` returns.
pub dispatch :
    String
    → RelayOperation
    → ℕ
    → OperationDeadline
    → Signal
    → ℕ
    → AgentRelayRequestManager
    → AgentRelayRequestManager
unfolding settle send aborted new_pending
dispatch request_id operation generation deadline signal started_at m =
    let remaining = remaining_operation_time_ms deadline started_at in
    let m' = record m {
      pending = put request_id (new_pending operation generation remaining started_at) m.pending;
    } in
    if remaining == 0 then settle request_id (rejected timeout_error) m else elim signal [
      | fired reason ↦ aborted request_id reason m'
      | quiet ↦ send (request request_id) m'
    ]

-- `payload_bytes` is the size of the serialised request, `none` if it does not match the schema of
-- its operation; `request_id` comes from `randomUUID()`.
pub call :
    String
    → RelayOperation
    → ℕ
    → Option OperationDeadline
    → Signal
    → Option ℕ
    → ℕ
    → ℕ
    → AgentRelayRequestManager
    → AgentRelayRequestManager × Result (Unit {0})
unfolding call_deadline dispatch
call request_id operation generation context_deadline signal payload_bytes now started_at m =
    if leb m.max_concurrency (size m.pending) then (m, throw agent_busy) else elim payload_bytes [
      | none ↦ (m, throw relay_protocol_error)
      | some bytes ↦ if ltb m.max_payload_bytes bytes then (m, throw relay_protocol_error) else (
        dispatch request_id operation generation (call_deadline context_deadline now m) signal
            started_at m,
        ok tt,
      )
    ]

pub complete : String → RelayResponse → AgentRelayRequestManager → AgentRelayRequestManager
unfolding with_pending settle outcome_of
complete request_id response =
    with_pending request_id (λ p. settle request_id (outcome_of response))

-- What `rejectAll` and `rejectGeneration` do with one request.
pub reject_unavailable :
    AgentAvailabilityReason → String → AgentRelayRequestManager → AgentRelayRequestManager
unfolding with_pending settle
reject_unavailable reason request_id = with_pending request_id (λ p. settle request_id (
    rejected (record {
      code = agent_unavailable;
      reason = none;
      details =
          some (create_agent_unavailable_details p.operation reason unknown p.generation false);
    })))

pub reject_each :
    AgentAvailabilityReason → List String → AgentRelayRequestManager → AgentRelayRequestManager
unfolding reject_unavailable
reject_each reason [] m = m
reject_each reason (id ∷ ids) m = reject_each reason ids (reject_unavailable reason id m)

pub keys : Assoc PendingRequest → List String
keys [] = []
keys ((id, p) ∷ more) = id ∷ keys more

pub keys_of_generation : ℕ → Assoc PendingRequest → List String
keys_of_generation generation [] = []
keys_of_generation generation ((id, p) ∷ more) =
    let rest = keys_of_generation generation more in
    if p.generation == generation then id ∷ rest else rest

pub reject_all : AgentAvailabilityReason → AgentRelayRequestManager → AgentRelayRequestManager
unfolding reject_each keys
reject_all reason m = reject_each reason (keys m.pending) m

pub reject_generation :
    ℕ → AgentAvailabilityReason → AgentRelayRequestManager → AgentRelayRequestManager
unfolding reject_each keys_of_generation
reject_generation generation reason m =
    reject_each reason (keys_of_generation generation m.pending) m
