-- ===== src/Gateway/Messages.antt =====
-- services/mcp-gateway/src/relay/request-manager.ts and packages/mcp-core (errors.ts, contracts.ts): the
-- messages between gateway and agent, and the errors that a relayed request is settled with. Of an
-- error the code, the terminal reason of its lifecycle and its details are kept.
use mcp_access_stack_legacy.Prelude.{ℕ, String, Bool, true, false, Option, none, some}
use mcp_access_stack_legacy.Core.Errors.{
  ErrorCode, agent_timeout, relay_protocol_error, operation_cancelled,
}
use mcp_access_stack_legacy.Core.Timeout.{
  OperationTerminalReason, command_termination_grace_ms, background_wait_completion_grace_ms,
}
use mcp_access_stack_legacy.Core.Relay.{
  RelayOperation, run_command, wait_background_task, ErrorDetails,
}

pub record AppError : Type 0 where
  pub code : ErrorCode
  pub reason : Option OperationTerminalReason
  pub details : Option ErrorDetails

pub data Settlement : Type 0 where
  resolved : Settlement
  rejected : AppError → Settlement

pub data CancelReason : Type 0 where
  upstream_timeout cancelled client_disconnected : CancelReason

pub data Message : Type 0 where
  request : String → Message
  cancel : String → CancelReason → Message

unfoldable pub operation_completion_grace_ms : RelayOperation → ℕ
operation_completion_grace_ms run_command = command_termination_grace_ms
operation_completion_grace_ms wait_background_task = background_wait_completion_grace_ms
operation_completion_grace_ms _ = 0

-- The reason of the signal: an `AppError`, or anything else.
unfoldable pub relay_interruption : Option AppError → CancelReason × AppError
relay_interruption none = (
  client_disconnected,
  record {
    code = operation_cancelled;
    reason = some OperationTerminalReason.client_disconnected;
    details = none;
  },
)
relay_interruption (some error) = elim error.reason [
  | some OperationTerminalReason.timeout ↦ (upstream_timeout, error)
  | some OperationTerminalReason.upstream_timeout ↦ (upstream_timeout, error)
  | some OperationTerminalReason.cancelled ↦ (cancelled, error)
  | some OperationTerminalReason.client_disconnected ↦ (client_disconnected, error)
  | _ ↦ elim error.code [
    | ErrorCode.agent_timeout ↦ (upstream_timeout, error)
    | _ ↦ (cancelled, error)
  ]
]

abbrev pub timeout_error : AppError
timeout_error = record {
  code = agent_timeout;
  reason = some OperationTerminalReason.upstream_timeout;
  details = none;
}

-- What the agent answers: an error, or a result that matches the schema of the operation or not.
pub data RelayResponse : Type 0 where
  failure : AppError → RelayResponse
  success : Bool → RelayResponse

unfoldable pub outcome_of : RelayResponse → Settlement
outcome_of (failure error) = rejected error
outcome_of (success true) = resolved
outcome_of (success false) =
    rejected (record { code = relay_protocol_error; reason = none; details = none })
