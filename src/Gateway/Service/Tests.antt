-- ===== src/Gateway/Service/Tests.antt =====
-- Runs of calls of the workspace agent, and the theorems on them at concrete inputs.
use mcp_access_stack_legacy.Prelude.{true, false, [], ◌∷◌, any, none, some, is_some, ◌≡◌, refl}
use mcp_access_stack_legacy.Core.Errors.{agent_unavailable}
use mcp_access_stack_legacy.Core.Relay.{read_file, is_retryable_relay_operation}
use mcp_access_stack_legacy.Gateway.Messages.{AppError, resolved, rejected}
use mcp_access_stack_legacy.Gateway.Connection.{
  AgentRelay, accepted, hello, closes, elapses, is_connected, reconnect_wait_ms,
}
use mcp_access_stack_legacy.Gateway.Service.{Turn, call}
use mcp_access_stack_legacy.Gateway.Service.Retry.{AreSends, call_sends}
use mcp_access_stack_legacy.Gateway.Service.Finish.{call_finishes, call_recovers}

abbrev service : AgentRelay
service = record {
  closed = false;
  ready = true;
  socket = some true;
  connection_generation = 1;
  aborted = false;
  reconnect_grace_ms = 2_000;
  request_timeout_ms = 60_000;
}

abbrev lost : AppError
lost = record { code = agent_unavailable; reason = none; details = none }

abbrev disconnected : Turn
disconnected = record {
  now = 1_000;
  during = closes 1 ∷ [];
  reply = rejected lost;
  waiting = accepted ∷ hello ∷ elapses ∷ [];
}

abbrev answered : Turn
answered = record { now = 2_000; during = []; reply = resolved; waiting = [] }

two_sends : (call read_file none (disconnected ∷ answered ∷ []) service).sends ≡ 2 ∷ 1 ∷ []
unfolding call is_retryable_relay_operation
two_sends = refl

call_sends_example :
    AreSends read_file (call read_file none (disconnected ∷ answered ∷ []) service).sends
call_sends_example = call_sends read_file none (disconnected ∷ answered ∷ []) service

call_finishes_example :
    is_some (call read_file none (disconnected ∷ disconnected ∷ []) service).answer ≡ true
unfolding any
call_finishes_example = call_finishes read_file none disconnected disconnected [] service refl

call_recovers_example :
    (call read_file none (disconnected ∷ answered ∷ []) service).answer ≡ some resolved
unfolding is_connected reconnect_wait_ms is_retryable_relay_operation
call_recovers_example =
    call_recovers read_file none 1_000 2_000 lost (elapses ∷ []) [] [] [] service refl refl refl
      refl refl refl refl
