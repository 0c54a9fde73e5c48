-- ===== src/Gateway/Connection.antt =====
-- services/mcp-gateway/src/relay/service.ts: the connection to the workspace agent, and how a call
-- waits for it. The relay is seen by one call: the signal of its context is a field. What happens while
-- it waits is a list of events; a socket is known by its generation, and is `some true` while it is
-- open. The heartbeat, the upgrade of requests and logging are left out.
pub mod Waits
use mcp_access_stack_legacy.Prelude.{
  is_some, ℕ, ◌+◌, min, Bool, true, false, ◌&&◌, ◌||◌, not, List, [], ◌∷◌, Option, none, some,
  if◌then◌else◌, leb, ◌==◌,
}
use mcp_access_stack_legacy.Core.Errors.{ErrorCode, agent_unavailable}
use mcp_access_stack_legacy.Core.Timeout.{OperationDeadline, remaining_operation_time_ms}
use mcp_access_stack_legacy.Core.Relay.{
  RelayOperation, is_retryable_relay_operation, AgentAvailabilityReason, agent_not_connected,
  gateway_shutdown, reconnect_timeout, AgentAvailabilityOutcome, not_started, unknown, ErrorDetails,
  create_agent_unavailable_details,
}
use mcp_access_stack_legacy.Gateway.Messages.{AppError, Settlement, resolved, rejected}

pub record AgentRelay : Type 0 where
  pub closed : Bool
  pub ready : Bool
  pub socket : Option Bool
  pub connection_generation : ℕ
  pub aborted : Bool
  pub reconnect_grace_ms : ℕ
  pub request_timeout_ms : ℕ

pub data ServiceEvent : Type 0 where
  accepted hello closing shut_down aborts elapses : ServiceEvent
  closes : ℕ → ServiceEvent

abbrev pub is_open : Option Bool → Bool
is_open none = false
is_open (some up) = up

unfoldable pub is_connected : AgentRelay → Bool
is_connected s = s.ready && is_open s.socket

-- The change that an event makes: a connection is accepted, the agent says hello, the socket starts
-- to close or is closed, the gateway is shut down, the call is aborted, or the time to wait is over.
unfoldable pub on_event : ServiceEvent → AgentRelay → AgentRelay
on_event accepted s = record s {
  connection_generation = s.connection_generation + 1;
  socket = some true;
  ready = false;
}
on_event hello s = record s { ready = true }
on_event closing s = elim s.socket [ none ↦ s | some _ ↦ record s { socket = some false } ]
on_event (closes generation) s =
    if is_some s.socket && (generation == s.connection_generation)
    then record s { socket = none; ready = false }
    else s
on_event shut_down s =
    if s.closed then s else record s { closed = true; ready = false; socket = none }
on_event aborts s = record s { aborted = true }
on_event elapses s = s

unfoldable pub on_events : List ServiceEvent → AgentRelay → AgentRelay
unfolding on_event
on_events [] s = s
on_events (e ∷ es) s = on_events es (on_event e s)

unfoldable pub reconnect_wait_ms : Option OperationDeadline → ℕ → AgentRelay → ℕ
reconnect_wait_ms none now s = min s.reconnect_grace_ms s.request_timeout_ms
reconnect_wait_ms (some deadline) now s =
    min (min s.reconnect_grace_ms s.request_timeout_ms) (remaining_operation_time_ms deadline now)

-- Whether an event resolves the waiter, and with what: `s` is the service before the event.
unfoldable pub resolves : ℕ → ServiceEvent → AgentRelay → Option Bool
unfolding on_event is_connected
resolves minimum hello s =
    if not s.ready && (is_connected (on_event hello s) && leb minimum s.connection_generation)
    then some true
    else none
resolves minimum shut_down s = if s.closed then none else some false
resolves minimum aborts s = some false
resolves minimum elapses s = some false
resolves minimum _ s = none

-- The promise of the waiter; `none` while it is pending.
unfoldable pub await_ready : ℕ → List ServiceEvent → AgentRelay → AgentRelay × Option Bool
unfolding on_event resolves
await_ready minimum [] s = (s, none)
await_ready minimum (e ∷ es) s =
    let rest = await_ready minimum es (on_event e s) in
    elim (resolves minimum e s) [ some ready ↦ (on_event e s, some ready) | none ↦ rest ]

unfoldable pub wait_for_ready_generation :
    ℕ → Option OperationDeadline → ℕ → List ServiceEvent → AgentRelay → AgentRelay × Option Bool
unfolding is_connected reconnect_wait_ms await_ready
wait_for_ready_generation minimum deadline now events s =
    if is_connected s && leb minimum s.connection_generation
    then (s, some true)
    else if s.closed || s.aborted
    then (s, some false)
    else if reconnect_wait_ms deadline now s == 0
    then (s, some false)
    else await_ready minimum events s
