-- ===== src/Gateway/Service/Finish.antt =====
-- A call of the workspace agent ends.
use mcp_access_stack_legacy.Prelude.{
  ℕ, ◌+◌, Bool, true, false, any, List, [], ◌∷◌, Option, none, some, is_some, if◌then◌else◌, ◌==◌,
  ◌≡◌, refl, arith,
}
use mcp_access_stack_legacy.Core.Timeout.{OperationDeadline}
use mcp_access_stack_legacy.Core.Relay.{
  RelayOperation, is_retryable_relay_operation, AgentAvailabilityOutcome, not_started,
}
use mcp_access_stack_legacy.Gateway.Messages.{AppError, Settlement, resolved, rejected}
use mcp_access_stack_legacy.Gateway.Connection.{
  AgentRelay, ServiceEvent, accepted, hello, closes, reconnect_wait_ms, is_connected, is_open,
  on_event, on_events, resolves, await_ready, wait_for_ready_generation,
}
use mcp_access_stack_legacy.Gateway.Connection.Waits.{is_elapses, wait_ends}
use mcp_access_stack_legacy.Gateway.Service.{
  Turn, Run, after_wait, not_connected, request_failed, settled_request, one_turn, call_turns, call,
  is_agent_unavailable, is_shutdown, outcome_of,
}

after_wait_ends :
    (operation : RelayOperation) (outcome : AgentAvailabilityOutcome) (sends : List ℕ)
    (next : AgentRelay → Run) (w : AgentRelay × Option Bool)
    → is_some w.1 ≡ true
    → ((s : AgentRelay) → is_some (next s).answer ≡ true)
    → is_some (after_wait operation outcome sends next w).answer ≡ true
unfolding after_wait
after_wait_ends operation outcome sends next (s, none) w e = absurd (ground arith)
after_wait_ends operation outcome sends next (s, some true) w e = e s
after_wait_ends operation outcome sends next (s, some false) w e = refl

module _ (operation : RelayOperation) (deadline : Option OperationDeadline) (turn : Turn) where
  not_connected_last :
      (outcome : AgentAvailabilityOutcome) (sends : List ℕ) (next : AgentRelay → Run)
      (s : AgentRelay)
      → is_some (not_connected operation deadline turn true outcome sends next s).answer ≡ true
  unfolding not_connected
  not_connected_last outcome sends next s = ground arith

  settled_request_last :
      (generation : ℕ) (sends : List ℕ) (next : AgentAvailabilityOutcome → AgentRelay → Run)
      (reply : Settlement) (s : AgentRelay)
      → is_some (settled_request operation deadline turn true generation sends next reply s).answer
        ≡ true
  unfolding settled_request request_failed
  settled_request_last generation sends next resolved s = refl
  settled_request_last generation sends next (rejected error) s = ground arith

  one_turn_last :
      (outcome : AgentAvailabilityOutcome) (sends : List ℕ)
      (next : AgentAvailabilityOutcome → List ℕ → AgentRelay → Run) (s : AgentRelay)
      → is_some (one_turn operation deadline turn true outcome sends next s).answer ≡ true
  unfolding one_turn
  one_turn_last outcome sends next s = ground (
    arith,
    not_connected_last outcome sends (next outcome sends) s,
    settled_request_last s.connection_generation (s.connection_generation ∷ sends)
        (λ outcome. next outcome (s.connection_generation ∷ sends)) turn.reply
        (on_events turn.during s),
  )

  not_connected_ends :
      (next : AgentRelay → Run) (s : AgentRelay)
      → any is_elapses turn.waiting ≡ true
      → ((s : AgentRelay) → is_some (next s).answer ≡ true)
      → is_some (not_connected operation deadline turn false not_started [] next s).answer ≡ true
  unfolding not_connected
  not_connected_ends next s e answers =
      let minimum =
        if is_open s.socket then s.connection_generation else s.connection_generation + 1 in
      let w = wait_for_ready_generation minimum deadline turn.now turn.waiting s in
      ground (
        arith,
        after_wait_ends operation not_started [] next w
            (wait_ends minimum deadline turn.now turn.waiting s e) answers,
      )

  settled_request_ends :
      (generation : ℕ) (sends : List ℕ) (next : AgentAvailabilityOutcome → AgentRelay → Run)
      (reply : Settlement) (s : AgentRelay)
      → any is_elapses turn.waiting ≡ true
      → ((o : AgentAvailabilityOutcome) (s : AgentRelay) → is_some (next o s).answer ≡ true)
      → is_some (settled_request operation deadline turn false generation sends next reply s).answer
        ≡ true
  unfolding settled_request request_failed
  settled_request_ends generation sends next resolved s e answers = refl
  settled_request_ends generation sends next (rejected error) s e answers =
      let w = wait_for_ready_generation (generation + 1) deadline turn.now turn.waiting s in
      ground (
        arith,
        after_wait_ends operation (outcome_of error.details) sends (next (outcome_of error.details))
            w (wait_ends (generation + 1) deadline turn.now turn.waiting s e)
            (answers (outcome_of error.details)),
      )

  one_turn_ends :
      (next : AgentAvailabilityOutcome → List ℕ → AgentRelay → Run) (s : AgentRelay)
      → any is_elapses turn.waiting ≡ true
      → ((o : AgentAvailabilityOutcome) (sends : List ℕ) (s : AgentRelay)
          → is_some (next o sends s).answer ≡ true)
      → is_some (one_turn operation deadline turn false not_started [] next s).answer ≡ true
  unfolding one_turn
  one_turn_ends next s e answers = ground (
    arith,
    not_connected_ends (next not_started []) s e (answers not_started []),
    settled_request_ends s.connection_generation (s.connection_generation ∷ [])
        (λ outcome. next outcome (s.connection_generation ∷ [])) turn.reply
        (on_events turn.during s) e (λ o s'. answers o (s.connection_generation ∷ []) s'),
  )

-- A call is settled within two turns, if the timer of the first turn's wait fires.
pub call_finishes :
    (operation : RelayOperation) (deadline : Option OperationDeadline) (turn turn' : Turn)
    (more : List Turn) (s : AgentRelay)
    → any is_elapses turn.waiting ≡ true
    → is_some (call operation deadline (turn ∷ turn' ∷ more) s).answer ≡ true
unfolding call call_turns
call_finishes operation deadline turn turn' more s e =
    one_turn_ends operation deadline turn (call_turns operation deadline (turn' ∷ more) true) s e
      (λ o sends s'.
        one_turn_last operation deadline turn' o sends (call_turns operation deadline more true) s')

-- A call survives a reconnection if its operation may be repeated, it is not aborted, the service is
-- connected and not shut down, and there is time to wait: when the socket closes while the request is
-- pending, the request is rejected as unavailable for a reason other than a shutdown, the agent then
-- connects again and says hello, and the second request is resolved, then so is the call.
pub call_recovers :
    (operation : RelayOperation) (deadline : Option OperationDeadline) (now now' : ℕ)
    (error : AppError) (waiting during waiting' : List ServiceEvent) (more : List Turn)
    (s : AgentRelay)
    → is_retryable_relay_operation operation ≡ true
    → is_connected s ≡ true
    → s.closed ≡ false
    → s.aborted ≡ false
    → is_agent_unavailable error.code ≡ true
    → is_shutdown error.details ≡ false
    → (reconnect_wait_ms deadline now s == 0) ≡ false
    → (call operation deadline
        (record {
          now = now;
          during = closes s.connection_generation ∷ [];
          reply = rejected error;
          waiting = accepted ∷ hello ∷ waiting;
        }
          ∷ record { now = now'; during = during; reply = resolved; waiting = waiting' }
          ∷ more)
        s).answer
      ≡ some resolved
unfolding call call_turns one_turn not_connected settled_request request_failed on_events on_event
    after_wait wait_for_ready_generation await_ready resolves is_connected reconnect_wait_ms
call_recovers operation deadline now now' error waiting during waiting' more s r c o a u d w =
    ground arith
