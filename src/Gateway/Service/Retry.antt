-- ===== src/Gateway/Service/Retry.antt =====
-- How often a call of the workspace agent is sent, and that it ends.
use mcp_access_stack_legacy.Prelude.{
  ℕ, ◌+◌, ◌<◌, Bool, true, false, ◌||◌, not, List, [], ◌∷◌, Option, none, some, if◌then◌else◌, ◌≡◌,
  refl, ◌⊎◌, inl, inr, arith, Bool-cases,
}
use mcp_access_stack_legacy.Core.Timeout.{OperationDeadline}
use mcp_access_stack_legacy.Core.Relay.{
  RelayOperation, is_retryable_relay_operation, AgentAvailabilityOutcome, not_started,
}
use mcp_access_stack_legacy.Gateway.Messages.{Settlement, resolved, rejected}
use mcp_access_stack_legacy.Gateway.Connection.{
  AgentRelay, is_connected, is_open, on_events, wait_for_ready_generation,
}
use mcp_access_stack_legacy.Gateway.Connection.Waits.{wait_later}
use mcp_access_stack_legacy.Gateway.Service.{
  Turn, Run, after_wait, not_connected, request_failed, settled_request, one_turn, call_turns, call,
  is_agent_unavailable, is_shutdown, outcome_of,
}

after_wait_cases :
    (operation : RelayOperation) (outcome : AgentAvailabilityOutcome) (sends : List ℕ)
    (next : AgentRelay → Run) (w : AgentRelay × Option Bool)
    → ((after_wait operation outcome sends next w).sends ≡ sends)
      ⊎ ((w.1 ≡ some true) × (after_wait operation outcome sends next w ≡ next w.0))
unfolding after_wait
after_wait_cases operation outcome sends next (s, none) = inl refl
after_wait_cases operation outcome sends next (s, some true) = inr (refl, refl)
after_wait_cases operation outcome sends next (s, some false) = inl refl

three_ways :
    (P : List ℕ → Type 0) (a b : Bool) (x y z : Run)
    → P x.sends
    → P y.sends
    → P z.sends
    → P (if a then x else if b then y else z).sends
three_ways P true b x y z p q r = p
three_ways P false true x y z p q r = q
three_ways P false false x y z p q r = r

-- The requests that a call may send: none, one, or a second one for an operation that may be
-- repeated, under a later connection than the first.
pub data AreSends (operation : RelayOperation) : List ℕ → Type 0 where
  no_send : AreSends operation []
  one_send : (generation : ℕ) → AreSends operation (generation ∷ [])
  sent_again :
      (generation later : ℕ)
      → is_retryable_relay_operation operation ≡ true
      → generation < later
      → AreSends operation (later ∷ generation ∷ [])

module _ (operation : RelayOperation) (deadline : Option OperationDeadline) where
  -- A turn after a retry does not wait again.
  not_connected_last :
      (turn : Turn) (outcome : AgentAvailabilityOutcome) (sends : List ℕ) (next : AgentRelay → Run)
      (s : AgentRelay)
      → (not_connected operation deadline turn true outcome sends next s).sends ≡ sends
  unfolding not_connected
  not_connected_last turn outcome sends next s = ground arith

  settled_request_last :
      (turn : Turn) (generation : ℕ) (sends : List ℕ)
      (next : AgentAvailabilityOutcome → AgentRelay → Run) (reply : Settlement) (s : AgentRelay)
      → (settled_request operation deadline turn true generation sends next reply s).sends ≡ sends
  unfolding settled_request request_failed
  settled_request_last turn generation sends next resolved s = refl
  settled_request_last turn generation sends next (rejected error) s = ground arith

  one_turn_last :
      (turn : Turn) (outcome : AgentAvailabilityOutcome) (sends : List ℕ)
      (next : AgentAvailabilityOutcome → List ℕ → AgentRelay → Run) (s : AgentRelay)
      → ((one_turn operation deadline turn true outcome sends next s).sends ≡ sends)
        ⊎ ((one_turn operation deadline turn true outcome sends next s).sends
            ≡ s.connection_generation ∷ sends)
  unfolding one_turn
  one_turn_last turn outcome sends next s = ground (
    arith,
    not_connected_last turn outcome sends (next outcome sends) s,
    settled_request_last turn s.connection_generation (s.connection_generation ∷ sends)
        (λ outcome. next outcome (s.connection_generation ∷ sends)) turn.reply
        (on_events turn.during s),
  )

  last_turn_sends :
      (turns : List Turn) (outcome : AgentAvailabilityOutcome) (sends : List ℕ) (s : AgentRelay)
      → ((call_turns operation deadline turns true outcome sends s).sends ≡ sends)
        ⊎ ((call_turns operation deadline turns true outcome sends s).sends
            ≡ s.connection_generation ∷ sends)
  unfolding call_turns
  last_turn_sends [] outcome sends s = inl refl
  last_turn_sends (turn ∷ turns) outcome sends s =
      one_turn_last turn outcome sends (call_turns operation deadline turns true) s

  -- What a first turn that finds no agent sends: what the rest sends, after a wait, or nothing.
  not_connected_cases :
      (turn : Turn) (next : AgentRelay → Run) (s : AgentRelay)
      → ((not_connected operation deadline turn false not_started [] next s).sends ≡ [])
        ⊎ ((s' : AgentRelay) × (not_connected operation deadline turn false not_started [] next s
              ≡ next s'))
  unfolding not_connected
  not_connected_cases turn next s =
      let w =
        wait_for_ready_generation
          (if is_open s.socket then s.connection_generation else s.connection_generation + 1)
          deadline turn.now turn.waiting s in
      elim (Bool-cases (not (is_retryable_relay_operation operation) || s.aborted)) [
        | inl refused ↦ inl (ground arith)
        | inr waits ↦ elim (after_wait_cases operation not_started [] next w) [
          | inl ended ↦ inl (ground (arith, ended))
          | inr (ready, goes_on) ↦ inr (w.0, ground (arith, goes_on))
        ]
      ]

  settled_request_cases :
      (turn : Turn) (generation : ℕ) (next : AgentAvailabilityOutcome → AgentRelay → Run)
      (reply : Settlement) (s : AgentRelay)
      → ((settled_request operation deadline turn false generation
            (generation ∷ [])
            next
            reply
            s).sends
          ≡ generation ∷ [])
        ⊎ ((o : AgentAvailabilityOutcome) × (s' : AgentRelay) × (is_retryable_relay_operation
                operation
              ≡ true)
            × (generation < s'.connection_generation)
            × (settled_request operation deadline turn false generation
                  (generation ∷ [])
                  next
                  reply
                  s
                ≡ next o s'))
  unfolding settled_request request_failed
  settled_request_cases turn generation next resolved s = inl refl
  settled_request_cases turn generation next (rejected error) s =
      let w = wait_for_ready_generation (generation + 1) deadline turn.now turn.waiting s in
      let stops =
        not (is_agent_unavailable error.code)
        || (not (is_retryable_relay_operation operation)
            || (is_shutdown error.details || s.aborted)) in
      elim (Bool-cases stops) [
        | inl ends ↦ inl (ground arith)
        | inr waits ↦
            elim (after_wait_cases operation (outcome_of error.details) (generation ∷ [])
              (next (outcome_of error.details)) w) [
                | inl ended ↦ inl (ground (arith, ended))
                | inr (ready, goes_on) ↦ inr (
                  outcome_of error.details,
                  w.0,
                  ground arith,
                  ground
                      (arith, wait_later (generation + 1) deadline turn.now turn.waiting s ready),
                  ground (arith, goes_on),
                )
              ]
      ]

  sends_of_turns :
      (turns : List Turn) (outcome : AgentAvailabilityOutcome) (s : AgentRelay)
      → AreSends operation (call_turns operation deadline turns true outcome [] s).sends
  sends_of_turns turns outcome s = elim (last_turn_sends turns outcome [] s) [
    | inl e ↦ rw e no_send
    | inr e ↦ rw e (one_send s.connection_generation)
  ]

  sends_again :
      (turns : List Turn) (outcome : AgentAvailabilityOutcome) (generation : ℕ) (s : AgentRelay)
      → is_retryable_relay_operation operation ≡ true
      → generation < s.connection_generation
      → AreSends operation
          (call_turns operation deadline turns true outcome (generation ∷ []) s).sends
  sends_again turns outcome generation s retryable later =
      elim (last_turn_sends turns outcome (generation ∷ []) s) [
        | inl e ↦ rw e (one_send generation)
        | inr e ↦ rw e (sent_again generation s.connection_generation retryable later)
      ]

  not_connected_sends :
      (turn : Turn) (turns : List Turn) (s : AgentRelay)
      → AreSends operation
          (not_connected operation deadline turn false not_started []
            (call_turns operation deadline turns true not_started [])
            s).sends
  not_connected_sends turn turns s =
      elim (not_connected_cases turn (call_turns operation deadline turns true not_started []) s) [
        | inl e ↦ rw e no_send
        | inr (s', e) ↦ rw e (sends_of_turns turns not_started s')
      ]

  settled_request_sends :
      (turn : Turn) (turns : List Turn) (generation : ℕ) (s : AgentRelay)
      → AreSends operation
          (settled_request operation deadline turn false generation
            (generation ∷ [])
            (λ outcome. call_turns operation deadline turns true outcome (generation ∷ []))
            turn.reply
            s).sends
  settled_request_sends turn turns generation s =
      elim (settled_request_cases turn generation
        (λ outcome. call_turns operation deadline turns true outcome (generation ∷ [])) turn.reply
        s) [
          | inl e ↦ rw e (one_send generation)
          | inr (o, s', retryable, later, e) ↦
              rw e (sends_again turns o generation s' retryable later)
        ]

  first_turn_sends :
      (turn : Turn) (turns : List Turn) (s : AgentRelay)
      → AreSends operation
          (one_turn operation deadline turn false not_started []
            (call_turns operation deadline turns true)
            s).sends
  unfolding one_turn
  first_turn_sends turn turns s =
      three_ways (AreSends operation) s.closed (not (is_connected s)) _ _ _ no_send
        (not_connected_sends turn turns s)
        (settled_request_sends turn turns s.connection_generation (on_events turn.during s))

-- Whatever happens to the service, a call sends its request at most twice; it sends it a second time
-- only if its operation may be repeated, and then under a later connection than the first time.
pub call_sends :
    (operation : RelayOperation) (deadline : Option OperationDeadline) (turns : List Turn)
    (s : AgentRelay)
    → AreSends operation (call operation deadline turns s).sends
unfolding call call_turns
call_sends operation deadline [] s = no_send
call_sends operation deadline (turn ∷ turns) s = first_turn_sends operation deadline turn turns s
