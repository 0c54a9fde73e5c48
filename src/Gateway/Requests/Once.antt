-- ===== src/Gateway/Requests/Once.antt =====
-- The request managers that calls, answers, timers, aborts and lost connections can lead to.
use mcp_access_stack_legacy.Prelude.{
  ℕ, suc, ◌≤◌, ◌<◌, String, List, [], ◌∷◌, Option, none, if◌then◌else◌, str_eq, leb, ◌==◌, ◌≡◌,
  refl, inl, inr, arith, eq_iff, Bool-cases, ◌∙◌,
}
use mcp_access_stack_legacy.Prelude.Assoc.{get, put, size, get-put, size-put, size-delete-le}
use mcp_access_stack_legacy.Prelude.Unique.{Unique, put-Unique, delete-Unique}
use mcp_access_stack_legacy.Core.Errors.{ok, throw}
use mcp_access_stack_legacy.Core.Timeout.{OperationDeadline, remaining_operation_time_ms}
use mcp_access_stack_legacy.Core.Relay.{RelayOperation, AgentAvailabilityReason}
use mcp_access_stack_legacy.Gateway.Messages.{
  AppError, RelayResponse, relay_interruption, CancelReason, Settlement, Message, request,
}
use mcp_access_stack_legacy.Gateway.Requests.{
  PendingRequest, AgentRelayRequestManager, Signal, quiet, fired, aborted, send_failed, dispatch,
  call, call_deadline, complete, reject_unavailable, reject_each, cancel_pending, new_pending,
  settle, send,
}
use mcp_access_stack_legacy.Gateway.Requests.Settle.{balance, cancel_pending-balance}

-- The manager tracks at most `maxConcurrency` requests, each under its own id.
pub record IsBounded (m : AgentRelayRequestManager) : Type 0 where
  pub within : size m.pending ≤ m.max_concurrency
  pub unique : Unique m.pending

module _ (m : AgentRelayRequestManager) (b : IsBounded m) (j : String) where
  pub cancel_pending-IsBounded :
      (why : CancelReason) (error : AppError) → IsBounded (cancel_pending j why error m)
  unfolding cancel_pending
  cancel_pending-IsBounded why error =
      ground (arith, size-delete-le j m.pending, delete-Unique j m.pending b.unique)

  pub complete-IsBounded : (response : RelayResponse) → IsBounded (complete j response m)
  unfolding complete
  complete-IsBounded response =
      ground (arith, size-delete-le j m.pending, delete-Unique j m.pending b.unique)

  pub send_failed-IsBounded : IsBounded (send_failed j m)
  unfolding send_failed
  send_failed-IsBounded =
      ground (arith, size-delete-le j m.pending, delete-Unique j m.pending b.unique)

  reject_unavailable-IsBounded :
      (reason : AgentAvailabilityReason) → IsBounded (reject_unavailable reason j m)
  unfolding reject_unavailable
  reject_unavailable-IsBounded reason =
      ground (arith, size-delete-le j m.pending, delete-Unique j m.pending b.unique)

pub reject_each-IsBounded :
    (reason : AgentAvailabilityReason) (ids : List String) (m : AgentRelayRequestManager)
    → IsBounded m
    → IsBounded (reject_each reason ids m)
unfolding reject_each
reject_each-IsBounded reason [] m b = b
reject_each-IsBounded reason (j ∷ ids) m b =
    reject_each-IsBounded reason ids (reject_unavailable reason j m)
      (reject_unavailable-IsBounded m b j reason)

pub aborted-balance :
    (id j : String) (reason : Option AppError) (m : AgentRelayRequestManager)
    → balance id (aborted j reason m) ≡ balance id m
unfolding aborted
aborted-balance id j reason m =
    cancel_pending-balance id m j (relay_interruption reason).0 (relay_interruption reason).1

pub aborted-IsBounded :
    (m : AgentRelayRequestManager) (b : IsBounded m) (j : String) (reason : Option AppError)
    → IsBounded (aborted j reason m)
unfolding aborted
aborted-IsBounded m b j reason =
    cancel_pending-IsBounded m b j (relay_interruption reason).0 (relay_interruption reason).1

settle-balance :
    (id j : String) (o : Settlement) (m : AgentRelayRequestManager)
    → balance j (settle id o m) ≡ (if str_eq id j then suc (balance j m) else balance j m)
unfolding settle balance
settle-balance id j o m = ground arith

send-balance :
    (j : String) (message : Message) (m : AgentRelayRequestManager)
    → balance j (send message m) ≡ balance j m
unfolding send balance
send-balance j message m = refl

module _ (id : String) (p : PendingRequest) (m : AgentRelayRequestManager) where
  tracked-balance :
      (j : String)
      → get id m.pending ≡ none
      → balance j (record m { pending = put id p m.pending })
        ≡ (if str_eq id j then suc (balance j m) else balance j m)
  unfolding balance
  tracked-balance j fresh = ground (arith, get-put j id p m.pending, eq_iff id j)

  tracked-IsBounded :
      IsBounded m
      → size m.pending < m.max_concurrency
      → IsBounded (record m { pending = put id p m.pending })
  tracked-IsBounded b room =
      ground (arith, size-put id p m.pending, put-Unique id p m.pending b.unique)

module _ (id : String) (operation : RelayOperation) (generation : ℕ) (deadline : OperationDeadline)
    (started : ℕ) (m : AgentRelayRequestManager) where
  abbrev tracked : AgentRelayRequestManager
  tracked = record m {
    pending =
        put id
          (new_pending operation generation (remaining_operation_time_ms deadline started) started)
          m.pending;
  }

  -- The request is sent, or aborted at once.
  abbrev handed_over : Signal → AgentRelayRequestManager
  handed_over quiet = send (request id) tracked
  handed_over (fired reason) = aborted id reason tracked

  handed_over-balance :
      (signal : Signal) (j : String)
      → get id m.pending ≡ none
      → balance j (handed_over signal) ≡ (if str_eq id j then suc (balance j m) else balance j m)
  handed_over-balance quiet j fresh =
      send-balance j (request id) tracked ∙ tracked-balance id _ m j fresh
  handed_over-balance (fired reason) j fresh =
      aborted-balance j id reason tracked ∙ tracked-balance id _ m j fresh

  handed_over-IsBounded :
      (signal : Signal)
      → IsBounded m
      → size m.pending < m.max_concurrency
      → IsBounded (handed_over signal)
  unfolding send
  handed_over-IsBounded quiet b room =
      let c = tracked-IsBounded id _ m b room in record { within = c.within; unique = c.unique }
  handed_over-IsBounded (fired reason) b room =
      aborted-IsBounded tracked (tracked-IsBounded id _ m b room) id reason

  dispatch-balance :
      (signal : Signal) (j : String)
      → get id m.pending ≡ none
      → balance j (dispatch id operation generation deadline signal started m)
        ≡ (if str_eq id j then suc (balance j m) else balance j m)
  unfolding dispatch
  dispatch-balance signal j fresh =
      elim (Bool-cases (remaining_operation_time_ms deadline started == 0)) [
        | inl late ↦ rw late (settle-balance id j _ m)
        | inr in_time ↦ rw in_time (handed_over-balance signal j fresh)
      ]

  dispatch-IsBounded :
      (signal : Signal)
      → IsBounded m
      → size m.pending < m.max_concurrency
      → IsBounded (dispatch id operation generation deadline signal started m)
  unfolding dispatch
  dispatch-IsBounded signal b room =
      elim (Bool-cases (remaining_operation_time_ms deadline started == 0)) [
        | inl late ↦ rw late (record { within = b.within; unique = b.unique })
        | inr in_time ↦ rw in_time (handed_over-IsBounded signal b room)
      ]

module _ (id : String) (operation : RelayOperation) (generation : ℕ)
    (context : Option OperationDeadline) (signal : Signal) (payload : Option ℕ) (now started : ℕ)
    (m : AgentRelayRequestManager) where
  -- A call that is refused changes nothing. One that is accepted adds one to the balance of its own
  -- id, whether the request is sent, has already expired or is already aborted, and nothing to the
  -- balance of another. The id must be new.
  pub call-balance :
      (j : String)
      → get id m.pending ≡ none
      → balance j (call id operation generation context signal payload now started m).0
        ≡ (elim (call id operation generation context signal payload now started m).1 [
          | ok _ ↦ if str_eq id j then suc (balance j m) else balance j m
          | throw _ ↦ balance j m
        ])
  unfolding call
  call-balance j fresh = ground (
    arith,
    dispatch-balance id operation generation (call_deadline context now m) started m signal j fresh,
  )

  pub call-IsBounded :
      IsBounded m → IsBounded (call id operation generation context signal payload now started m).0
  unfolding call
  call-IsBounded b = elim (Bool-cases (leb m.max_concurrency (size m.pending))) [
    | inl busy ↦ rw busy b
    | inr room ↦ ground (
      arith,
      b,
      dispatch-IsBounded id operation generation (call_deadline context now m) started m signal b
          (ground arith),
    )
  ]
