-- ===== src/Core/ReceiptStore.antt =====
-- packages/mcp-core/src/mutation-receipts.ts: the transitions of a receipt and the store in memory.
pub mod Transitions
pub mod Refinement
pub mod Replay
mod Tests
use mcp_access_stack_legacy.Prelude.{
  String, Bool, true, false, not, ◌&&◌, ◌||◌, Option, none, some, if◌then◌else◌, ◌==◌, ℕ,
}
use mcp_access_stack_legacy.Prelude.Assoc.{Assoc, get, put}
use mcp_access_stack_legacy.Core.Errors.{execution_state_invalid}
use mcp_access_stack_legacy.Core.Receipts.{
  MutationReceiptIdentity, MutationReceiptState, reserved, executing, completed,
  reconciliation_required, Json, MutationReceipt, MutationReceiptReservation, execute,
  replay_completed, needs_reconciliation, Attempt, returns, app_error, schema_error, ◌>>=◌, ◌>>◌,
  parse_identity, parse_public_result, parse_receipt, assert_same_identity, clone_receipt,
  clone_reservation,
}

abbrev pub state_index : MutationReceiptState → ℕ
state_index reserved = 0
state_index executing = 1
state_index completed = 2
state_index reconciliation_required = 3

-- `===` on states.
abbrev pub state_eq : MutationReceiptState → MutationReceiptState → Bool
state_eq a b = state_index a == state_index b

abbrev pub in_state : MutationReceiptState → MutationReceiptIdentity → MutationReceipt
in_state state identity = record { identity = identity; state = state; result = none }

abbrev pub reservation_of : MutationReceipt → MutationReceiptReservation
reservation_of r =
    if state_eq r.state completed
    then replay_completed (clone_receipt r)
    else needs_reconciliation (clone_receipt r)

-- The rest of `reserveMutationReceipt` and of `requireExistingReceipt` for a receipt that is there.
pub parse_existing : MutationReceipt → MutationReceiptIdentity → Attempt MutationReceipt
parse_existing existing identity = do
  r ← parse_receipt existing
  assert_same_identity r.identity identity
  returns r

pub reserve_mutation_receipt :
    Option MutationReceipt → MutationReceiptIdentity → Attempt MutationReceiptReservation
unfolding parse_existing
reserve_mutation_receipt none identity = do
  parsed ← parse_identity identity
  returns (execute (in_state reserved parsed))
reserve_mutation_receipt (some existing) identity = do
  parsed ← parse_identity identity
  r ← parse_existing existing parsed
  returns (reservation_of r)

pub require_existing_receipt :
    Option MutationReceipt → MutationReceiptIdentity → Attempt MutationReceipt
unfolding parse_existing
require_existing_receipt none identity = app_error execution_state_invalid
require_existing_receipt (some existing) identity = do
  parsed ← parse_identity identity
  parse_existing existing parsed

abbrev pub executing_from : MutationReceipt → Attempt MutationReceipt
executing_from r =
    if not (state_eq r.state reserved)
    then app_error execution_state_invalid
    else returns (in_state executing r.identity)

abbrev pub reconciliation_from : MutationReceipt → Attempt MutationReceipt
reconciliation_from r =
    if state_eq r.state reconciliation_required
    then returns r
    else if not (state_eq r.state executing)
    then app_error execution_state_invalid
    else returns (in_state reconciliation_required r.identity)

abbrev pub completed_with : MutationReceipt → Json → MutationReceipt
completed_with r value = record { identity = r.identity; state = completed; result = some value }

abbrev pub completed_from : Json → MutationReceipt → Attempt MutationReceipt
completed_from result r =
    if not (state_eq r.state executing) && not (state_eq r.state reconciliation_required)
    then app_error execution_state_invalid
    else do value ← parse_public_result result; returns (completed_with r value)

pub mark_mutation_receipt_executing :
    Option MutationReceipt → MutationReceiptIdentity → Attempt MutationReceipt
unfolding require_existing_receipt
mark_mutation_receipt_executing existing identity = do
  r ← require_existing_receipt existing identity
  executing_from r

pub mark_mutation_receipt_reconciliation_required :
    Option MutationReceipt → MutationReceiptIdentity → Attempt MutationReceipt
unfolding require_existing_receipt
mark_mutation_receipt_reconciliation_required existing identity = do
  r ← require_existing_receipt existing identity
  reconciliation_from r

pub mark_mutation_receipt_completed :
    Option MutationReceipt → MutationReceiptIdentity → Json → Attempt MutationReceipt
unfolding require_existing_receipt
mark_mutation_receipt_completed existing identity result = do
  r ← require_existing_receipt existing identity
  completed_from result r

-- `InMemoryMutationReceiptStore`: the map from idempotency keys to receipts is its one field.
abbrev pub ReceiptStore : Type 0
ReceiptStore = Assoc MutationReceipt

-- What `reserve` writes: a receipt that is to be executed.
abbrev pub write_reservation : String → MutationReceiptReservation → ReceiptStore → ReceiptStore
write_reservation key (execute r) store = put key (clone_receipt r) store
write_reservation key (replay_completed r) store = store
write_reservation key (needs_reconciliation r) store = store

abbrev pub reserved_as :
    String
    → ReceiptStore
    → Attempt MutationReceiptReservation
    → ReceiptStore × Attempt MutationReceiptReservation
reserved_as key store (returns reservation) =
    (write_reservation key reservation store, returns (clone_reservation reservation))
reserved_as key store (app_error e) = (store, app_error e)
reserved_as key store schema_error = (store, schema_error)

pub reserve :
    MutationReceiptIdentity → ReceiptStore → ReceiptStore × Attempt MutationReceiptReservation
unfolding reserve_mutation_receipt
reserve identity store = elim (parse_identity identity) [
  | app_error e ↦ (store, app_error e)
  | schema_error ↦ (store, schema_error)
  | returns parsed ↦
      reserved_as parsed.idempotency_key store
        (reserve_mutation_receipt (get parsed.idempotency_key store) parsed)
]

abbrev pub marked_as :
    String → ReceiptStore → Attempt MutationReceipt → ReceiptStore × Attempt MutationReceipt
marked_as key store (returns r) = (put key (clone_receipt r) store, returns (clone_receipt r))
marked_as key store (app_error e) = (store, app_error e)
marked_as key store schema_error = (store, schema_error)

-- What the three marking methods share: `transition` is the function that each of them calls.
pub mark :
    (Option MutationReceipt → MutationReceiptIdentity → Attempt MutationReceipt)
    → MutationReceiptIdentity
    → ReceiptStore
    → ReceiptStore × Attempt MutationReceipt
mark transition identity store = elim (parse_identity identity) [
  | app_error e ↦ (store, app_error e)
  | schema_error ↦ (store, schema_error)
  | returns parsed ↦
      marked_as parsed.idempotency_key store (transition (get parsed.idempotency_key store) parsed)
]

pub mark_executing : MutationReceiptIdentity → ReceiptStore → ReceiptStore × Attempt MutationReceipt
unfolding mark mark_mutation_receipt_executing
mark_executing = mark mark_mutation_receipt_executing

pub mark_reconciliation_required :
    MutationReceiptIdentity → ReceiptStore → ReceiptStore × Attempt MutationReceipt
unfolding mark mark_mutation_receipt_reconciliation_required
mark_reconciliation_required = mark mark_mutation_receipt_reconciliation_required

pub mark_completed :
    MutationReceiptIdentity → Json → ReceiptStore → ReceiptStore × Attempt MutationReceipt
unfolding mark mark_mutation_receipt_completed
mark_completed identity result =
    mark (λ existing parsed. mark_mutation_receipt_completed existing parsed result) identity

pub find : String → ReceiptStore → Option MutationReceipt
find idempotency_key store = elim (get idempotency_key store) [
  | none ↦ none
  | some receipt ↦ some (clone_receipt receipt)
]
