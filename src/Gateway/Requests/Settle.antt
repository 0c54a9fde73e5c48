-- ===== src/Gateway/Requests/Settle.antt =====
-- Every request that the gateway accepts is settled once.
use mcp_access_stack_legacy.Prelude.{
  ℕ, suc, ◌+◌, String, List, [], ◌∷◌, none, if◌then◌else◌, str_eq, ◌==◌, includes, ◌≡◌, refl, arith,
  eq_iff, ◌∙◌,
}
use mcp_access_stack_legacy.Prelude.Assoc.{Assoc, get, has, passes, get-delete}
use mcp_access_stack_legacy.Prelude.Unique.{Unique}
use mcp_access_stack_legacy.Core.Relay.{AgentAvailabilityReason}
use mcp_access_stack_legacy.Gateway.Messages.{AppError, Settlement, RelayResponse}
use mcp_access_stack_legacy.Gateway.Requests.{
  PendingRequest, AgentRelayRequestManager, send_failed, complete, reject_unavailable, reject_each,
  reject_all, reject_generation, keys, keys_of_generation, cancel_pending,
}

-- How often the promise of a request was settled.
unfoldable pub settle_count : String → List (String × Settlement) → ℕ
settle_count id [] = 0
settle_count id ((j, o) ∷ more) =
    let rest = settle_count id more in if str_eq j id then suc rest else rest

unfoldable pub pending_count : String → AgentRelayRequestManager → ℕ
pending_count id m = if has id m.pending then 1 else 0

-- A request counts while it is pending and each time that it is settled.
unfoldable pub balance : String → AgentRelayRequestManager → ℕ
unfolding settle_count pending_count
balance id m = pending_count id m + settle_count id m.settled

module _ (id : String) (m : AgentRelayRequestManager) where
  pub cancel_pending-balance :
      (j : String) (why : _) (error : AppError)
      → balance id (cancel_pending j why error m) ≡ balance id m
  unfolding cancel_pending balance
  cancel_pending-balance j why error = ground (arith, get-delete id j m.pending, eq_iff j id)

  pub complete-balance :
      (j : String) (response : RelayResponse) → balance id (complete j response m) ≡ balance id m
  unfolding complete balance
  complete-balance j response = ground (arith, get-delete id j m.pending, eq_iff j id)

  pub send_failed-balance : (j : String) → balance id (send_failed j m) ≡ balance id m
  unfolding send_failed balance
  send_failed-balance j = ground (arith, get-delete id j m.pending, eq_iff j id)

  reject_unavailable-balance :
      (reason : AgentAvailabilityReason) (j : String)
      → balance id (reject_unavailable reason j m) ≡ balance id m
  unfolding reject_unavailable balance
  reject_unavailable-balance reason j = ground (arith, get-delete id j m.pending, eq_iff j id)

pub reject_each-balance :
    (id : String) (reason : AgentAvailabilityReason) (ids : List String)
    (m : AgentRelayRequestManager)
    → balance id (reject_each reason ids m) ≡ balance id m
unfolding reject_each
reject_each-balance id reason [] m = refl
reject_each-balance id reason (j ∷ ids) m =
    reject_each-balance id reason ids (reject_unavailable reason j m)
    ∙ reject_unavailable-balance id m reason j

reject_each-get :
    (id : String) (reason : AgentAvailabilityReason) (ids : List String)
    (m : AgentRelayRequestManager)
    → get id (reject_each reason ids m).pending
      ≡ (if includes ids id then none else get id m.pending)
unfolding reject_each reject_unavailable includes
reject_each-get id reason [] m = refl
reject_each-get id reason (j ∷ ids) m = ground (
  arith,
  reject_each-get id reason ids (reject_unavailable reason j m),
  get-delete id j m.pending,
  eq_iff j id,
)

includes-keys : (id : String) (m : Assoc PendingRequest) → includes (keys m) id ≡ has id m
unfolding includes keys get
includes-keys id [] = refl
includes-keys id ((j, p) ∷ m) = ground (arith, includes-keys id m)

includes-keys_of_generation :
    (id : String) (generation : ℕ) (m : Assoc PendingRequest)
    → Unique m
    → includes (keys_of_generation generation m) id
      ≡ passes (λ p. p.generation == generation) (get id m)
unfolding includes keys_of_generation get
includes-keys_of_generation id generation [] u = refl
includes-keys_of_generation id generation ((j, p) ∷ m) u =
    ground (arith, includes-keys_of_generation id generation m u.1, u.0, eq_iff j id)

-- After `rejectAll` no request is pending, and each one that was has been settled once more.
pub reject_all_lem :
    (id : String) (reason : AgentAvailabilityReason) (m : AgentRelayRequestManager)
    → (get id (reject_all reason m).pending ≡ none)
      × (settle_count id (reject_all reason m).settled
          ≡ settle_count id m.settled + pending_count id m)
unfolding reject_all balance
reject_all_lem id reason m =
    let gone = reject_each-get id reason (keys m.pending) m in
    let all = includes-keys id m.pending in
    (
      ground (arith, gone, all),
      ground (arith, gone, all, reject_each-balance id reason (keys m.pending) m),
    )

-- `rejectGeneration` settles the pending requests of one connection generation and keeps the others.
pub reject_generation_lem :
    (id : String) (generation : ℕ) (reason : AgentAvailabilityReason) (m : AgentRelayRequestManager)
    → Unique m.pending
    → (get id (reject_generation generation reason m).pending ≡ (
        if passes (λ p. p.generation == generation) (get id m.pending)
        then none
        else get id m.pending))
      × (balance id (reject_generation generation reason m) ≡ balance id m)
unfolding reject_generation
reject_generation_lem id generation reason m u =
    let ids = keys_of_generation generation m.pending in
    (
      ground (
        arith,
        reject_each-get id reason ids m,
        includes-keys_of_generation id generation m.pending u,
      ),
      reject_each-balance id reason ids m,
    )
