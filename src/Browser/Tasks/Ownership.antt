-- ===== src/Browser/Tasks/Ownership.antt =====
-- Who may use a task of the browser worker's task registry.
use mcp_access_stack_legacy.Prelude.{
  ℕ, String, Bool, true, ◌&&◌, Option, none, some, if◌then◌else◌, ◌≡◌, ◌≢◌, ◌↔◌, inl, inr, arith,
  eq_iff, Option-cases,
}
use mcp_access_stack_legacy.Prelude.Assoc.{get}
use mcp_access_stack_legacy.Core.Errors.{task_ownership_mismatch, ok, throw}
use mcp_access_stack_legacy.Core.Context.{OperationContext}
use mcp_access_stack_legacy.Browser.Tasks.{
  finishing, finished, active, suspended, expired, BrowserTask, BrowserTaskRegistry,
  require_owned_task, state_eq, touch_task, owner_hash_of, check_owned, resolve_for_open,
  resolve_scoped,
}
use mcp_access_stack_legacy.Browser.Tasks.Tabs.{attach_tab}
use mcp_access_stack_legacy.Browser.Tasks.Lifecycle.{begin_finish}
use mcp_access_stack_legacy.Browser.Tasks.Leases.{acquire_for_task}

-- The condition under which a task may be used, in words of its fields.
pub record IsUsable (h : String) (include_finished : Bool) (task : BrowserTask) : Type 0 where
  pub same_owner : task.owner_scope_hash ≡ h
  pub not_expired : task.state ≢ expired
  pub not_finishing : task.state ≢ finishing
  pub finished_included : task.state ≡ finished → include_finished ≡ true

check_owned-IsUsable :
    (task : BrowserTask) (h : String) (inc : Bool)
    → check_owned task h inc ≡ none
    → IsUsable h inc task
unfolding check_owned
check_owned-IsUsable task h inc e = ground (arith, eq_iff task.owner_scope_hash h)

IsUsable-check_owned :
    (task : BrowserTask) (h : String) (inc : Bool)
    → IsUsable h inc task
    → check_owned task h inc ≡ none
unfolding check_owned
IsUsable-check_owned task h inc u = ground (arith, eq_iff task.owner_scope_hash h)

-- `requireOwnedTask` returns only a task that is stored under the id and usable by the owner.
require_owned_task_sound :
    (id h : String) (inc res : Bool) (now : ℕ) (r : BrowserTaskRegistry) (t : BrowserTask)
    → (require_owned_task id h inc res now r).1 ≡ ok t
    → (task : BrowserTask) × (get id r.tasks ≡ some task) × IsUsable h inc task
unfolding require_owned_task
require_owned_task_sound id h inc res now r t e = elim (Option-cases (get id r.tasks)) [
  | inl missing ↦ ground arith
  | inr (task, found) ↦ (task, found, check_owned-IsUsable task h inc (ground arith))
]

-- The task that `requireOwnedTask` returns for a usable one.
pub returned : Bool → ℕ → ℕ → BrowserTask → BrowserTask
unfolding touch_task
returned res ttl now task =
    if res && state_eq task.state suspended
    then touch_task ttl now true (record task { state = active })
    else task

require_owned_task_complete :
    (id h : String) (inc res : Bool) (now : ℕ) (r : BrowserTaskRegistry) (task : BrowserTask)
    → get id r.tasks ≡ some task
    → IsUsable h inc task
    → (require_owned_task id h inc res now r).1 ≡ ok (returned res r.ttl_ms now task)
unfolding require_owned_task returned
require_owned_task_complete id h inc res now r task found u =
    ground (arith, IsUsable-check_owned task h inc u)

-- `requireOwnedTask` succeeds exactly when a task is stored under the id whose owner hash is the
-- caller's, and which is neither expired nor finishing, nor finished unless finished ones are included.
pub require_owned_task_iff :
    (id h : String) (inc res : Bool) (now : ℕ) (r : BrowserTaskRegistry)
    → ((t : BrowserTask) × ((require_owned_task id h inc res now r).1 ≡ ok t))
      ↔ ((task : BrowserTask) × (get id r.tasks ≡ some task) × IsUsable h inc task)
require_owned_task_iff id h inc res now r = (
  (λ (t, e). require_owned_task_sound id h inc res now r t e),
  λ (task, found, u).
      (returned res r.ttl_ms now task, require_owned_task_complete id h inc res now r task found u),
)

module _ (sha256 : String → String) (id : String) (context : Option OperationContext) (now : ℕ)
    (r : BrowserTaskRegistry) (task : BrowserTask) (found : get id r.tasks ≡ some task)
    (foreign : task.owner_scope_hash ≢ owner_hash_of sha256 context) where
  -- A caller whose owner hash is not that of the stored task is refused by `attachTab`, `beginFinish`,
  -- `acquireForTask`, `resolveForOpen` and `resolveScoped` with the task's id: all five throw
  -- TASK_OWNERSHIP_MISMATCH and leave the registry as it was, if the id is not the empty text.
  pub foreign_owner_refused :
      (tab_id uuid : String) (inc : Bool)
      → id ≢ ""
      → (attach_tab sha256 id tab_id context now r ≡ (r, throw task_ownership_mismatch))
        × (begin_finish sha256 id context now r ≡ (r, throw task_ownership_mismatch))
        × (acquire_for_task sha256 id context now r ≡ (r, throw task_ownership_mismatch))
        × (resolve_for_open sha256 (some id) context uuid now r
            ≡ (r, throw task_ownership_mismatch))
        × (resolve_scoped sha256 (some id) context inc now r ≡ (r, throw task_ownership_mismatch))
  unfolding attach_tab begin_finish acquire_for_task resolve_for_open resolve_scoped
  foreign_owner_refused tab_id uuid inc filled =
      let owner = eq_iff task.owner_scope_hash (owner_hash_of sha256 context) in
      (
        ground (arith, owner),
        ground (arith, owner),
        ground (arith, owner),
        ground (arith, owner, eq_iff id ""),
        ground (arith, owner, eq_iff id ""),
      )
