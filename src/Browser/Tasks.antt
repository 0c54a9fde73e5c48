-- ===== src/Browser/Tasks.antt =====
-- services/browser-worker/domain/browser-task-registry.ts: the tasks that own browser tabs.
-- A time is the number of milliseconds that `Date.now()` returns; the ISO text in which the source
-- keeps it is parsed back before every comparison. An operation takes the time at which it runs.
-- A task object that the registry changes in place is written back under its key; a clone is a value.
pub mod Tabs
pub mod Lifecycle
pub mod Leases
pub mod Ownership
pub mod Consistency
pub mod Invariant
pub mod Resolve
pub mod Reach
pub mod Expiry
mod Tests
use mcp_access_stack_legacy.Prelude.{
  ℕ, ◌+◌, ◌*◌, concat, String, Bool, true, false, not, ◌&&◌, ◌||◌, List, [], ◌∷◌, Option, none,
  some, if◌then◌else◌, str_eq, truthy, ◌or_else◌, filter,
}
use mcp_access_stack_legacy.Prelude.Assoc.{Assoc, get, put, values}
use mcp_access_stack_legacy.Core.Errors.{
  ErrorCode, task_not_found, task_ownership_mismatch, task_expired, task_suspended,
  task_scope_required, ok, throw, M,
}
use mcp_access_stack_legacy.Core.Context.{OperationContext}

pub data BrowserTaskState : Type 0 where
  active suspended finishing finished expired : BrowserTaskState

abbrev pub state_eq : BrowserTaskState → BrowserTaskState → Bool
state_eq active active = true
state_eq suspended suspended = true
state_eq finishing finishing = true
state_eq finished finished = true
state_eq expired expired = true
state_eq _ _ = false

pub record BrowserTask : Type 0 where
  pub task_id : String
  pub owner_scope_hash : String
  pub state : BrowserTaskState
  pub tab_ids : List String
  pub created_at : ℕ
  pub last_activity_at : ℕ
  pub expires_at : ℕ
  pub lifecycle_version : ℕ

abbrev pub current_browser_task_lifecycle_version : ℕ
current_browser_task_lifecycle_version = 2

abbrev pub default_owner_scope : String
default_owner_scope = "legacy-local"

abbrev pub default_task_ttl_ms : ℕ
default_task_ttl_ms = 10 * 60 * 1000

pub record BrowserTaskRegistry : Type 0 where
  pub tasks : Assoc BrowserTask
  pub task_by_tab : Assoc String
  pub active_leases : Assoc ℕ
  pub ttl_ms : ℕ

-- A lease, with the flag that its `release` closes over.
pub record BrowserTaskLease : Type 0 where
  pub task_id : String
  pub released : Bool

abbrev pub Op : Type 0 → Type 0
Op A = M BrowserTaskRegistry A

pub owner_scope : Option OperationContext → String
owner_scope none = default_owner_scope
owner_scope (some context) = context.owner_scope or_else default_owner_scope

pub is_accessible_state : BrowserTaskState → Bool
is_accessible_state state = state_eq state active || state_eq state suspended

-- What `touchTask` writes into a task.
pub touch_task : ℕ → ℕ → Bool → BrowserTask → BrowserTask
touch_task ttl now extend_expiry task = record task {
  last_activity_at = now;
  expires_at = if extend_expiry then now + ttl else task.expires_at;
}

-- A change in place of the task stored under `id`.
pub store : String → BrowserTask → BrowserTaskRegistry → BrowserTaskRegistry
store id task r = record r { tasks = put id task r.tasks }

pub resume : String → BrowserTask → ℕ → Op BrowserTask
unfolding store touch_task
resume id task now r =
    let task' = touch_task r.ttl_ms now true (record task { state = active }) in
    (store id task' r, ok task')

-- `touchTask` on the object stored under `id`.
pub touch_stored : String → ℕ → Bool → BrowserTask → Op BrowserTask
unfolding touch_task store
touch_stored id now extend_expiry task r =
    let task' = touch_task r.ttl_ms now extend_expiry task in (store id task' r, ok task')

-- The checks of `requireOwnedTask` on a task that was found, in their order.
pub check_owned : BrowserTask → String → Bool → Option ErrorCode
check_owned task owner_hash include_finished =
    if not (str_eq task.owner_scope_hash owner_hash)
    then some task_ownership_mismatch
    else if state_eq task.state expired
    then some task_expired
    else if state_eq task.state finished && not include_finished
    then some task_not_found
    else if state_eq task.state finishing
    then some task_suspended
    else none

pub require_owned_task : String → String → Bool → Bool → ℕ → Op BrowserTask
unfolding check_owned resume
require_owned_task id owner_hash include_finished resume_suspended now r = elim (get id r.tasks) [
  | none ↦ (r, throw task_not_found)
  | some task ↦ elim (check_owned task owner_hash include_finished) [
    | some e ↦ (r, throw e)
    | none ↦
        if resume_suspended && state_eq task.state suspended
        then resume id task now r
        else (r, ok task)
  ]
]

-- The end of `resolveScoped`: a finished task is returned as it is.
pub resume_accessible : ℕ → BrowserTask → Op BrowserTask
unfolding resume is_accessible_state
resume_accessible now t r =
    if is_accessible_state t.state then resume t.task_id t now r else (r, ok t)

-- The tests on the number of accessible tasks: none, one, more.
pub single_task :
    List BrowserTask → Op BrowserTask → (BrowserTask → Op BrowserTask) → Op BrowserTask
single_task [] absent only r = absent r
single_task (t ∷ []) absent only r = only t r
single_task (t ∷ u ∷ more) absent only r = (r, throw task_scope_required)

module _ (sha256 : String → String) where
  pub owner_hash_of : Option OperationContext → String
  unfolding owner_scope
  owner_hash_of context = sha256 (owner_scope context)

  pub accessible_tasks : Option OperationContext → Bool → BrowserTaskRegistry → List BrowserTask
  unfolding owner_hash_of is_accessible_state filter values
  accessible_tasks context include_terminal r =
      filter (λ t. include_terminal || is_accessible_state t.state)
        (filter (λ t. str_eq t.owner_scope_hash (owner_hash_of context)) (values r.tasks))

  -- `uuid` is the text that `randomUUID()` returns; it has 36 characters, so the schema accepts the id.
  pub create : Option OperationContext → String → ℕ → Op BrowserTask
  unfolding owner_hash_of store
  create context uuid now r =
      let task : BrowserTask = record {
        task_id = concat "task-" uuid;
        owner_scope_hash = owner_hash_of context;
        state = active;
        tab_ids = [];
        created_at = now;
        last_activity_at = now;
        expires_at = now + r.ttl_ms;
        lifecycle_version = current_browser_task_lifecycle_version;
      } in
      (store task.task_id task r, ok task)

  pub resolve_for_open : Option String → Option OperationContext → String → ℕ → Op BrowserTask
  unfolding require_owned_task create is_accessible_state resume single_task
  resolve_for_open task_id context uuid now r = elim (truthy task_id) [
    | some id ↦ require_owned_task id (owner_hash_of context) false true now r
    | none ↦
        single_task
          (filter
            (λ t. str_eq t.owner_scope_hash (owner_hash_of context) && is_accessible_state t.state)
            (values r.tasks))
          (create context uuid now) (λ t. resume t.task_id t now) r
  ]

  pub resolve_scoped : Option String → Option OperationContext → Bool → ℕ → Op BrowserTask
  unfolding require_owned_task is_accessible_state resume_accessible single_task
  resolve_scoped task_id context include_finished now r = elim (truthy task_id) [
    | some id ↦ require_owned_task id (owner_hash_of context) include_finished true now r
    | none ↦
        single_task
          (filter
            (λ t.
              str_eq t.owner_scope_hash (owner_hash_of context)
              && (is_accessible_state t.state || (include_finished && state_eq t.state finished)))
            (values r.tasks))
          (λ r. (r, throw task_not_found)) (resume_accessible now) r
  ]

  pub assert_tab_access : String → Option OperationContext → ℕ → Op BrowserTask
  unfolding owner_hash_of require_owned_task
  assert_tab_access tab_id context now r = elim (truthy (get tab_id r.task_by_tab)) [
    | none ↦ (r, throw task_not_found)
    | some id ↦ require_owned_task id (owner_hash_of context) false true now r
  ]
