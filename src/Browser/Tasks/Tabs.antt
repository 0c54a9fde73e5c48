-- ===== src/Browser/Tasks/Tabs.antt =====
-- services/browser-worker/domain/browser-task-registry.ts: the constructor, and the operations that
-- attach tabs to tasks and detach them.
use mcp_access_stack_legacy.Prelude.{
  ℕ, String, Bool, true, false, not, ◌&&◌, List, [], ◌∷◌, ◌++◌, Option, none, some, if◌then◌else◌,
  str_eq, leb, truthy, includes, without, length, ◌==◌,
}
use mcp_access_stack_legacy.Prelude.Assoc.{Assoc, get, put, delete, has, values}
use mcp_access_stack_legacy.Core.Text.{utf16_length, length_within}
use mcp_access_stack_legacy.Core.Errors.{task_not_found, task_ownership_mismatch, ok, throw, ◌>>=◌}
use mcp_access_stack_legacy.Core.Context.{OperationContext}
use mcp_access_stack_legacy.Browser.Tasks.{
  BrowserTask, BrowserTaskRegistry, Op, require_owned_task, touch_stored, owner_hash_of, touch_task,
  store, current_browser_task_lifecycle_version,
}

unfoldable pub all_ids : List String → Bool
unfolding utf16_length
all_ids [] = true
all_ids (s ∷ ss) = length_within 1 128 s && all_ids ss

-- `browserTaskSchema`, on values of its fields' types.
unfoldable pub browser_task_schema : BrowserTask → Bool
unfolding utf16_length all_ids
browser_task_schema task =
    length_within 1 128 task.task_id
    && length_within 1 128 task.owner_scope_hash
    && all_ids task.tab_ids
    && leb (length task.tab_ids) 500
    && (task.lifecycle_version == current_browser_task_lifecycle_version)

-- The first task that lists a tab keeps it.
unfoldable pub index_tabs : String → List String → Assoc String → Assoc String
index_tabs id [] index = index
index_tabs id (tab_id ∷ rest) index =
    index_tabs id rest (if has tab_id index then index else put tab_id id index)

unfoldable pub construct_from : List BrowserTask → BrowserTaskRegistry → Option BrowserTaskRegistry
unfolding browser_task_schema index_tabs
construct_from [] r = some r
construct_from (task ∷ more) r =
    let rest = construct_from more (record r {
      tasks = put task.task_id task r.tasks;
      task_by_tab = index_tabs task.task_id task.tab_ids r.task_by_tab;
    }) in
    if browser_task_schema task then rest else none

-- `none` is the schema's exception.
unfoldable pub construct : List BrowserTask → ℕ → Option BrowserTaskRegistry
unfolding construct_from
construct initial_tasks ttl_ms =
    construct_from initial_tasks
      (record { tasks = []; task_by_tab = []; active_leases = []; ttl_ms = ttl_ms })

unfoldable pub snapshot : BrowserTaskRegistry → List BrowserTask
snapshot r = values r.tasks

unfoldable pub task_id_for_tab : String → BrowserTaskRegistry → Option String
task_id_for_tab tab_id r = get tab_id r.task_by_tab

unfoldable pub task_for_tab : String → BrowserTaskRegistry → Option BrowserTask
task_for_tab tab_id r = elim (truthy (get tab_id r.task_by_tab)) [
  | none ↦ none
  | some id ↦ get id r.tasks
]

-- `currentTaskId && currentTaskId !== id`.
abbrev pub bound_elsewhere : Option String → String → Bool
bound_elsewhere none id = false
bound_elsewhere (some current) id = not (str_eq current id)

unfoldable pub add_tab : String → BrowserTask → BrowserTask
add_tab tab_id task = record task {
  tab_ids = if includes task.tab_ids tab_id then task.tab_ids else task.tab_ids ++ tab_id ∷ [];
}

-- The part after the lookup of the task: the test of the tab's owner, and the two writes.
unfoldable pub bind_tab : String → String → BrowserTask → Op BrowserTask
unfolding add_tab
bind_tab id tab_id task r =
    if bound_elsewhere (truthy (get tab_id r.task_by_tab)) id
    then (r, throw task_ownership_mismatch)
    else (
      record r {
        tasks = put id (add_tab tab_id task) r.tasks;
        task_by_tab = put tab_id id r.task_by_tab;
      },
      ok (add_tab tab_id task),
    )

unfoldable pub attach_existing_tab : String → String → Op BrowserTask
unfolding bind_tab
attach_existing_tab id tab_id r = elim (get id r.tasks) [
  | none ↦ (r, throw task_not_found)
  | some task ↦ bind_tab id tab_id task r
]

-- `now` is the reading of `touchTask`; what the resumption of the task reads is touched again with it.
unfoldable pub attach_tab :
    (String → String) → String → String → Option OperationContext → ℕ → Op BrowserTask
unfolding require_owned_task attach_existing_tab touch_stored
attach_tab sha256 id tab_id context now = do
  _ ← require_owned_task id (owner_hash_of sha256 context) false true now
  task ← attach_existing_tab id tab_id
  touch_stored id now true task

unfoldable pub detach_tab : String → ℕ → BrowserTaskRegistry → BrowserTaskRegistry
unfolding touch_task store
detach_tab tab_id now r = elim (truthy (get tab_id r.task_by_tab)) [
  | none ↦ r
  | some id ↦
      let r' = record r { task_by_tab = delete tab_id r.task_by_tab } in
      elim (get id r.tasks) [
        | none ↦ r'
        | some task ↦
            store id
              (touch_task r.ttl_ms now true (record task { tab_ids = without task.tab_ids tab_id }))
              r'
      ]
]
