-- ===== src/Browser/Tasks/Lifecycle.antt =====
-- services/browser-worker/domain/browser-task-registry.ts: how a task finishes and expires.
use mcp_access_stack_legacy.Prelude.{
  ℕ, String, true, false, not, List, [], ◌∷◌, Option, none, some, if◌then◌else◌, leb, ltb, ◌==◌,
  filter, ◌or_else◌,
}
use mcp_access_stack_legacy.Prelude.Assoc.{Assoc, get, put, delete, values}
use mcp_access_stack_legacy.Core.Errors.{task_not_found, task_expired, ok, throw, ◌>>=◌}
use mcp_access_stack_legacy.Core.Context.{OperationContext}
use mcp_access_stack_legacy.Browser.Tasks.{
  BrowserTaskState, finishing, finished, active, expired, state_eq, BrowserTask,
  BrowserTaskRegistry, Op, require_owned_task, owner_hash_of, touch_task, store,
  is_accessible_state, touch_stored,
}

unfoldable pub lease_count : String → BrowserTaskRegistry → ℕ
lease_count id r = get id r.active_leases or_else 0

-- `for (const tabId of task.tabIds) this.taskByTab.delete(tabId)`.
unfoldable pub unindex : List String → Assoc String → Assoc String
unindex [] index = index
unindex (tab_id ∷ rest) index = unindex rest (delete tab_id index)

-- What `beginFinish` does with the task that it found.
unfoldable pub begin_finish_task : String → ℕ → BrowserTask → Op BrowserTask
unfolding touch_stored
begin_finish_task id now task r =
    if state_eq task.state finished
    then (r, ok task)
    else if state_eq task.state expired
    then (r, throw task_expired)
    else touch_stored id now false (record task { state = finishing }) r

unfoldable pub begin_finish :
    (String → String) → String → Option OperationContext → ℕ → Op BrowserTask
unfolding require_owned_task begin_finish_task
begin_finish sha256 id context now = do
  task ← require_owned_task id (owner_hash_of sha256 context) true false now
  begin_finish_task id now task

-- `completeFinish` and `markExpired`, which differ in the state that they write.
unfoldable pub terminate : BrowserTaskState → String → ℕ → Op BrowserTask
unfolding unindex
terminate state id now r = elim (get id r.tasks) [
  | none ↦ (r, throw task_not_found)
  | some task ↦
      let task' = record task {
        state = state;
        tab_ids = [];
        last_activity_at = now;
        expires_at = now;
      } in
      (
        record r { tasks = put id task' r.tasks; task_by_tab = unindex task.tab_ids r.task_by_tab },
        ok task',
      )
]

unfoldable pub complete_finish : String → ℕ → Op BrowserTask
unfolding terminate
complete_finish = terminate finished

unfoldable pub mark_expired : String → ℕ → Op BrowserTask
unfolding terminate
mark_expired = terminate expired

unfoldable pub begin_expiration :
    String → ℕ → BrowserTaskRegistry → BrowserTaskRegistry × Option BrowserTask
unfolding is_accessible_state lease_count store
begin_expiration id now r = elim (get id r.tasks) [
  | none ↦ (r, none)
  | some task ↦
      if not (is_accessible_state task.state)
      then (r, none)
      else if ltb 0 (lease_count id r)
      then (r, none)
      else if ltb now task.expires_at
      then (r, none)
      else let task' = record task { state = finishing } in (store id task' r, some task')
]

unfoldable pub restore_after_failed_finalization :
    String → ℕ → BrowserTaskRegistry → BrowserTaskRegistry × Option BrowserTask
unfolding store touch_task
restore_after_failed_finalization id now r = elim (get id r.tasks) [
  | none ↦ (r, none)
  | some task ↦
      if not (state_eq task.state finishing)
      then (r, none)
      else let task' = touch_task r.ttl_ms now true (record task { state = active }) in
        (store id task' r, some task')
]

unfoldable pub expired_candidates : ℕ → BrowserTaskRegistry → List BrowserTask
unfolding is_accessible_state lease_count
expired_candidates now r =
    filter (λ t. leb t.expires_at now)
      (filter (λ t. lease_count t.task_id r == 0)
        (filter (λ t. is_accessible_state t.state) (values r.tasks)))
