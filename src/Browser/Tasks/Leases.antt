-- ===== src/Browser/Tasks/Leases.antt =====
-- services/browser-worker/domain/browser-task-registry.ts: leases, which keep a task from expiring.
use mcp_access_stack_legacy.Prelude.{
  ℕ, ◌+◌, ◌-◌, String, true, false, Option, none, some, if◌then◌else◌, ◌==◌, ◌or_else◌,
}
use mcp_access_stack_legacy.Prelude.Assoc.{get, put, delete}
use mcp_access_stack_legacy.Core.Errors.{ok, ◌>>=◌}
use mcp_access_stack_legacy.Core.Context.{OperationContext}
use mcp_access_stack_legacy.Browser.Tasks.{
  BrowserTask, BrowserTaskRegistry, BrowserTaskLease, Op, require_owned_task, owner_hash_of,
  touch_task, store, is_accessible_state, assert_tab_access,
}
use mcp_access_stack_legacy.Browser.Tasks.Lifecycle.{lease_count}

-- The source touches the clone that `requireOwnedTask` returned, which nobody reads afterwards: the
-- stored task is left as that call leaves it.
unfoldable pub add_lease : BrowserTask → Op BrowserTaskLease
unfolding lease_count
add_lease task r = (
  record r { active_leases = put task.task_id (lease_count task.task_id r + 1) r.active_leases },
  ok (record { task_id = task.task_id; released = false }),
)

unfoldable pub acquire_for_task :
    (String → String) → String → Option OperationContext → ℕ → Op BrowserTaskLease
unfolding require_owned_task add_lease
acquire_for_task sha256 id context now = do
  task ← require_owned_task id (owner_hash_of sha256 context) false true now
  add_lease task

unfoldable pub acquire_for_tab :
    (String → String) → String → Option OperationContext → ℕ → Op BrowserTaskLease
unfolding assert_tab_access acquire_for_task
acquire_for_tab sha256 tab_id context now = do
  task ← assert_tab_access sha256 tab_id context now
  acquire_for_task sha256 task.task_id context now

-- `Math.max(0, n - 1)` is `-` on ℕ.
unfoldable pub drop_lease : String → BrowserTaskRegistry → BrowserTaskRegistry
drop_lease id r =
    let remaining = (get id r.active_leases or_else 1) - 1 in
    record r {
      active_leases =
          if remaining == 0 then delete id r.active_leases else put id remaining r.active_leases;
    }

-- The touch of the task at the end of `release`.
unfoldable pub touch_if_accessible : String → ℕ → BrowserTaskRegistry → BrowserTaskRegistry
unfolding touch_task store is_accessible_state
touch_if_accessible id now r = elim (get id r.tasks) [
  | none ↦ r
  | some task ↦
      if is_accessible_state task.state then store id (touch_task r.ttl_ms now true task) r else r
]

-- The closure `release`: the lease with its flag set, and the registry.
unfoldable pub release :
    BrowserTaskLease → ℕ → BrowserTaskRegistry → BrowserTaskLease × BrowserTaskRegistry
unfolding drop_lease touch_if_accessible
release lease now r = if lease.released then (lease, r) else (
  record lease { released = true },
  touch_if_accessible lease.task_id now (drop_lease lease.task_id r),
)
