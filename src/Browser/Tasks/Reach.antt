-- ===== src/Browser/Tasks/Reach.antt =====
-- The registries that the operations of the browser worker's task registry can lead to.
use mcp_access_stack_legacy.Prelude.{ℕ, String, Bool, true, Option, some, ◌≡◌, includes}
use mcp_access_stack_legacy.Prelude.Assoc.{get}
use mcp_access_stack_legacy.Core.Context.{OperationContext}
use mcp_access_stack_legacy.Browser.Tasks.{
  BrowserTask, finished, expired, BrowserTaskRegistry, BrowserTaskLease, create, resolve_for_open,
  resolve_scoped, assert_tab_access,
}
use mcp_access_stack_legacy.Browser.Tasks.Tabs.{attach_tab, attach_existing_tab, detach_tab}
use mcp_access_stack_legacy.Browser.Tasks.Lifecycle.{
  begin_finish, complete_finish, mark_expired, begin_expiration, restore_after_failed_finalization,
}
use mcp_access_stack_legacy.Browser.Tasks.Leases.{acquire_for_task, acquire_for_tab, release}
use mcp_access_stack_legacy.Browser.Tasks.Consistency.{IsConsistent}
use mcp_access_stack_legacy.Browser.Tasks.Resolve.{
  IsFresh, create-IsConsistent, resolve_for_open-IsConsistent, resolve_scoped-IsConsistent,
  assert_tab_access-IsConsistent, acquire_for_tab-IsConsistent, release-IsConsistent,
}
use mcp_access_stack_legacy.Browser.Tasks.Invariant.{
  attach_existing_tab-IsConsistent, detach_tab-IsConsistent, terminate-IsConsistent,
  begin_expiration-IsConsistent, restore-IsConsistent, attach_tab-IsConsistent,
  begin_finish-IsConsistent, acquire_for_task-IsConsistent,
}

-- One call of a public method that changes the registry, whether it returns or throws.
pub data Step (sha256 : String → String) : BrowserTaskRegistry → BrowserTaskRegistry → Type 0 where
  creates :
      (context : Option OperationContext) (uuid : String) (now : ℕ) (r : BrowserTaskRegistry)
      → IsFresh uuid r
      → Step sha256 r (create sha256 context uuid now r).0
  resolves_for_open :
      (task_id : Option String) (context : Option OperationContext) (uuid : String) (now : ℕ)
      (r : BrowserTaskRegistry)
      → IsFresh uuid r
      → Step sha256 r (resolve_for_open sha256 task_id context uuid now r).0
  resolves_scoped :
      (task_id : Option String) (context : Option OperationContext) (inc : Bool) (now : ℕ)
      (r : BrowserTaskRegistry)
      → Step sha256 r (resolve_scoped sha256 task_id context inc now r).0
  asserts_tab_access :
      (tab_id : String) (context : Option OperationContext) (now : ℕ) (r : BrowserTaskRegistry)
      → Step sha256 r (assert_tab_access sha256 tab_id context now r).0
  attaches :
      (id tab_id : String) (context : Option OperationContext) (now : ℕ) (r : BrowserTaskRegistry)
      → Step sha256 r (attach_tab sha256 id tab_id context now r).0
  attaches_existing :
      (id tab_id : String) (r : BrowserTaskRegistry)
      → Step sha256 r (attach_existing_tab id tab_id r).0
  detaches :
      (tab_id : String) (now : ℕ) (r : BrowserTaskRegistry)
      → Step sha256 r (detach_tab tab_id now r)
  acquires :
      (id : String) (context : Option OperationContext) (now : ℕ) (r : BrowserTaskRegistry)
      → Step sha256 r (acquire_for_task sha256 id context now r).0
  acquires_for_tab :
      (tab_id : String) (context : Option OperationContext) (now : ℕ) (r : BrowserTaskRegistry)
      → Step sha256 r (acquire_for_tab sha256 tab_id context now r).0
  releases :
      (lease : BrowserTaskLease) (now : ℕ) (r : BrowserTaskRegistry)
      → Step sha256 r (release lease now r).1
  begins_finish :
      (id : String) (context : Option OperationContext) (now : ℕ) (r : BrowserTaskRegistry)
      → Step sha256 r (begin_finish sha256 id context now r).0
  completes_finish :
      (id : String) (now : ℕ) (r : BrowserTaskRegistry) → Step sha256 r (complete_finish id now r).0
  begins_expiration :
      (id : String) (now : ℕ) (r : BrowserTaskRegistry)
      → Step sha256 r (begin_expiration id now r).0
  restores :
      (id : String) (now : ℕ) (r : BrowserTaskRegistry)
      → Step sha256 r (restore_after_failed_finalization id now r).0
  marks_expired :
      (id : String) (now : ℕ) (r : BrowserTaskRegistry) → Step sha256 r (mark_expired id now r).0

pub data Reach (sha256 : String → String) (r : BrowserTaskRegistry)
    : BrowserTaskRegistry → Type 0 where
  here : Reach sha256 r r
  next : {s t : BrowserTaskRegistry} → Reach sha256 r s → Step sha256 s t → Reach sha256 r t

Step-IsConsistent :
    {sha256 : String → String} {r s : BrowserTaskRegistry}
    → Step sha256 r s
    → IsConsistent r
    → IsConsistent s
unfolding complete_finish mark_expired
Step-IsConsistent {sha256 = h} (creates x u n r f) c = create-IsConsistent h r c x u n f
Step-IsConsistent {sha256 = h} (resolves_for_open i x u n r f) c =
    resolve_for_open-IsConsistent h r c i x u n f
Step-IsConsistent {sha256 = h} (resolves_scoped i x b n r) c =
    resolve_scoped-IsConsistent h r c i x b n
Step-IsConsistent {sha256 = h} (asserts_tab_access t x n r) c =
    assert_tab_access-IsConsistent h r c t x n
Step-IsConsistent {sha256 = h} (attaches i t x n r) c = attach_tab-IsConsistent h r c i t x n
Step-IsConsistent (attaches_existing i t r) c = attach_existing_tab-IsConsistent r c i t
Step-IsConsistent (detaches t n r) c = detach_tab-IsConsistent r c t n
Step-IsConsistent {sha256 = h} (acquires i x n r) c = acquire_for_task-IsConsistent h r c i x n
Step-IsConsistent {sha256 = h} (acquires_for_tab t x n r) c =
    acquire_for_tab-IsConsistent h r c t x n
Step-IsConsistent {sha256 = h} (releases l n r) c = release-IsConsistent h r c l n
Step-IsConsistent {sha256 = h} (begins_finish i x n r) c = begin_finish-IsConsistent h r c i x n
Step-IsConsistent (completes_finish i n r) c = terminate-IsConsistent r c finished i n
Step-IsConsistent (begins_expiration i n r) c = begin_expiration-IsConsistent r c i n
Step-IsConsistent (restores i n r) c = restore-IsConsistent r c i n
Step-IsConsistent (marks_expired i n r) c = terminate-IsConsistent r c expired i n

-- From a consistent registry, every sequence of calls of the fifteen methods that change it leads to
-- a consistent registry: tasks stand under their own non-empty ids, no id is stored twice, and a tab
-- is indexed under a task exactly when that task lists it. A new task's id must be fresh.
pub Reach-IsConsistent :
    (sha256 : String → String) (r s : BrowserTaskRegistry)
    → IsConsistent r
    → Reach sha256 r s
    → IsConsistent s
Reach-IsConsistent sha256 r s c here = c
Reach-IsConsistent sha256 r s c (next path step) =
    Step-IsConsistent step (Reach-IsConsistent sha256 r _ c path)

-- In a registry reached from a consistent one, a tab that two tasks list is listed by one task.
pub tab_has_one_task :
    (sha256 : String → String) (r s : BrowserTaskRegistry) (tab i j : String) (t u : BrowserTask)
    → IsConsistent r
    → Reach sha256 r s
    → get i s.tasks ≡ some t
    → get j s.tasks ≡ some u
    → includes t.tab_ids tab ≡ true
    → includes u.tab_ids tab ≡ true
    → i ≡ j
tab_has_one_task sha256 r s tab i j t u c path ft fu it iu =
    let d = Reach-IsConsistent sha256 r s c path in
    cc (d.owned tab i t ft it, d.owned tab j u fu iu)
