-- ===== src/Browser/Tasks/Tests.antt =====
-- Runs of the browser worker's task registry, and its theorems at concrete inputs.
use mcp_access_stack_legacy.Prelude.{
  is_some, String, concat, true, false, [], ◌∷◌, map, Option, none, some, ◌≡◌, refl, ◌↔◌, arith,
  eq_iff, includes,
}
use mcp_access_stack_legacy.Prelude.Assoc.{get, put}
use mcp_access_stack_legacy.Core.Errors.{ok, throw, task_ownership_mismatch}
use mcp_access_stack_legacy.Core.Context.{OperationContext}
use mcp_access_stack_legacy.Browser.Tasks.{
  BrowserTask, active, BrowserTaskRegistry, BrowserTaskLease, require_owned_task, create,
  resolve_for_open, resolve_scoped, owner_hash_of,
}
use mcp_access_stack_legacy.Browser.Tasks.Tabs.{attach_tab}
use mcp_access_stack_legacy.Browser.Tasks.Lifecycle.{
  begin_finish, begin_expiration, expired_candidates,
}
use mcp_access_stack_legacy.Browser.Tasks.Leases.{acquire_for_task}
use mcp_access_stack_legacy.Browser.Tasks.Ownership.{
  IsUsable, require_owned_task_iff, foreign_owner_refused,
}
use mcp_access_stack_legacy.Browser.Tasks.Consistency.{IsConsistent}
use mcp_access_stack_legacy.Browser.Tasks.Reach.{
  Reach, here, next, creates, attaches, Reach-IsConsistent,
}
use mcp_access_stack_legacy.Browser.Tasks.Expiry.{begin_expiration_candidates, acquire_keeps_expiry}

-- A stand-in for the digest.
abbrev digest : String → String
digest s = concat "sha:" s

abbrev no_tasks : BrowserTaskRegistry
no_tasks = record { tasks = []; task_by_tab = []; active_leases = []; ttl_ms = 600_000 }

abbrev one_task : BrowserTaskRegistry
one_task = (create digest none "u1" 1_000 no_tasks).0

abbrev one_tab : BrowserTaskRegistry
one_tab = (attach_tab digest "task-u1" "tab" none 2_000 one_task).0

abbrev the_task : BrowserTask
the_task = record {
  task_id = "task-u1";
  owner_scope_hash = "sha:legacy-local";
  state = active;
  tab_ids = "tab" ∷ [];
  created_at = 1_000;
  last_activity_at = 2_000;
  expires_at = 602_000;
  lifecycle_version = 2;
}

attach_tab_run : get "task-u1" one_tab.tasks ≡ some the_task
unfolding create attach_tab get put includes
attach_tab_run = refl

stranger : Option OperationContext
stranger = some (record { owner_scope = some "other" })

no_tasks-IsConsistent : IsConsistent no_tasks
unfolding get
no_tasks-IsConsistent = record {
  keyed = λ id t e. ground arith;
  named = refl;
  unique = tt;
  indexed = λ tab id e. absurd (ground arith);
  owned = λ tab id t e inc. ground arith;
}

to_one_tab : Reach digest no_tasks one_tab
unfolding get
to_one_tab =
    next (next here (creates none "u1" 1_000 no_tasks refl))
      (attaches "task-u1" "tab" none 2_000 one_task)

Reach-IsConsistent_example : IsConsistent one_tab
Reach-IsConsistent_example =
    Reach-IsConsistent digest no_tasks one_tab no_tasks-IsConsistent to_one_tab

require_owned_task_iff_example :
    ((t : BrowserTask) × ((require_owned_task "task-u1" "sha:legacy-local" false true 3_000
          one_tab).1
        ≡ ok t))
    ↔ ((task : BrowserTask) × (get "task-u1" one_tab.tasks ≡ some task)
        × IsUsable "sha:legacy-local" false task)
require_owned_task_iff_example =
    require_owned_task_iff "task-u1" "sha:legacy-local" false true 3_000 one_tab

foreign_owner_refused_example :
    (attach_tab digest "task-u1" "tab2" stranger 3_000 one_tab
      ≡ (one_tab, throw task_ownership_mismatch))
    × (begin_finish digest "task-u1" stranger 3_000 one_tab
        ≡ (one_tab, throw task_ownership_mismatch))
    × (acquire_for_task digest "task-u1" stranger 3_000 one_tab
        ≡ (one_tab, throw task_ownership_mismatch))
    × (resolve_for_open digest (some "task-u1") stranger "u2" 3_000 one_tab
        ≡ (one_tab, throw task_ownership_mismatch))
    × (resolve_scoped digest (some "task-u1") stranger true 3_000 one_tab
        ≡ (one_tab, throw task_ownership_mismatch))
unfolding owner_hash_of stranger
foreign_owner_refused_example =
    foreign_owner_refused digest "task-u1" stranger 3_000 one_tab the_task attach_tab_run
      (λ e. ground (arith, eq_iff "sha:legacy-local" "sha:other")) "tab2" "u2" true
      (λ e. ground (arith, eq_iff "task-u1" ""))

abbrev the_lease : BrowserTaskLease
the_lease = record { task_id = "task-u1"; released = false }

begin_expiration_candidates_example :
    is_some (begin_expiration "task-u1" 700_000 one_tab).1
    ≡ includes (map (λ t. t.task_id) (expired_candidates 700_000 one_tab)) "task-u1"
begin_expiration_candidates_example =
    begin_expiration_candidates "task-u1" 700_000 one_tab Reach-IsConsistent_example

acquire_keeps_expiry_example :
    (acquire_for_task digest "task-u1" none 3_000 one_tab).0.tasks ≡ one_tab.tasks
acquire_keeps_expiry_example =
    acquire_keeps_expiry digest "task-u1" none 3_000 one_tab the_task attach_tab_run refl
