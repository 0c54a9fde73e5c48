-- ===== src/Browser/Tasks/Resolve.antt =====
-- The operations of the browser worker's task registry that find a task keep the invariant too.
use Prim.Native.String.{count}
use text.Mathlib.TextLemmas.{length-append}
use mcp_access_stack_legacy.Prelude.{
  ℕ, String, concat, Bool, true, false, Option, none, some, List, [], ◌∷◌, truthy, ◌≡◌, refl, ap,
  ◌≢◌, inl, inr, arith, Bool-cases, Option-cases, filter,
}
use mcp_access_stack_legacy.Prelude.Assoc.{get, values}
use mcp_access_stack_legacy.Prelude.Unique.{get-filter-values}
use mcp_access_stack_legacy.Core.Errors.{>>=-keeps}
use mcp_access_stack_legacy.Core.Context.{OperationContext}
use mcp_access_stack_legacy.Browser.Tasks.{
  BrowserTask, BrowserTaskRegistry, BrowserTaskLease, Op, owner_hash_of, create, resolve_for_open,
  resolve_scoped, assert_tab_access, single_task, resume_accessible,
}
use mcp_access_stack_legacy.Browser.Tasks.Leases.{
  acquire_for_task, acquire_for_tab, release, drop_lease,
}
use mcp_access_stack_legacy.Browser.Tasks.Consistency.{IsConsistent, insert-IsConsistent}
use mcp_access_stack_legacy.Browser.Tasks.Invariant.{
  resume-IsConsistent, require_owned_task-IsConsistent, leases-IsConsistent,
  touch_if_accessible-IsConsistent, acquire_for_task-IsConsistent,
}

-- `randomUUID()` has not been used for a task of the registry.
abbrev pub IsFresh : String → BrowserTaskRegistry → Type 0
IsFresh uuid r = get (concat "task-" uuid) r.tasks ≡ none

task_id_ne_nil : (uuid : String) → concat "task-" uuid ≢ ""
task_id_ne_nil uuid e = absurd (omega (arith, length-append "task-" uuid, ap count e))

single_task-keeps :
    (P : BrowserTaskRegistry → Type 0) (ts : List BrowserTask) (absent : Op BrowserTask)
    (only : BrowserTask → Op BrowserTask) (r : BrowserTaskRegistry)
    → P r
    → P (absent r).0
    → ((t : BrowserTask) → ts ≡ t ∷ [] → P (only t r).0)
    → P (single_task ts absent only r).0
unfolding single_task
single_task-keeps P [] absent only r p zero_case one = zero_case
single_task-keeps P (t ∷ []) absent only r p zero_case one = one t refl
single_task-keeps P (t ∷ u ∷ more) absent only r p zero_case one = p

module _ (sha256 : String → String) (r : BrowserTaskRegistry) (c : IsConsistent r) where
  pub create-IsConsistent :
      (context : Option OperationContext) (uuid : String) (now : ℕ)
      → IsFresh uuid r
      → IsConsistent (create sha256 context uuid now r).0
  unfolding create
  create-IsConsistent context uuid now fresh =
      insert-IsConsistent r _ c (task_id_ne_nil uuid) fresh refl

  -- The only candidate of `resolveForOpen` or `resolveScoped` is the task stored under its id.
  candidate_stored :
      (p : BrowserTask → Bool) (t : BrowserTask) (more : List BrowserTask)
      → filter p (values r.tasks) ≡ t ∷ more
      → get t.task_id r.tasks ≡ some t
  candidate_stored p t more e =
      let (k, found, _) = get-filter-values p r.tasks t more c.unique e in
      ground (arith, c.keyed k t found, found)

  pub resolve_for_open-IsConsistent :
      (task_id : Option String) (context : Option OperationContext) (uuid : String) (now : ℕ)
      → IsFresh uuid r
      → IsConsistent (resolve_for_open sha256 task_id context uuid now r).0
  unfolding resolve_for_open
  resolve_for_open-IsConsistent task_id context uuid now fresh =
      elim (Option-cases (truthy task_id)) [
        | inr (id, given) ↦
            rw (given, resolve_for_open)
              (require_owned_task-IsConsistent r c id (owner_hash_of sha256 context) false true now)
        | inl absent ↦
            rw (absent, resolve_for_open)
              (single_task-keeps IsConsistent (filter _ (values r.tasks)) _ _ r c
                (create-IsConsistent context uuid now fresh)
                (λ t e. resume-IsConsistent r c t.task_id t now (candidate_stored _ t [] e)))
      ]

  pub resume_accessible-IsConsistent :
      (t : BrowserTask) (now : ℕ)
      → get t.task_id r.tasks ≡ some t
      → IsConsistent (resume_accessible now t r).0
  unfolding resume_accessible
  resume_accessible-IsConsistent t now found =
      ground (arith, c, resume-IsConsistent r c t.task_id t now found)

  pub resolve_scoped-IsConsistent :
      (task_id : Option String) (context : Option OperationContext) (inc : Bool) (now : ℕ)
      → IsConsistent (resolve_scoped sha256 task_id context inc now r).0
  unfolding resolve_scoped
  resolve_scoped-IsConsistent task_id context inc now = elim (Option-cases (truthy task_id)) [
    | inr (id, given) ↦
        rw (given, resolve_scoped)
          (require_owned_task-IsConsistent r c id (owner_hash_of sha256 context) inc true now)
    | inl absent ↦
        rw (absent, resolve_scoped)
          (single_task-keeps IsConsistent (filter _ (values r.tasks)) _ (resume_accessible now) r c
            c (λ t e. resume_accessible-IsConsistent t now (candidate_stored _ t [] e)))
  ]

  pub assert_tab_access-IsConsistent :
      (tab_id : String) (context : Option OperationContext) (now : ℕ)
      → IsConsistent (assert_tab_access sha256 tab_id context now r).0
  unfolding assert_tab_access
  assert_tab_access-IsConsistent tab_id context now =
      elim (Option-cases (truthy (get tab_id r.task_by_tab))) [
        | inl absent ↦ rw (absent, assert_tab_access) c
        | inr (id, given) ↦
            rw (given, assert_tab_access)
              (require_owned_task-IsConsistent r c id (owner_hash_of sha256 context) false true now)
      ]

module _ (sha256 : String → String) (r : BrowserTaskRegistry) (c : IsConsistent r) where
  pub acquire_for_tab-IsConsistent :
      (tab_id : String) (context : Option OperationContext) (now : ℕ)
      → IsConsistent (acquire_for_tab sha256 tab_id context now r).0
  unfolding acquire_for_tab
  acquire_for_tab-IsConsistent tab_id context now =
      let c' = assert_tab_access-IsConsistent sha256 r c tab_id context now in
      >>=-keeps IsConsistent (assert_tab_access sha256 tab_id context now)
        (λ task. acquire_for_task sha256 task.task_id context now) r c'
        (λ task e. acquire_for_task-IsConsistent sha256 _ c' task.task_id context now)

  pub release-IsConsistent :
      (lease : BrowserTaskLease) (now : ℕ) → IsConsistent (release lease now r).1
  unfolding release drop_lease
  release-IsConsistent lease now = elim (Bool-cases lease.released) [
    | inl again ↦ rw (again, release) c
    | inr first ↦
        rw (first, release)
          (touch_if_accessible-IsConsistent _ (leases-IsConsistent r c _) lease.task_id now)
  ]
