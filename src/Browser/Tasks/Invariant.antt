-- ===== src/Browser/Tasks/Invariant.antt =====
-- Every operation of the browser worker's task registry keeps the invariant, whether it returns or
-- throws.
use mcp_access_stack_legacy.Prelude.{
  ℕ, String, Bool, true, false, Option, some, truthy, ◌≡◌, refl, inl, inr, arith, eq_iff,
  Bool-cases, Option-cases,
}
use mcp_access_stack_legacy.Prelude.Assoc.{Assoc, get, get-put}
use mcp_access_stack_legacy.Core.Errors.{ok, ◌>>=◌, >>=-keeps}
use mcp_access_stack_legacy.Core.Context.{OperationContext}
use mcp_access_stack_legacy.Browser.Tasks.{
  BrowserTask, BrowserTaskState, active, finishing, BrowserTaskRegistry, Op, resume, touch_task,
  touch_stored, require_owned_task, owner_hash_of,
}
use mcp_access_stack_legacy.Browser.Tasks.Tabs.{
  attach_tab, attach_existing_tab, add_tab, bind_tab, detach_tab, bound_elsewhere,
}
use mcp_access_stack_legacy.Browser.Tasks.Lifecycle.{
  begin_finish, begin_finish_task, terminate, begin_expiration, restore_after_failed_finalization,
}
use mcp_access_stack_legacy.Browser.Tasks.Leases.{acquire_for_task, add_lease, touch_if_accessible}
use mcp_access_stack_legacy.Browser.Tasks.Consistency.{
  IsConsistent, store-IsConsistent, attach-IsConsistent, detach-IsConsistent, unindex-IsConsistent,
}

module _ (r : BrowserTaskRegistry) (c : IsConsistent r) where
  pub resume-IsConsistent :
      (id : String) (task : BrowserTask) (now : ℕ)
      → get id r.tasks ≡ some task
      → IsConsistent (resume id task now r).0
  unfolding resume
  resume-IsConsistent id task now found =
      store-IsConsistent r c id task found
        (touch_task r.ttl_ms now true (record task { state = active })) refl refl

  pub touch_stored-IsConsistent :
      (id : String) (now : ℕ) (extend : Bool) (task task' : BrowserTask)
      → get id r.tasks ≡ some task
      → task'.task_id ≡ task.task_id
      → task'.tab_ids ≡ task.tab_ids
      → IsConsistent (touch_stored id now extend task' r).0
  unfolding touch_stored
  touch_stored-IsConsistent id now extend task task' found same_id same_tabs =
      store-IsConsistent r c id task found (touch_task r.ttl_ms now extend task') same_id same_tabs

  pub require_owned_task-IsConsistent :
      (id h : String) (inc res : Bool) (now : ℕ)
      → IsConsistent (require_owned_task id h inc res now r).0
  unfolding require_owned_task
  require_owned_task-IsConsistent id h inc res now = elim (Option-cases (get id r.tasks)) [
    | inl missing ↦ rw (missing, require_owned_task) c
    | inr (task, found) ↦ ground (arith, found, c, resume-IsConsistent id task now found)
  ]

  pub attach_existing_tab-IsConsistent :
      (id tab_id : String) → IsConsistent (attach_existing_tab id tab_id r).0
  unfolding attach_existing_tab
  attach_existing_tab-IsConsistent id tab_id = elim (Option-cases (get id r.tasks)) [
    | inl missing ↦ rw (missing, attach_existing_tab) c
    | inr (task, found) ↦
        rw (found, attach_existing_tab)
          (elim (Bool-cases elsewhere) [
            | inl refused ↦ rw (refused, bind_tab) c
            | inr free ↦
                rw (free, bind_tab)
                  (attach-IsConsistent r c id task found tab_id (λ other e. ground (
                    arith,
                    eq_iff other "",
                    eq_iff other id,
                    c.named,
                    (c.indexed tab_id other e).1,
                  )))
          ])
  ]
    where
      elsewhere : Bool
      elsewhere = bound_elsewhere (truthy (get tab_id r.task_by_tab)) id

  pub detach_tab-IsConsistent : (tab_id : String) (now : ℕ) → IsConsistent (detach_tab tab_id now r)
  unfolding detach_tab
  detach_tab-IsConsistent tab_id now = elim (Option-cases (truthy (get tab_id r.task_by_tab))) [
    | inl missing ↦ rw (missing, detach_tab) c
    | inr (id, mine) ↦
        (let mine' : get tab_id r.task_by_tab ≡ some id = ground arith in
          let (task, found, _) = c.indexed tab_id id mine' in
          rw (mine, detach_tab)
            (rw (found, detach_tab)
              (detach-IsConsistent r c id task found tab_id _ refl refl mine')))
  ]

  pub terminate-IsConsistent :
      (state : BrowserTaskState) (id : String) (now : ℕ) → IsConsistent (terminate state id now r).0
  unfolding terminate
  terminate-IsConsistent state id now = elim (Option-cases (get id r.tasks)) [
    | inl missing ↦ rw (missing, terminate) c
    | inr (task, found) ↦ rw (found, terminate) (unindex-IsConsistent r c id task found _ refl refl)
  ]

  pub begin_expiration-IsConsistent :
      (id : String) (now : ℕ) → IsConsistent (begin_expiration id now r).0
  unfolding begin_expiration
  begin_expiration-IsConsistent id now = elim (Option-cases (get id r.tasks)) [
    | inl missing ↦ rw (missing, begin_expiration) c
    | inr (task, found) ↦ ground (
      arith,
      c,
      store-IsConsistent r c id task found (record task { state = finishing }) refl refl,
    )
  ]

  pub restore-IsConsistent :
      (id : String) (now : ℕ) → IsConsistent (restore_after_failed_finalization id now r).0
  unfolding restore_after_failed_finalization touch_task
  restore-IsConsistent id now = elim (Option-cases (get id r.tasks)) [
    | inl missing ↦ rw (missing, restore_after_failed_finalization) c
    | inr (task, found) ↦ ground (
      arith,
      c,
      store-IsConsistent r c id task found
          (touch_task r.ttl_ms now true (record task { state = active })) refl refl,
    )
  ]

  -- The leases are no part of the invariant.
  pub leases-IsConsistent : (leases : Assoc ℕ) → IsConsistent (record r { active_leases = leases })
  leases-IsConsistent leases = record {
    keyed = c.keyed;
    named = c.named;
    unique = c.unique;
    indexed = c.indexed;
    owned = c.owned;
  }

  pub begin_finish_task-IsConsistent :
      (id : String) (now : ℕ) (task : BrowserTask)
      → get id r.tasks ≡ some task
      → IsConsistent (begin_finish_task id now task r).0
  unfolding begin_finish_task touch_stored
  begin_finish_task-IsConsistent id now task found = ground (
    arith,
    c,
    store-IsConsistent r c id task found
        (touch_task r.ttl_ms now false (record task { state = finishing })) refl refl,
  )

  pub touch_if_accessible-IsConsistent :
      (id : String) (now : ℕ) → IsConsistent (touch_if_accessible id now r)
  unfolding touch_if_accessible
  touch_if_accessible-IsConsistent id now = elim (Option-cases (get id r.tasks)) [
    | inl missing ↦ rw (missing, touch_if_accessible) c
    | inr (task, found) ↦ ground (
      arith,
      c,
      store-IsConsistent r c id task found (touch_task r.ttl_ms now true task) refl refl,
    )
  ]

-- The task that `requireOwnedTask` and `attachExistingTab` return is the one then stored.
pub require_owned_task_stored :
    (id h : String) (inc res : Bool) (now : ℕ) (r : BrowserTaskRegistry) (t : BrowserTask)
    → (require_owned_task id h inc res now r).1 ≡ ok t
    → get id (require_owned_task id h inc res now r).0.tasks ≡ some t
unfolding require_owned_task
require_owned_task_stored id h inc res now r t e = elim (Option-cases (get id r.tasks)) [
  | inl missing ↦ ground arith
  | inr (task, found) ↦ ground (
    arith,
    eq_iff id id,
    get-put id id (touch_task r.ttl_ms now true (record task { state = active })) r.tasks,
  )
]

pub attach_existing_tab_stored :
    (id tab_id : String) (r : BrowserTaskRegistry) (t : BrowserTask)
    → (attach_existing_tab id tab_id r).1 ≡ ok t
    → get id (attach_existing_tab id tab_id r).0.tasks ≡ some t
unfolding attach_existing_tab
attach_existing_tab_stored id tab_id r t e = elim (Option-cases (get id r.tasks)) [
  | inl missing ↦ ground arith
  | inr (task, found) ↦ ground (arith, eq_iff id id, get-put id id (add_tab tab_id task) r.tasks)
]

module _ (sha256 : String → String) (r : BrowserTaskRegistry) (c : IsConsistent r) where
  pub attach_tab-IsConsistent :
      (id tab_id : String) (context : Option OperationContext) (now : ℕ)
      → IsConsistent (attach_tab sha256 id tab_id context now r).0
  unfolding attach_tab
  attach_tab-IsConsistent id tab_id context now =
      >>=-keeps IsConsistent owned rest r (require_owned_task-IsConsistent r c id _ false true now)
        (λ _ _.
          let r1 = (owned r).0 in
          let c1 =
            require_owned_task-IsConsistent r c id (owner_hash_of sha256 context) false true now in
          >>=-keeps IsConsistent (attach_existing_tab id tab_id) (touch_stored id now true) r1
            (attach_existing_tab-IsConsistent r1 c1 id tab_id)
            (λ t e.
              touch_stored-IsConsistent (attach_existing_tab id tab_id r1).0
                (attach_existing_tab-IsConsistent r1 c1 id tab_id) id now true t t
                (attach_existing_tab_stored id tab_id r1 t e) refl refl))
    where
      owned : Op BrowserTask
      owned = require_owned_task id (owner_hash_of sha256 context) false true now

      rest : BrowserTask → Op BrowserTask
      rest _ = attach_existing_tab id tab_id >>= touch_stored id now true

  pub begin_finish-IsConsistent :
      (id : String) (context : Option OperationContext) (now : ℕ)
      → IsConsistent (begin_finish sha256 id context now r).0
  unfolding begin_finish
  begin_finish-IsConsistent id context now =
      >>=-keeps IsConsistent owned (begin_finish_task id now) r consistent (λ t e.
        begin_finish_task-IsConsistent (owned r).0 consistent id now t
          (require_owned_task_stored id (owner_hash_of sha256 context) true false now r t e))
    where
      owned : Op BrowserTask
      owned = require_owned_task id (owner_hash_of sha256 context) true false now

      consistent : IsConsistent (owned r).0
      consistent =
          require_owned_task-IsConsistent r c id (owner_hash_of sha256 context) true false now

  pub acquire_for_task-IsConsistent :
      (id : String) (context : Option OperationContext) (now : ℕ)
      → IsConsistent (acquire_for_task sha256 id context now r).0
  unfolding acquire_for_task add_lease
  acquire_for_task-IsConsistent id context now =
      >>=-keeps IsConsistent (require_owned_task id (owner_hash_of sha256 context) false true now)
        add_lease r (require_owned_task-IsConsistent r c id _ false true now)
        (λ t e. leases-IsConsistent _ (require_owned_task-IsConsistent r c id _ false true now) _)
