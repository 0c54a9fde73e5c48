-- ===== src/Browser/Tasks/Expiry.antt =====
-- Leases and expiration in the browser worker's task registry.
use mcp_access_stack_legacy.Prelude.{
  is_some, ℕ, ◌+◌, ◌-◌, ◌<◌, String, Bool, true, false, Option, none, some, map, ◌≡◌, ap, sym, ◌∙◌,
  inl, inr, arith, eq_iff, Option-cases, filter-filter, includes, str_eq, if◌then◌else◌, ◌&&◌, leb,
  ◌==◌, ◌or_else◌,
}
use mcp_access_stack_legacy.Prelude.Assoc.{get, get-put, get-delete}
use mcp_access_stack_legacy.Prelude.Unique.{includes-map-filter-values}
use mcp_access_stack_legacy.Core.Errors.{ok, Result, >>=-eq-ok}
use mcp_access_stack_legacy.Core.Context.{OperationContext}
use mcp_access_stack_legacy.Browser.Tasks.{
  BrowserTask, active, BrowserTaskRegistry, BrowserTaskLease, owner_hash_of, require_owned_task,
  is_accessible_state,
}
use mcp_access_stack_legacy.Browser.Tasks.Lifecycle.{
  lease_count, begin_expiration, expired_candidates,
}
use mcp_access_stack_legacy.Browser.Tasks.Leases.{
  acquire_for_task, add_lease, release, drop_lease, touch_if_accessible,
}
use mcp_access_stack_legacy.Browser.Tasks.Consistency.{IsConsistent}

-- Releasing a lease again, at any time, changes nothing.
pub release_once :
    (lease : BrowserTaskLease) (now later : ℕ) (r : BrowserTaskRegistry)
    → release (release lease now r).0 later (release lease now r).1 ≡ release lease now r
unfolding release
release_once lease now later r = ground arith

require_owned_task-leases :
    (id h : String) (inc res : Bool) (now : ℕ) (r : BrowserTaskRegistry)
    → (require_owned_task id h inc res now r).0.active_leases ≡ r.active_leases
unfolding require_owned_task
require_owned_task-leases id h inc res now r = ground arith

touch_if_accessible-leases :
    (id : String) (now : ℕ) (r : BrowserTaskRegistry)
    → (touch_if_accessible id now r).active_leases ≡ r.active_leases
unfolding touch_if_accessible
touch_if_accessible-leases id now r = ground arith

add_lease-lease_count :
    (task : BrowserTask) (j : String) (r : BrowserTaskRegistry)
    → lease_count j (add_lease task r).0
      ≡ (if str_eq task.task_id j then lease_count j r + 1 else lease_count j r)
unfolding lease_count add_lease
add_lease-lease_count task j r = ground (
  arith,
  get-put j task.task_id (lease_count task.task_id r + 1) r.active_leases,
  eq_iff task.task_id j,
)

drop_lease-lease_count :
    (id j : String) (r : BrowserTaskRegistry)
    → lease_count j (drop_lease id r)
      ≡ (if str_eq id j then lease_count j r - 1 else lease_count j r)
unfolding lease_count drop_lease
drop_lease-lease_count id j r = ground (
  arith,
  get-put j id ((get id r.active_leases or_else 1) - 1) r.active_leases,
  get-delete j id r.active_leases,
  eq_iff id j,
)

lease_count_leases :
    (j : String) (s r : BrowserTaskRegistry)
    → s.active_leases ≡ r.active_leases
    → lease_count j s ≡ lease_count j r
unfolding lease_count
lease_count_leases j s r e = ap (λ leases. get j leases or_else 0) e

add_lease-release :
    (task : BrowserTask) (lease : BrowserTaskLease) (later : ℕ) (s : BrowserTaskRegistry)
    (j : String)
    → (add_lease task s).1 ≡ ok lease
    → (lease_count j (add_lease task s).0
        ≡ (if str_eq lease.task_id j then lease_count j s + 1 else lease_count j s))
      × (lease_count j (release lease later (add_lease task s).0).1 ≡ lease_count j s)
unfolding release
add_lease-release task lease later s j e =
    let fresh : (lease.task_id ≡ task.task_id) × (lease.released ≡ false) =
      unfold add_lease in ground arith in
    let held = (add_lease task s).0 in
    (
      ground (arith, add_lease-lease_count task j s, fresh),
      ground (
        arith,
        add_lease-lease_count task j s,
        fresh,
        drop_lease-lease_count lease.task_id j held,
        lease_count_leases j
            (touch_if_accessible lease.task_id later (drop_lease lease.task_id held))
            (drop_lease lease.task_id held)
            (touch_if_accessible-leases lease.task_id later (drop_lease lease.task_id held)),
      ),
    )

-- A lease that was acquired and not yet released adds one to the lease count of its task and
-- nothing to the others; releasing it restores the counts of all tasks.
pub acquire-release_counts :
    (sha256 : String → String) (id : String) (context : Option OperationContext) (now later : ℕ)
    (r : BrowserTaskRegistry) (lease : BrowserTaskLease) (j : String)
    → (acquire_for_task sha256 id context now r).1 ≡ ok lease
    → let held = (acquire_for_task sha256 id context now r).0 in
      (lease_count j held
        ≡ (if str_eq lease.task_id j then lease_count j r + 1 else lease_count j r))
      × (lease_count j (release lease later held).1 ≡ lease_count j r)
unfolding acquire_for_task
acquire-release_counts sha256 id context now later r lease j e =
    let (task, _, whole) = >>=-eq-ok owned add_lease r lease e in
    let counts = add_lease-release task lease later (owned r).0 j (ap (λ x. x.1) (sym whole) ∙ e) in
    let same =
      lease_count_leases j (owned r).0 r
        (require_owned_task-leases id (owner_hash_of sha256 context) false true now r) in
    rw (whole, acquire_for_task) (cc (counts.0, same), cc (counts.1, same))
  where
    owned : BrowserTaskRegistry → BrowserTaskRegistry × Result BrowserTask
    owned = require_owned_task id (owner_hash_of sha256 context) false true now

-- A task with a lease does not expire: `beginExpiration` returns nothing and changes nothing.
pub leased_task_stays :
    (id : String) (now : ℕ) (r : BrowserTaskRegistry)
    → 0 < lease_count id r
    → begin_expiration id now r ≡ (r, none)
unfolding begin_expiration
leased_task_stays id now r h = ground arith

abbrev is_candidate : ℕ → BrowserTaskRegistry → BrowserTask → Bool
is_candidate now r t =
    (is_accessible_state t.state && (lease_count t.task_id r == 0)) && leb t.expires_at now

-- In a consistent registry `beginExpiration` returns a task exactly for the ids of the tasks that
-- `expiredCandidates` lists at the same time.
pub begin_expiration_candidates :
    (id : String) (now : ℕ) (r : BrowserTaskRegistry)
    → IsConsistent r
    → is_some (begin_expiration id now r).1
      ≡ includes (map (λ t. t.task_id) (expired_candidates now r)) id
unfolding begin_expiration expired_candidates
begin_expiration_candidates id now r c = simp filter-filter (
    let chosen =
      includes-map-filter-values (λ t. t.task_id) (is_candidate now r) r.tasks id c.unique
        c.keyed in
    elim (Option-cases (get id r.tasks)) [
      | inl missing ↦ ground (arith, chosen)
      | inr (task, found) ↦ ground (arith, chosen, c.keyed id task found)
    ])

-- Acquiring a lease on an active task leaves every stored task as it was: the expiry of the task is
-- not extended.
pub acquire_keeps_expiry :
    (sha256 : String → String) (id : String) (context : Option OperationContext) (now : ℕ)
    (r : BrowserTaskRegistry) (task : BrowserTask)
    → get id r.tasks ≡ some task
    → task.state ≡ active
    → (acquire_for_task sha256 id context now r).0.tasks ≡ r.tasks
unfolding acquire_for_task
acquire_keeps_expiry sha256 id context now r task found live = ground arith
