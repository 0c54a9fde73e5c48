-- ===== src/Agent/ShellConcurrency/Exclusion.antt =====
-- A workspace runs one synchronous shell at a time, and the agent a bounded number.
use mcp_access_stack_legacy.Prelude.{
  ℕ, List, [], ◌∷◌, ◌⊎◌, ◌≤◌, ◌<◌, String, false, ◌||◌, none, leb, ◌≡◌, ◌↔◌, inl, inr, arith,
  eq_iff, Bool-cases,
}
use mcp_access_stack_legacy.Prelude.Assoc.{
  get, put, has, size, get-put, get-delete, size-put, size-delete-le,
}
use mcp_access_stack_legacy.Core.Errors.{agent_busy, ok, throw}
use mcp_access_stack_legacy.Agent.ShellConcurrency.{
  SynchronousShellConcurrency, SynchronousShellLease, max_concurrent_synchronous_shells, construct,
  active_count, Call, acquires, releases, apply, apply_all, acquire, release,
}

-- Between one and sixteen shells are allowed, and no more than allowed run.
pub record IsBounded (s : SynchronousShellConcurrency) : Type 0 where
  pub some_allowed : 0 < s.max_concurrent
  pub few_allowed : s.max_concurrent ≤ max_concurrent_synchronous_shells
  pub within : active_count s ≤ s.max_concurrent

construct-IsBounded : (n : ℕ) (s : SynchronousShellConcurrency) → construct n ≡ ok s → IsBounded s
unfolding construct active_count
construct-IsBounded n s e = ground arith

acquire-IsBounded :
    (w q : String) (s : SynchronousShellConcurrency) → IsBounded s → IsBounded (acquire w q s).0
unfolding acquire active_count
acquire-IsBounded w q s b = ground (arith, size-put w q s.active_by_workspace)

release-IsBounded :
    (lease : SynchronousShellLease) (s : SynchronousShellConcurrency)
    → IsBounded s
    → IsBounded (release lease s).1
unfolding release active_count
release-IsBounded lease s b =
    ground (arith, size-delete-le lease.workspace_key s.active_by_workspace)

apply_all-IsBounded :
    (calls : List Call) (s : SynchronousShellConcurrency)
    → IsBounded s
    → IsBounded (apply_all calls s)
unfolding apply_all apply
apply_all-IsBounded [] s b = b
apply_all-IsBounded (acquires w q ∷ more) s b =
    apply_all-IsBounded more (acquire w q s).0 (acquire-IsBounded w q s b)
apply_all-IsBounded (releases lease ∷ more) s b =
    apply_all-IsBounded more (release lease s).1 (release-IsBounded lease s b)

-- After a limiter was constructed, and whatever leases are then acquired and released, `maxConcurrent`
-- is from 1 to 16 and no more than `maxConcurrent` shells are active.
pub shells-IsBounded :
    (n : ℕ) (calls : List Call) (s : SynchronousShellConcurrency)
    → construct n ≡ ok s
    → IsBounded (apply_all calls s)
shells-IsBounded n calls s e = apply_all-IsBounded calls s (construct-IsBounded n s e)

-- A lease is given exactly when no shell runs for the workspace and fewer than the allowed number
-- run at all; otherwise AGENT_BUSY is thrown and nothing changes.
pub acquire_iff :
    (w q : String) (s : SynchronousShellConcurrency)
    → (((lease : SynchronousShellLease) × ((acquire w q s).1 ≡ ok lease))
        ↔ ((get w s.active_by_workspace ≡ none) × (active_count s < s.max_concurrent)))
      × (((lease : SynchronousShellLease) × ((acquire w q s).1 ≡ ok lease))
          ⊎ (acquire w q s ≡ (s, throw agent_busy)))
unfolding acquire active_count
acquire_iff w q s = (
  (
    (λ (lease, e). (ground arith, ground arith)),
    λ (free, room). (record { workspace_key = w; request_id = q; released = false }, ground arith),
  ),
  elim (Bool-cases
      (has w s.active_by_workspace || leb s.max_concurrent (size s.active_by_workspace))) [
        | inl busy ↦ inr (ground arith)
        | inr free ↦
            inl (record { workspace_key = w; request_id = q; released = false }, ground arith)
      ],
)

-- While a lease is held no other request gets the workspace; releasing it frees the workspace and
-- leaves the others, and releasing it again, after another request has taken the workspace, takes
-- nothing from that request.
pub lease_lifecycle :
    (w q q' j : String) (s later : SynchronousShellConcurrency) (lease : SynchronousShellLease)
    → (acquire w q s).1 ≡ ok lease
    → let held = (acquire w q s).0 in
      let (done, freed) = release lease held in
      ((acquire w q' held).1 ≡ throw agent_busy)
      × (get j freed.active_by_workspace ≡ get j s.active_by_workspace)
      × (release done later ≡ (done, later))
unfolding acquire release
lease_lifecycle w q q' j s later lease e = (
  ground (arith, get-put w w q s.active_by_workspace, eq_iff w w),
  ground (
    arith,
    get-put j w q s.active_by_workspace,
    get-put w w q s.active_by_workspace,
    eq_iff w w,
    eq_iff w j,
    eq_iff q q,
    get-delete j w (put w q s.active_by_workspace),
  ),
  ground arith,
)
