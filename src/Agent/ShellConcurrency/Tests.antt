-- ===== src/Agent/ShellConcurrency/Tests.antt =====
-- Runs of the limiter of synchronous shells, and its theorems at concrete inputs.
use mcp_access_stack_legacy.Prelude.{false, [], ◌∷◌, refl}
use mcp_access_stack_legacy.Agent.ShellConcurrency.{
  SynchronousShellConcurrency, SynchronousShellLease, construct, acquires, releases, apply_all,
}
use mcp_access_stack_legacy.Agent.ShellConcurrency.Exclusion.{IsBounded, shells-IsBounded}

abbrev two_at_most : SynchronousShellConcurrency
two_at_most = record { active_by_workspace = []; max_concurrent = 2 }

abbrev lease_of_a : SynchronousShellLease
lease_of_a = record { workspace_key = "a"; request_id = "r1"; released = false }

shells-IsBounded_example : IsBounded (
    apply_all
      (acquires "a" "r1" ∷ acquires "b" "r2" ∷ acquires "c" "r3" ∷ releases lease_of_a ∷ [])
      two_at_most)
unfolding construct
shells-IsBounded_example =
    shells-IsBounded 2
      (acquires "a" "r1" ∷ acquires "b" "r2" ∷ acquires "c" "r3" ∷ releases lease_of_a ∷ [])
      two_at_most refl
