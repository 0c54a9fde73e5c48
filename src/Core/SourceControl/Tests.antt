-- ===== src/Core/SourceControl/Tests.antt =====
-- A policy with one additional repository, and what it authorises.
use mcp_access_stack_legacy.Prelude.{true, [], ◌∷◌, none, some, ◌≡◌, refl, ◌↔◌}
use mcp_access_stack_legacy.Core.Errors.{
  ok, throw, git_protected_branch, source_control_capability_denied,
}
use mcp_access_stack_legacy.Agent.Permissions.{full_repo_write, planning_readonly}
use mcp_access_stack_legacy.Core.SourceControl.{
  SourceControlPolicy, AssertSourceControlCapabilityInput, github_pull_request_merge,
  github_pull_request_read, assert_source_control_capability, git_commit,
  assert_typed_git_branch_mutation_allowed,
}
use mcp_access_stack_legacy.Core.SourceControl.Authorization.{
  Authorizes, assert_source_control_capability_iff,
}

abbrev policy : SourceControlPolicy
policy = record {
  capabilities = github_pull_request_read ∷ github_pull_request_merge ∷ [];
  account_owners = [];
  additional_repositories = "team/tools" ∷ [];
}

abbrev merge_request : AssertSourceControlCapabilityInput
merge_request = record {
  permission_profile = full_repo_write;
  source_control = some policy;
  capability = github_pull_request_merge;
  repository = some "team/tools";
  canonical_repository = some "team/app";
  account_owner = none;
  mutation = true;
}

assert_source_control_capability_iff_example :
    (assert_source_control_capability (λ s. s) merge_request ≡ ok tt) ↔ (
      (configured : SourceControlPolicy) × (some policy ≡ some configured)
      × Authorizes (λ s. s) configured merge_request)
assert_source_control_capability_iff_example =
    assert_source_control_capability_iff (λ s. s) merge_request

merging : assert_source_control_capability (λ s. s) merge_request ≡ ok tt
unfolding assert_source_control_capability
merging = refl

reading_only :
    assert_source_control_capability
      (λ s. s)
      (record merge_request { permission_profile = planning_readonly })
    ≡ throw source_control_capability_denied
unfolding assert_source_control_capability
reading_only = refl

main_commit :
    assert_typed_git_branch_mutation_allowed (λ s. s) git_commit (some "main")
    ≡ throw git_protected_branch
unfolding assert_typed_git_branch_mutation_allowed
main_commit = refl
