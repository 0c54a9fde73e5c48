-- ===== src/Core/SourceControl.antt =====
-- packages/mcp-core/src/source-control-policy.ts: what a workspace's policy allows of source control.
-- `toLocaleLowerCase("en-US")` is a parameter. Whether the capability of an operation is one of GitHub
-- is read off its constructor.
pub mod Authorization
mod Tests
use mcp_access_stack_legacy.Prelude.{
  String, Bool, true, false, not, ◌||◌, ◌&&◌, List, [], ◌∷◌, map, Option, none, some, if◌then◌else◌,
  str_eq, includes, ℕ, ◌==◌, any, is_some,
}
use mcp_access_stack_legacy.Core.Errors.{
  source_control_capability_denied, git_protected_branch, Result, ok, throw,
}
use mcp_access_stack_legacy.Agent.Permissions.{PermissionProfile, full_repo_write}

pub data SourceControlCapability : Type 0 where
  git_branch_write git_index_write git_commit_write git_merge_write : SourceControlCapability
  git_remote_push github_repository_read github_repository_create : SourceControlCapability
  github_pull_request_read github_pull_request_create : SourceControlCapability
  github_pull_request_merge : SourceControlCapability

abbrev pub capability_index : SourceControlCapability → ℕ
capability_index git_branch_write = 0
capability_index git_index_write = 1
capability_index git_commit_write = 2
capability_index git_merge_write = 3
capability_index git_remote_push = 4
capability_index github_repository_read = 5
capability_index github_repository_create = 6
capability_index github_pull_request_read = 7
capability_index github_pull_request_create = 8
capability_index github_pull_request_merge = 9

-- `===` on capabilities.
abbrev pub capability_eq : SourceControlCapability → SourceControlCapability → Bool
capability_eq a b = capability_index a == capability_index b

-- `capability.startsWith("github.")`.
abbrev pub is_github : SourceControlCapability → Bool
is_github git_branch_write = false
is_github git_index_write = false
is_github git_commit_write = false
is_github git_merge_write = false
is_github git_remote_push = false
is_github _ = true

pub record SourceControlPolicy : Type 0 where
  pub capabilities : List SourceControlCapability
  pub account_owners : List String
  pub additional_repositories : List String

pub record AssertSourceControlCapabilityInput : Type 0 where
  pub permission_profile : PermissionProfile
  pub source_control : Option SourceControlPolicy
  pub capability : SourceControlCapability
  pub repository : Option String
  pub canonical_repository : Option String
  pub account_owner : Option String
  pub mutation : Bool

abbrev pub may_mutate : PermissionProfile → Bool
may_mutate full_repo_write = true
may_mutate _ = false

pub data TypedGitBranchMutationOperation : Type 0 where
  git_create_branch git_stage_paths git_unstage_paths : TypedGitBranchMutationOperation
  git_commit git_merge_branch git_push_branch : TypedGitBranchMutationOperation

abbrev pub is_guarded : TypedGitBranchMutationOperation → Bool
is_guarded git_commit = true
is_guarded git_merge_branch = true
is_guarded _ = false

module _ (to_locale_lower_case : String → String) where
  abbrev pub normalize_target : String → String
  normalize_target value = to_locale_lower_case value

  -- Whether a requested repository is neither the canonical one nor an additional one.
  abbrev pub refuses_repository : SourceControlPolicy → Option String → String → Bool
  refuses_repository configured canonical_repository repository =
      let requested = normalize_target repository in
      let additional = map normalize_target configured.additional_repositories in
      not (is_canonical requested canonical_repository) && not (includes additional requested)
    where
      is_canonical : String → Option String → Bool
      is_canonical requested none = false
      is_canonical requested (some canonical) = str_eq requested (normalize_target canonical)

  -- A test of a target that is given.
  abbrev pub given : (String → Bool) → Option String → Bool
  given p none = false
  given p (some s) = p s

  abbrev pub refuses_owner : SourceControlPolicy → String → Bool
  refuses_owner configured account_owner =
      not
        (includes (map normalize_target configured.account_owners) (normalize_target account_owner))

  abbrev pub deny_source_control : Result (Unit {0})
  deny_source_control = throw source_control_capability_denied

  abbrev pub assert_with :
      SourceControlPolicy → AssertSourceControlCapabilityInput → Result (Unit {0})
  assert_with configured input =
      if not (any (λ c. capability_eq c input.capability) configured.capabilities)
      then deny_source_control
      else if input.mutation && not (may_mutate input.permission_profile)
      then deny_source_control
      else if capability_eq input.capability github_repository_create
          && not (is_some input.account_owner)
      then deny_source_control
      else if is_github input.capability
          && not (capability_eq input.capability github_repository_create)
          && not (is_some input.repository)
      then deny_source_control
      else if given (refuses_repository configured input.canonical_repository) input.repository
      then deny_source_control
      else if given (refuses_owner configured) input.account_owner
      then deny_source_control
      else ok tt

  unfoldable pub assert_source_control_capability :
      AssertSourceControlCapabilityInput → Result (Unit {0})
  unfolding includes any
  assert_source_control_capability input = elim input.source_control [
    | none ↦ deny_source_control
    | some configured ↦ assert_with configured input
  ]

  unfoldable pub is_protected_main : Option String → Bool
  is_protected_main none = false
  is_protected_main (some value) = str_eq (to_locale_lower_case value) "main"

  unfoldable pub assert_typed_git_branch_mutation_allowed :
      TypedGitBranchMutationOperation → (current_branch : Option String) → Result (Unit {0})
  unfolding is_protected_main
  assert_typed_git_branch_mutation_allowed operation current_branch =
      if is_guarded operation && is_protected_main current_branch
      then throw git_protected_branch
      else ok tt

  -- Whether `addUniqueIssues` adds an issue, with what was seen before.
  unfoldable pub repeats : List String → List String → Bool
  unfolding includes
  repeats seen [] = false
  repeats seen (value ∷ values) =
      let key = normalize_target value in includes seen key || repeats (key ∷ seen) values
