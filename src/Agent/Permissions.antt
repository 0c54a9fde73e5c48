-- ===== src/Agent/Permissions.antt =====
-- services/workspace-agent/src/permission-profile.ts, with the profiles of
-- packages/mcp-core/src/policy.ts: which operations a workspace's profile allows.
mod Tests
use mcp_access_stack_legacy.Prelude.{
  Bool, true, false, if◌then◌else◌, ◌≡◌, ◌≢◌, ◌↔◌, ◌⊎◌, inl, inr, refl, arith,
}
use mcp_access_stack_legacy.Core.Errors.{permission_denied, Result, ok, throw}

pub data PermissionProfile : Type 0 where
  planning_readonly planning_handoff builder_review restricted_area : PermissionProfile
  full_repo_readonly full_repo_write : PermissionProfile

-- `ReadOperation`, `WriteOperation` and `ShellOperation` in one type.
pub data WorkspaceOperation : Type 0 where
  list read search diff write shell : WorkspaceOperation

read_permissions : PermissionProfile → WorkspaceOperation → Bool
read_permissions builder_review read = true
read_permissions builder_review diff = true
read_permissions builder_review _ = false
read_permissions _ list = true
read_permissions _ read = true
read_permissions _ search = true
read_permissions _ diff = true
read_permissions _ write = false
read_permissions _ shell = false

write_permissions : PermissionProfile → Bool
write_permissions full_repo_write = true
write_permissions _ = false

shell_permissions : PermissionProfile → Bool
shell_permissions full_repo_write = true
shell_permissions _ = false

allowed : PermissionProfile → WorkspaceOperation → Bool
unfolding read_permissions write_permissions shell_permissions
allowed profile write = write_permissions profile
allowed profile shell = shell_permissions profile
allowed profile operation = read_permissions profile operation

pub assert_permission : PermissionProfile → WorkspaceOperation → Result (Unit {0})
unfolding allowed
assert_permission profile operation =
    if allowed profile operation then ok tt else throw permission_denied

-- An operation that changes the workspace.
abbrev pub is_mutating : WorkspaceOperation → Bool
is_mutating write = true
is_mutating shell = true
is_mutating _ = false

-- Writing and running a shell are allowed to the profile full-repo-write alone; listing and searching
-- to every profile but builder-review; reading and diffing to all. Everything else throws
-- PERMISSION_DENIED.
pub assert_permission_iff :
    (profile : PermissionProfile) (operation : WorkspaceOperation)
    → ((assert_permission profile operation ≡ ok tt) ↔ (
        (profile ≡ full_repo_write)
        ⊎ ((is_mutating operation ≡ false)
            × ((profile ≢ builder_review) ⊎ ((operation ≡ read) ⊎ (operation ≡ diff))))))
      × ((assert_permission profile operation ≡ ok tt)
          ⊎ (assert_permission profile operation ≡ throw permission_denied))
unfolding assert_permission
assert_permission_iff profile operation = ground arith
