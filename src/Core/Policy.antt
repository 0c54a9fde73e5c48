-- ===== src/Core/Policy.antt =====
-- packages/mcp-core/src/policy.ts and project-write-policy.ts: the policy of a workspace, and the write
-- access that a configured root gives. What the platform does to a text is a parameter.
use mcp_access_stack_legacy.Prelude.{
  ℕ, String, Bool, false, not, ◌||◌, ◌&&◌, List, [], ◌∷◌, Option, none, some, concat, code,
  if◌then◌else◌, ◌==◌, str_eq,
}
use mcp_access_stack_legacy.Core.Text.{codes, starts_with}
use mcp_access_stack_legacy.Core.SourceControl.{SourceControlPolicy}
use mcp_access_stack_legacy.Agent.Permissions.{PermissionProfile, full_repo_write}
use mcp_access_stack_legacy.Agent.CommandAnalysis.{ShellName, powershell, pwsh, cmd, wsl, git_bash}
use mcp_access_stack_legacy.Agent.PathSecurity.{portable}

pub data ConfirmationMode : Type 0 where
  standard trusted_workspace : ConfirmationMode

pub data WorkspaceKind : Type 0 where
  repository aggregate : WorkspaceKind

pub record WorkspaceLimits : Type 0 where
  pub max_file_bytes : ℕ
  pub max_search_results : ℕ
  pub max_search_snippet_bytes : ℕ
  pub max_diff_bytes : ℕ
  pub max_listed_files : ℕ
  pub max_discovery_directories : Option ℕ
  pub max_discovery_entries : Option ℕ
  pub max_discovery_duration_ms : Option ℕ

pub record WorkspacePolicy : Type 0 where
  pub id : String
  pub name : String
  pub root_path : String
  pub workspace_kind : Option WorkspaceKind
  pub enabled : Bool
  pub permission_profile : PermissionProfile
  pub confirmation_mode : ConfirmationMode
  pub allowed_roots : List String
  pub blocked_globs : List String
  pub limits : WorkspaceLimits
  pub allow_writes : List String
  pub allow_shell : List String
  pub allowed_shells : List ShellName
  pub source_control : Option SourceControlPolicy

abbrev pub supported_shells : List ShellName
supported_shells = powershell ∷ pwsh ∷ cmd ∷ wsl ∷ git_bash ∷ []

-- What the code takes from the platform: `process.platform`, lower case, the digest of a text cut to
-- eight digits, and whether `localeCompare` is at most 0.
pub record Platform : Type 0 where
  pub is_windows : Bool
  pub to_lower_case : String → String
  pub short_hash : String → String
  pub locale_le : String → String → Bool

pub record AutoWritePolicyOptions : Type 0 where
  pub enable_project_writes : Bool
  pub project_root_path : Option String
  pub enable_development_writes : Bool
  pub development_root_path : Option String

-- `replace(/\/+$/, "")`.
unfoldable pub without_last_slashes : String → String
without_last_slashes String.[] = ""
without_last_slashes (String.◌∷◌ c s) =
    let rest = without_last_slashes s in
    if code c == b'/' && str_eq rest "" then "" else String.◌∷◌ c rest

module _ (platform : Platform) where
  unfoldable pub canonical_path_key : String → String
  unfolding portable without_last_slashes
  canonical_path_key file_path =
      let normalized = without_last_slashes (portable file_path) in
      if platform.is_windows then platform.to_lower_case normalized else normalized

  unfoldable pub is_under_configured_root : String → String → Bool
  unfolding canonical_path_key
  is_under_configured_root canonical_root_path root_path =
      let root_key = canonical_path_key root_path in
      let path_key = canonical_path_key canonical_root_path in
      str_eq path_key root_key || starts_with (codes path_key) (codes (concat root_key "/"))

  -- A root that is given, and not empty, and passes a test.
  abbrev pub at_root : (String → Bool) → Option String → Bool
  at_root p none = false
  at_root p (some root) = not (str_eq root "") && p root

  unfoldable pub is_auto_write_eligible : String → AutoWritePolicyOptions → Bool
  unfolding is_under_configured_root
  is_auto_write_eligible canonical_root_path options =
      (options.enable_project_writes
        && at_root (is_under_configured_root canonical_root_path) options.project_root_path)
      || (options.enable_development_writes
          && at_root (is_under_configured_root canonical_root_path) options.development_root_path)

  unfoldable pub is_configured_project_root : String → AutoWritePolicyOptions → Bool
  unfolding canonical_path_key
  is_configured_project_root canonical_root_path options =
      options.enable_project_writes
      && at_root (λ root. str_eq (canonical_path_key canonical_root_path) (canonical_path_key root))
          options.project_root_path

  unfoldable pub with_auto_write_access :
      WorkspacePolicy → String → AutoWritePolicyOptions → WorkspacePolicy
  unfolding is_auto_write_eligible is_configured_project_root
  with_auto_write_access workspace canonical_root_path options =
      if not (is_auto_write_eligible canonical_root_path options)
      then workspace
      else record workspace {
        workspace_kind =
            if is_configured_project_root canonical_root_path options
            then some aggregate
            else workspace.workspace_kind;
        permission_profile = full_repo_write;
        allow_writes = "." ∷ [];
        allow_shell = "." ∷ [];
        allowed_shells = supported_shells;
      }
