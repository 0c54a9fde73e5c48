-- ===== src/Core/PolicyMerge.antt =====
-- packages/mcp-core/src/policy-merge.ts: the policies of explicit and of discovered workspaces in one.
-- Limits are natural numbers. `explicitCanonicalByPath`, which nothing reads, is left out.
pub mod Merge
pub mod Outcome
pub mod Limits
pub mod Exposure
pub mod Loops
pub mod Sound
pub mod Access
pub mod Offered
mod Tests
use Prim.Native.Char.{Char}
use mcp_access_stack_legacy.Prelude.{
  ℕ, zero, suc, String, Bool, true, false, not, ◌||◌, ◌&&◌, List, [], ◌∷◌, ◌++◌, map, Option, none,
  some, concat, code, if◌then◌else◌, ◌==◌, str_eq, ltb, min, includes, any, ◌or_else◌,
}
use mcp_access_stack_legacy.Prelude.Assoc.{Assoc, get, put, has, values}
use mcp_access_stack_legacy.Core.Text.{codes, starts_with, in_range, trim}
use mcp_access_stack_legacy.Core.Policy.{
  WorkspaceLimits, WorkspacePolicy, standard, repository, Platform, AutoWritePolicyOptions,
  without_last_slashes, canonical_path_key, with_auto_write_access,
}
use mcp_access_stack_legacy.Agent.Permissions.{planning_readonly}
use mcp_access_stack_legacy.Agent.CommandAnalysis.{powershell}
use mcp_access_stack_legacy.Agent.PathSecurity.{portable, split, split_at}
use mcp_access_stack_legacy.Agent.PathSecurity.Authorize.{last_of}

pub record DiscoveredWorkspaceCandidate : Type 0 where
  pub name : String
  pub root_path : String
  pub canonical_root_path : String
  pub trusted : Bool

pub record ExplicitPolicyInput : Type 0 where
  pub workspace : WorkspacePolicy
  pub canonical_root_path : String

pub data WorkspaceCatalogSource : Type 0 where
  explicit discovered deny_index : WorkspaceCatalogSource

pub record WorkspaceCatalogEntryMeta : Type 0 where
  pub source : WorkspaceCatalogSource
  pub id : String
  pub name : String
  pub root_path : String
  pub canonical_root_path : String
  pub trusted : Bool
  pub enabled : Bool

-- `Partial<WorkspaceLimits>`, of which the five keys of LIMIT_KEYS are read.
pub record PartialLimits : Type 0 where
  pub max_file_bytes : Option ℕ
  pub max_search_results : Option ℕ
  pub max_search_snippet_bytes : Option ℕ
  pub max_diff_bytes : Option ℕ
  pub max_listed_files : Option ℕ

pub record MergeWorkspacePoliciesOptions : Type 0 where
  pub include_open_workspaces : Option Bool
  pub always_expose_explicit : Option Bool
  pub require_trusted_workspace : Option Bool
  pub discovered_limits_override : Option PartialLimits
  pub auto_write : AutoWritePolicyOptions

abbrev pub discovered_workspace_limit_ceilings : WorkspaceLimits
discovered_workspace_limit_ceilings = record {
  max_file_bytes = 64_000;
  max_search_results = 100;
  max_search_snippet_bytes = 20_000;
  max_diff_bytes = 500_000;
  max_listed_files = 500;
  max_discovery_directories = none;
  max_discovery_entries = none;
  max_discovery_duration_ms = none;
}

abbrev pub implicit_technical_workspace_names : List String
implicit_technical_workspace_names =
    "build" ∷ "coverage" ∷ "dist" ∷ "docker" ∷ "node_modules" ∷ "releases" ∷ "runtime" ∷ "test"
    ∷ "tests" ∷ "temp" ∷ "tmp" ∷ []

abbrev pub clamp : Option ℕ → ℕ → ℕ
clamp none ceiling = ceiling
clamp (some value) ceiling = if ltb 0 value then min value ceiling else ceiling

-- `workspaceLimitsSchema.parse`, of limits whose optional fields are missing.
abbrev pub parse_limits : WorkspaceLimits → Option WorkspaceLimits
parse_limits l =
    if ltb 0 l.max_file_bytes
      && (ltb 0 l.max_search_results
          && (ltb 0 l.max_search_snippet_bytes
              && (ltb 0 l.max_diff_bytes && ltb 0 l.max_listed_files)))
    then some l
    else none

unfoldable pub clamp_discovered_limits : Option PartialLimits → Option WorkspaceLimits
clamp_discovered_limits none = some discovered_workspace_limit_ceilings
clamp_discovered_limits (some o) =
    let ceilings = discovered_workspace_limit_ceilings in
    parse_limits (record ceilings {
      max_file_bytes = clamp o.max_file_bytes ceilings.max_file_bytes;
      max_search_results = clamp o.max_search_results ceilings.max_search_results;
      max_search_snippet_bytes = clamp o.max_search_snippet_bytes ceilings.max_search_snippet_bytes;
      max_diff_bytes = clamp o.max_diff_bytes ceilings.max_diff_bytes;
      max_listed_files = clamp o.max_listed_files ceilings.max_listed_files;
    })

abbrev pub is_alphanumeric : ℕ → Bool
is_alphanumeric n = in_range b'a' b'z' n || in_range b'0' b'9' n

-- `replace(/[^a-z0-9]+/g, "-")`; `in_run` says that the last character was replaced.
unfoldable pub dashed : (in_run : Bool) → String → String
dashed in_run String.[] = ""
dashed in_run (String.◌∷◌ c s) =
    let rest = dashed true s in
    if is_alphanumeric (code c)
    then String.◌∷◌ c (dashed false s)
    else if in_run
    then rest
    else String.◌∷◌ "-" rest

-- `replace(/^-+|-+$/g, "")`.
unfoldable pub without_first_dashes : String → String
without_first_dashes String.[] = ""
without_first_dashes (String.◌∷◌ c s) =
    let rest = without_first_dashes s in if code c == b'-' then rest else String.◌∷◌ c s

unfoldable pub without_last_dashes : String → String
without_last_dashes String.[] = ""
without_last_dashes (String.◌∷◌ c s) =
    let rest = without_last_dashes s in
    if code c == b'-' && str_eq rest "" then "" else String.◌∷◌ c rest

-- `slice(0, n)` of a text of ASCII characters.
unfoldable pub take : ℕ → String → String
take zero s = ""
take (suc n) String.[] = ""
take (suc n) (String.◌∷◌ c s) = String.◌∷◌ c (take n s)

-- `replace(/[^a-zA-Z0-9._-]/g, "-")`.
unfoldable pub safe_characters : String → String
safe_characters String.[] = ""
safe_characters (String.◌∷◌ c s) =
    let n = code c in
    String.◌∷◌
      (if is_alphanumeric n || (in_range b'A' b'Z' n || (n == b'.' || (n == b'_' || n == b'-')))
        then c
        else "-")
      (safe_characters s)
