-- ===== src/Core/PolicyMerge/Tests.antt =====
-- Merges of small configurations.
use mcp_access_stack_legacy.Prelude.{
  true, false, [], ◌∷◌, none, some, ◌≡◌, refl, inl, leb, includes, any,
}
use mcp_access_stack_legacy.Prelude.Assoc.{get, put}
use mcp_access_stack_legacy.Core.Text.{utf16_length, trim}
use mcp_access_stack_legacy.Core.Policy.{
  WorkspacePolicy, Platform, AutoWritePolicyOptions, canonical_path_key, with_auto_write_access,
}
use mcp_access_stack_legacy.Core.PolicyMerge.{
  DiscoveredWorkspaceCandidate, ExplicitPolicyInput, PartialLimits, MergeWorkspacePoliciesOptions,
  discovered_workspace_limit_ceilings, WorkspaceCatalogEntryMeta, explicit, discovered, deny_index,
}
use mcp_access_stack_legacy.Core.PolicyMerge.Merge.{create_discovered_workspace}
use mcp_access_stack_legacy.Core.PolicyMerge.Outcome.{
  policies, empty_policy, merge_workspace_policies,
}
use mcp_access_stack_legacy.Core.PolicyMerge.Offered.{IsOffered, merge_workspace_policies-IsOffered}

abbrev platform : Platform
platform = record {
  is_windows = false;
  to_lower_case = λ s. s;
  short_hash = λ s. "1a2b3c4d";
  locale_le = λ a b. leb (utf16_length a) (utf16_length b);
}

abbrev no_writes : AutoWritePolicyOptions
no_writes = record {
  enable_project_writes = false;
  project_root_path = none;
  enable_development_writes = false;
  development_root_path = none;
}

abbrev defaults : MergeWorkspacePoliciesOptions
defaults = record {
  include_open_workspaces = none;
  always_expose_explicit = none;
  require_trusted_workspace = none;
  discovered_limits_override = none;
  auto_write = no_writes;
}

abbrev app : DiscoveredWorkspaceCandidate
app = record {
  name = "my app";
  root_path = "/src/app";
  canonical_root_path = "/src/app";
  trusted = true;
}

abbrev app_workspace : WorkspacePolicy
app_workspace =
    create_discovered_workspace platform app discovered_workspace_limit_ceilings "my-app-1a2b3c4d"

abbrev app_meta : WorkspaceCatalogEntryMeta
app_meta = record {
  source = discovered;
  id = "my-app-1a2b3c4d";
  name = "my app";
  root_path = "/src/app";
  canonical_root_path = "/src/app";
  trusted = true;
  enabled = true;
}

merge_workspace_policies-IsOffered_example : IsOffered platform [] (app ∷ []) defaults app_workspace
unfolding merge_workspace_policies any create_discovered_workspace trim includes put get
    canonical_path_key with_auto_write_access
merge_workspace_policies-IsOffered_example =
    merge_workspace_policies-IsOffered platform [] (app ∷ []) defaults (app_workspace ∷ [])
      (app_meta ∷ []) app_workspace refl (inl refl)

abbrev high_limits : PartialLimits
high_limits = record {
  max_file_bytes = some 1_000_000;
  max_search_results = some 5;
  max_search_snippet_bytes = none;
  max_diff_bytes = some 0;
  max_listed_files = none;
}

-- A path that one entry disables and a later one enables: no candidate opens it, but it is exposed where
-- explicit entries are always exposed.
abbrev disabled_entry : ExplicitPolicyInput
disabled_entry = record {
  workspace = record app_workspace { id = "off"; enabled = false };
  canonical_root_path = "/src/app";
}

abbrev enabled_entry : ExplicitPolicyInput
enabled_entry = record {
  workspace = record app_workspace { id = "on" };
  canonical_root_path = "/src/app";
}

abbrev deny_meta : WorkspaceCatalogEntryMeta
deny_meta = record app_meta { source = deny_index; id = "off"; enabled = false }

abbrev exposed_meta : WorkspaceCatalogEntryMeta
exposed_meta = record app_meta { source = explicit; id = "on" }

denied_when_open :
    merge_workspace_policies platform (disabled_entry ∷ enabled_entry ∷ []) (app ∷ []) defaults
    ≡ empty_policy
unfolding merge_workspace_policies any create_discovered_workspace trim includes put get
    canonical_path_key with_auto_write_access
denied_when_open = refl

exposed_when_always :
    merge_workspace_policies platform
      (disabled_entry ∷ enabled_entry ∷ [])
      (app ∷ [])
      (record defaults { always_expose_explicit = some true })
    ≡ policies (enabled_entry.workspace ∷ []) (deny_meta ∷ exposed_meta ∷ [])
unfolding merge_workspace_policies any create_discovered_workspace trim includes put get
    canonical_path_key with_auto_write_access
exposed_when_always = refl
