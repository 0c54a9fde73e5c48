-- ===== src/Core/PolicyMerge/Outcome.antt =====
-- packages/mcp-core/src/policy-merge.ts: the three loops of `mergeWorkspacePolicies` in a row. The stable
-- sort by `localeCompare` is an insertion sort.
use mcp_access_stack_legacy.Prelude.{
  true, false, List, [], ◌∷◌, Option, none, some, if◌then◌else◌, ◌or_else◌,
}
use mcp_access_stack_legacy.Prelude.Assoc.{values}
use mcp_access_stack_legacy.Core.Policy.{WorkspaceLimits, WorkspacePolicy, Platform}
use mcp_access_stack_legacy.Core.PolicyMerge.{
  DiscoveredWorkspaceCandidate, ExplicitPolicyInput, WorkspaceCatalogEntryMeta,
  MergeWorkspacePoliciesOptions, clamp_discovered_limits,
}
use mcp_access_stack_legacy.Core.PolicyMerge.Merge.{
  Index, Merging, index_entries, merge_candidates, expose_entries,
}

-- The exceptions are that of the schema of the limits, and MERGE_EMPTY_POLICY.
pub data MergeOutcome : Type 0 where
  policies : List WorkspacePolicy → List WorkspaceCatalogEntryMeta → MergeOutcome
  empty_policy invalid_limits : MergeOutcome

abbrev pub outcome_of : List WorkspacePolicy → List WorkspaceCatalogEntryMeta → MergeOutcome
outcome_of [] catalog = empty_policy
outcome_of (w ∷ ws) catalog = policies (w ∷ ws) catalog

module _ (platform : Platform) where
  unfoldable pub insert : WorkspacePolicy → List WorkspacePolicy → List WorkspacePolicy
  insert w [] = w ∷ []
  insert w (v ∷ vs) =
      let rest = insert w vs in if platform.locale_le w.id v.id then w ∷ v ∷ vs else v ∷ rest

  unfoldable pub sort_by_id : List WorkspacePolicy → List WorkspacePolicy
  unfolding insert
  sort_by_id [] = []
  sort_by_id (w ∷ ws) = insert w (sort_by_id ws)

  abbrev pub no_index : Index
  no_index = record { explicit_by_path = []; deny_paths = []; catalog = []; used_ids = [] }

  unfoldable pub merging_of :
      WorkspaceLimits
      → List ExplicitPolicyInput
      → List DiscoveredWorkspaceCandidate
      → MergeWorkspacePoliciesOptions
      → Merging
  unfolding index_entries merge_candidates expose_entries
  merging_of limits entries discovered options =
      let index = index_entries platform no_index entries in
      let start : Merging = record {
        merged = [];
        catalog = index.catalog;
        used_ids = index.used_ids;
      } in
      let opened =
        if options.include_open_workspaces or_else true
        then merge_candidates platform options limits index start discovered
        else start in
      if options.always_expose_explicit or_else false
      then expose_entries platform options opened entries
      else opened

  -- The merge, with the limits of discovered workspaces.
  abbrev pub merge_with :
      List ExplicitPolicyInput
      → List DiscoveredWorkspaceCandidate
      → MergeWorkspacePoliciesOptions
      → Option WorkspaceLimits
      → MergeOutcome
  merge_with entries discovered options none = invalid_limits
  merge_with entries discovered options (some limits) =
      let m = merging_of limits entries discovered options in
      outcome_of (sort_by_id (values m.merged)) m.catalog

  unfoldable pub merge_workspace_policies :
      List ExplicitPolicyInput
      → List DiscoveredWorkspaceCandidate
      → MergeWorkspacePoliciesOptions
      → MergeOutcome
  unfolding clamp_discovered_limits merging_of sort_by_id values
  merge_workspace_policies entries discovered options =
      merge_with entries discovered options
        (clamp_discovered_limits options.discovered_limits_override)
