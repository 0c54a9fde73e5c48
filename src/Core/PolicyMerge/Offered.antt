-- ===== src/Core/PolicyMerge/Offered.antt =====
-- Why a workspace is in a merged policy, and with which access.
use mcp_access_stack_legacy.Prelude.{
  String, true, false, List, ◌or_else◌, IsIn, ◌≡◌, ◌≢◌, subst, sym,
}
use mcp_access_stack_legacy.Core.Policy.{
  WorkspaceLimits, WorkspacePolicy, Platform, canonical_path_key,
}
use mcp_access_stack_legacy.Core.PolicyMerge.{
  DiscoveredWorkspaceCandidate, ExplicitPolicyInput, WorkspaceCatalogEntryMeta,
  MergeWorkspacePoliciesOptions,
}
use mcp_access_stack_legacy.Core.PolicyMerge.Merge.{create_discovered_workspace}
use mcp_access_stack_legacy.Core.PolicyMerge.Outcome.{policies, merge_workspace_policies}
use mcp_access_stack_legacy.Core.PolicyMerge.Limits.{AreWithin}
use mcp_access_stack_legacy.Core.PolicyMerge.Access.{
  path_key, IsReadOnly, create_discovered-IsReadOnly, HasAccess, with_auto_write_access-HasAccess,
  HasOrdinaryNames, ordinary_names,
}
use mcp_access_stack_legacy.Core.PolicyMerge.Exposure.{IsExposed, opened, found, always}
use mcp_access_stack_legacy.Core.PolicyMerge.Sound.{merge_workspace_policies-IsExposed}

module _ (platform : Platform) (entries : List ExplicitPolicyInput)
    (discovered : List DiscoveredWorkspaceCandidate) (options : MergeWorkspacePoliciesOptions) where
  -- A candidate that may be opened.
  pub record MayOpen (c : DiscoveredWorkspaceCandidate) : Type 0 where
    pub candidate : IsIn c discovered
    pub included : (options.include_open_workspaces or_else true) ≡ true
    pub trusted : (options.require_trusted_workspace or_else true) ≡ true → c.trusted ≡ true
    pub not_denied :
        (e : ExplicitPolicyInput)
        → IsIn e entries
        → e.workspace.enabled ≡ false
        → path_key platform e.canonical_root_path ≢ path_key platform c.canonical_root_path

  abbrev pub AccessAt : String → WorkspacePolicy → WorkspacePolicy → Type 0
  AccessAt path = HasAccess platform options.auto_write path

  pub data IsOffered (w : WorkspacePolicy) : Type 0 where
    at_candidate :
        (e : ExplicitPolicyInput) (c : DiscoveredWorkspaceCandidate)
        → IsIn e entries
        → e.workspace.enabled ≡ true
        → path_key platform e.canonical_root_path ≡ path_key platform c.canonical_root_path
        → MayOpen c
        → AccessAt c.canonical_root_path e.workspace w
        → IsOffered w
    new :
        (c : DiscoveredWorkspaceCandidate) (v : WorkspacePolicy) (limits : WorkspaceLimits)
        → ((e : ExplicitPolicyInput)
            → IsIn e entries
            → path_key platform e.canonical_root_path ≢ path_key platform c.canonical_root_path)
        → HasOrdinaryNames platform c
        → MayOpen c
        → AreWithin limits
        → IsReadOnly c limits v
        → AccessAt c.canonical_root_path v w
        → IsOffered w
    always_exposed :
        (e : ExplicitPolicyInput)
        → IsIn e entries
        → e.workspace.enabled ≡ true
        → (options.always_expose_explicit or_else false) ≡ true
        → AccessAt e.canonical_root_path e.workspace w
        → IsOffered w

  exposed-IsOffered :
      (limits : WorkspaceLimits) (w : WorkspacePolicy)
      → AreWithin limits
      → IsExposed platform entries discovered options limits w
      → IsOffered w
  unfolding canonical_path_key
  exposed-IsOffered limits w within (opened e c i on same o p) =
      at_candidate e c i on same
        (record {
          candidate = o.candidate;
          included = o.included;
          trusted = o.trusted;
          not_denied = o.not_denied;
        })
        (subst (AccessAt c.canonical_root_path e.workspace) (sym p) (
          with_auto_write_access-HasAccess platform options.auto_write c.canonical_root_path
            e.workspace))
  exposed-IsOffered limits w within (found c id unlisted plain o p) =
      let v = create_discovered_workspace platform c limits id in
      new c v limits unlisted (ordinary_names platform c plain)
        (record {
          candidate = o.candidate;
          included = o.included;
          trusted = o.trusted;
          not_denied = o.not_denied;
        })
        within (create_discovered-IsReadOnly platform c limits id)
        (subst (AccessAt c.canonical_root_path v) (sym p)
          (with_auto_write_access-HasAccess platform options.auto_write c.canonical_root_path v))
  exposed-IsOffered limits w within (always e i on exposes p) = always_exposed e i on exposes (
      subst (AccessAt e.canonical_root_path e.workspace) (sym p) (
        with_auto_write_access-HasAccess platform options.auto_write e.canonical_root_path
          e.workspace))

  -- Every workspace of a merged policy is there for one of three reasons. An enabled explicit entry is at
  -- the path of a candidate that may be opened. Or such a candidate is at a path that no entry mentions and
  -- neither its name nor the last name of its paths is technical; then the workspace is made read-only,
  -- without write or shell access, with limits that are positive and under the ceilings. Or an explicit
  -- entry is enabled and explicit entries are always exposed, even at a path that another entry disables.
  -- A candidate may be opened if open workspaces are included, it is trusted where trust is required, and
  -- no explicit entry disables its path. The workspace stays as its entry or the candidate makes it, unless
  -- its canonical path is at or below a configured root for which writes are on: then it has full write and
  -- shell access with every shell, is an aggregate at the project root, and stays the same otherwise.
  pub merge_workspace_policies-IsOffered :
      (ws : List WorkspacePolicy) (catalog : List WorkspaceCatalogEntryMeta) (w : WorkspacePolicy)
      → merge_workspace_policies platform entries discovered options ≡ policies ws catalog
      → IsIn w ws
      → IsOffered w
  merge_workspace_policies-IsOffered ws catalog w e i =
      let (limits, within, exposed) =
        merge_workspace_policies-IsExposed platform entries discovered options ws catalog w e i in
      exposed-IsOffered limits w within exposed
