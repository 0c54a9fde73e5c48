-- ===== src/Core/PolicyMerge/Merge.antt =====
-- packages/mcp-core/src/policy-merge.ts: `mergeWorkspacePolicies`. Its maps, sets and lists are the fields
-- of a record that each turn of a loop passes on.
use mcp_access_stack_legacy.Prelude.{
  String, Bool, true, false, not, ◌||◌, ◌&&◌, List, [], ◌∷◌, ◌++◌, Option, none, some, concat,
  if◌then◌else◌, str_eq, includes, any, ◌or_else◌,
}
use mcp_access_stack_legacy.Prelude.Assoc.{Assoc, get, put, has}
use mcp_access_stack_legacy.Core.Text.{codes, starts_with, trim}
use mcp_access_stack_legacy.Core.Policy.{
  WorkspaceLimits, WorkspacePolicy, standard, repository, Platform, without_last_slashes,
  canonical_path_key, with_auto_write_access,
}
use mcp_access_stack_legacy.Agent.Permissions.{planning_readonly}
use mcp_access_stack_legacy.Agent.CommandAnalysis.{powershell}
use mcp_access_stack_legacy.Agent.PathSecurity.{portable, split, split_at}
use mcp_access_stack_legacy.Agent.PathSecurity.Authorize.{last_of}
use mcp_access_stack_legacy.Core.PolicyMerge.{
  DiscoveredWorkspaceCandidate, ExplicitPolicyInput, explicit, discovered, deny_index,
  WorkspaceCatalogEntryMeta, MergeWorkspacePoliciesOptions, implicit_technical_workspace_names,
  dashed, without_first_dashes, without_last_dashes, take, safe_characters,
}

-- What the loop over the explicit entries fills.
pub record Index : Type 0 where
  pub explicit_by_path : Assoc WorkspacePolicy
  pub deny_paths : List String
  pub catalog : List WorkspaceCatalogEntryMeta
  pub used_ids : List String

-- What the later loops fill.
pub record Merging : Type 0 where
  pub merged : Assoc WorkspacePolicy
  pub catalog : List WorkspaceCatalogEntryMeta
  pub used_ids : List String

module _ (platform : Platform) where
  unfoldable pub slugify : String → String
  unfolding dashed without_first_dashes without_last_dashes take
  slugify value =
      let slug = take 32 (
        without_last_dashes
          (without_first_dashes (dashed false (platform.to_lower_case (trim value))))) in
      if str_eq slug "" then "workspace" else slug

  unfoldable pub build_discovered_id : DiscoveredWorkspaceCandidate → String
  unfolding slugify safe_characters
  build_discovered_id candidate = safe_characters (
      concat (slugify candidate.name)
        (concat "-" (platform.short_hash candidate.canonical_root_path)))

  unfoldable pub leaf_name : String → String
  unfolding portable without_last_slashes split_at
  leaf_name file_path = last_of (split (without_last_slashes (portable file_path)))

  unfoldable pub is_implicit_technical_workspace_candidate : DiscoveredWorkspaceCandidate → Bool
  unfolding leaf_name
  is_implicit_technical_workspace_candidate candidate =
      any
        (λ value.
          let name = platform.to_lower_case (trim value) in
          starts_with (codes name) (codes ".") || includes implicit_technical_workspace_names name)
        (candidate.name
          ∷ leaf_name candidate.root_path
          ∷ leaf_name candidate.canonical_root_path
          ∷ [])

  unfoldable pub discovered_id : DiscoveredWorkspaceCandidate → (used_ids : List String) → String
  unfolding build_discovered_id
  discovered_id candidate used_ids =
      let id = build_discovered_id candidate in
      if includes used_ids id
      then concat id
          (concat "-" (platform.short_hash (concat candidate.canonical_root_path ":collision")))
      else id

  unfoldable pub create_discovered_workspace :
      DiscoveredWorkspaceCandidate → WorkspaceLimits → (id : String) → WorkspacePolicy
  create_discovered_workspace candidate limits id = record {
    id = id;
    name = candidate.name;
    root_path = candidate.root_path;
    workspace_kind = some repository;
    enabled = true;
    permission_profile = planning_readonly;
    confirmation_mode = standard;
    allowed_roots = "." ∷ [];
    blocked_globs = [];
    limits = limits;
    allow_writes = [];
    allow_shell = [];
    allowed_shells = powershell ∷ [];
    source_control = none;
  }

  -- One explicit entry in the first loop.
  unfoldable pub index_entry : Index → ExplicitPolicyInput → Index
  index_entry index entry =
      let workspace = entry.workspace in
      let key = canonical_path_key platform entry.canonical_root_path in
      let indexed : Index = record index {
        explicit_by_path = put key workspace index.explicit_by_path;
        used_ids = workspace.id ∷ index.used_ids;
      } in
      if workspace.enabled then indexed else record indexed {
        deny_paths = key ∷ index.deny_paths;
        catalog =
            index.catalog
            ++ (record {
              source = deny_index;
              id = workspace.id;
              name = workspace.name;
              root_path = workspace.root_path;
              canonical_root_path = entry.canonical_root_path;
              trusted = true;
              enabled = false;
            }
                ∷ []);
      }

  unfoldable pub index_entries : Index → List ExplicitPolicyInput → Index
  unfolding index_entry
  index_entries index [] = index
  index_entries index (entry ∷ rest) = index_entries (index_entry index entry) rest

  module _ (options : MergeWorkspacePoliciesOptions) where
    abbrev pub explicit_meta : WorkspacePolicy → String → Bool → WorkspaceCatalogEntryMeta
    explicit_meta workspace canonical_root_path trusted = record {
      source = explicit;
      id = workspace.id;
      name = workspace.name;
      root_path = workspace.root_path;
      canonical_root_path = canonical_root_path;
      trusted = trusted;
      enabled = true;
    }

    -- A workspace with its write access, under its key.
    unfoldable pub expose : Merging → WorkspacePolicy → String → Bool → Merging
    expose m workspace canonical_root_path trusted = record m {
      merged =
          put (canonical_path_key platform canonical_root_path)
            (with_auto_write_access platform workspace canonical_root_path options.auto_write)
            m.merged;
      catalog = m.catalog ++ (explicit_meta workspace canonical_root_path trusted ∷ []);
    }

    -- A discovered workspace that no entry mentions.
    unfoldable pub expose_discovered :
        WorkspaceLimits → Merging → DiscoveredWorkspaceCandidate → Merging
    unfolding discovered_id create_discovered_workspace
    expose_discovered limits m candidate =
        let id = discovered_id candidate m.used_ids in
        let workspace =
          with_auto_write_access platform (create_discovered_workspace candidate limits id)
            candidate.canonical_root_path options.auto_write in
        record {
          merged =
              put (canonical_path_key platform candidate.canonical_root_path) workspace m.merged;
          catalog =
              m.catalog
              ++ (record {
                source = discovered;
                id = workspace.id;
                name = workspace.name;
                root_path = workspace.root_path;
                canonical_root_path = candidate.canonical_root_path;
                trusted = candidate.trusted;
                enabled = true;
              }
                  ∷ []);
          used_ids = id ∷ m.used_ids;
        }

    -- A candidate with the explicit entry at its key, if there is one.
    abbrev pub merge_found :
        WorkspaceLimits → Merging → DiscoveredWorkspaceCandidate → Option WorkspacePolicy → Merging
    merge_found limits m candidate (some workspace) =
        if workspace.enabled
        then expose m workspace candidate.canonical_root_path candidate.trusted
        else m
    merge_found limits m candidate none =
        if is_implicit_technical_workspace_candidate candidate
        then m
        else expose_discovered limits m candidate

    -- One candidate in the second loop.
    unfoldable pub merge_candidate :
        WorkspaceLimits → Index → Merging → DiscoveredWorkspaceCandidate → Merging
    unfolding expose expose_discovered is_implicit_technical_workspace_candidate
    merge_candidate limits index m candidate =
        let key = canonical_path_key platform candidate.canonical_root_path in
        if (options.require_trusted_workspace or_else true) && not candidate.trusted
        then m
        else if includes index.deny_paths key
        then m
        else merge_found limits m candidate (get key index.explicit_by_path)

    unfoldable pub merge_candidates :
        WorkspaceLimits → Index → Merging → List DiscoveredWorkspaceCandidate → Merging
    unfolding merge_candidate
    merge_candidates limits index m [] = m
    merge_candidates limits index m (candidate ∷ rest) =
        merge_candidates limits index (merge_candidate limits index m candidate) rest

    -- One explicit entry in the third loop.
    unfoldable pub expose_entry : Merging → ExplicitPolicyInput → Merging
    unfolding expose
    expose_entry m entry =
        if not entry.workspace.enabled
        then m
        else if has (canonical_path_key platform entry.canonical_root_path) m.merged
        then m
        else expose m entry.workspace entry.canonical_root_path true

    unfoldable pub expose_entries : Merging → List ExplicitPolicyInput → Merging
    unfolding expose_entry
    expose_entries m [] = m
    expose_entries m (entry ∷ rest) = expose_entries (expose_entry m entry) rest
