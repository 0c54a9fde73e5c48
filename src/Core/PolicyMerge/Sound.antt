-- ===== src/Core/PolicyMerge/Sound.antt =====
-- Every workspace of a merged policy is one that the configuration exposes.
use mcp_access_stack_legacy.Prelude.{
  true, false, List, [], ◌∷◌, if◌then◌else◌, ◌or_else◌, IsIn, ◌≡◌, ◌⊎◌, inl, inr, arith, Bool-cases,
  ap, sym, ◌∙◌, subst,
}
use mcp_access_stack_legacy.Prelude.Assoc.{Assoc, values}
use mcp_access_stack_legacy.Core.Policy.{WorkspaceLimits, WorkspacePolicy, Platform}
use mcp_access_stack_legacy.Core.PolicyMerge.{
  DiscoveredWorkspaceCandidate, ExplicitPolicyInput, WorkspaceCatalogEntryMeta,
  MergeWorkspacePoliciesOptions,
}
use mcp_access_stack_legacy.Core.PolicyMerge.Merge.{
  Merging, index_entries, merge_candidates, expose_entries,
}
use mcp_access_stack_legacy.Core.PolicyMerge.Outcome.{
  policies, insert, sort_by_id, no_index, merging_of, outcome_of, merge_with,
  merge_workspace_policies,
}
use mcp_access_stack_legacy.Core.PolicyMerge.Limits.{AreWithin, clamp_discovered_limits-AreWithin}
use mcp_access_stack_legacy.Core.PolicyMerge.Exposure.{IsExposed, AllExposed}
use mcp_access_stack_legacy.Core.PolicyMerge.Loops.{
  Exposes, if-true, if-false, index_entries-IsIndexed, no_index-IsIndexed, expose_entries-Exposes,
  merge_candidates-Exposes,
}

module _ (platform : Platform) where
  IsIn-insert :
      (v w : WorkspacePolicy) (ws : List WorkspacePolicy)
      → IsIn w (insert platform v ws)
      → (v ≡ w) ⊎ IsIn w ws
  unfolding insert
  IsIn-insert v w [] (inl p) = inl p
  IsIn-insert v w [] (inr p) = inr p
  IsIn-insert v w (u ∷ us) p = elim (Bool-cases (platform.locale_le v.id u.id)) [
    | inl before ↦ subst (IsIn w) (if-true _ (v ∷ u ∷ us) (u ∷ insert platform v us) before) p
    | inr after ↦
        elim (subst (IsIn w) (if-false _ (v ∷ u ∷ us) (u ∷ insert platform v us) after) p) [
          | inl here ↦ inr (inl here)
          | inr there ↦ elim (IsIn-insert v w us there) [
            | inl new ↦ inl new
            | inr old ↦ inr (inr old)
          ]
        ]
  ]

  IsIn-sort_by_id :
      (w : WorkspacePolicy) (ws : List WorkspacePolicy)
      → IsIn w (sort_by_id platform ws)
      → IsIn w ws
  unfolding sort_by_id
  IsIn-sort_by_id w [] p = p
  IsIn-sort_by_id w (v ∷ vs) p = elim (IsIn-insert v w (sort_by_id platform vs) p) [
    | inl here ↦ inl here
    | inr there ↦ inr (IsIn-sort_by_id w vs there)
  ]

  module _ (entries : List ExplicitPolicyInput) (discovered : List DiscoveredWorkspaceCandidate)
      (options : MergeWorkspacePoliciesOptions) where
    values-Exposed :
        (limits : WorkspaceLimits) (w : WorkspacePolicy) (m : Assoc WorkspacePolicy)
        → AllExposed platform entries discovered options limits m
        → IsIn w (values m)
        → IsExposed platform entries discovered options limits w
    unfolding values
    values-Exposed limits w [] p i = absurd i
    values-Exposed limits w ((k, v) ∷ m) (p, ps) (inl here) =
        subst (IsExposed platform entries discovered options limits) here p
    values-Exposed limits w ((k, v) ∷ m) (p, ps) (inr there) = values-Exposed limits w m ps there

    merging_of-Exposes :
        (limits : WorkspaceLimits)
        → AllExposed platform entries discovered options limits
            (merging_of platform limits entries discovered options).merged
    unfolding merging_of
    merging_of-Exposes limits =
        let index = index_entries platform (no_index platform) entries in
        let x =
          index_entries-IsIndexed platform entries discovered options limits [] entries
            (no_index platform) (λ e i. i)
            (no_index-IsIndexed platform entries discovered options limits) in
        let start : Merging = record {
          merged = [];
          catalog = index.catalog;
          used_ids = index.used_ids;
        } in
        let E = Exposes platform entries discovered options limits in
        let all_opened = merge_candidates platform options limits index start discovered in
        let open_part = options.include_open_workspaces or_else true in
        let opened_Exposes : E (if open_part then all_opened else start) =
          elim (Bool-cases open_part) [
            | inl on ↦ subst E (sym (if-true _ all_opened start on)) (
                merge_candidates-Exposes platform entries discovered options limits discovered start
                  index x (λ c i. i) on tt)
            | inr off ↦ subst E (sym (if-false _ all_opened start off)) tt
          ] in
        elim (Bool-cases (options.always_expose_explicit or_else false)) [
          | inl on ↦ subst E (sym (if-true _ _ (if open_part then all_opened else start) on)) (
              expose_entries-Exposes platform entries discovered options limits entries
                (if open_part then all_opened else start) (λ e i. i) on opened_Exposes)
          | inr off ↦
              subst E
                (sym (
                  if-false _
                    (expose_entries platform options (if open_part then all_opened else start)
                      entries)
                    _ off))
                opened_Exposes
        ]

    outcome_of-policies :
        (ws vs : List WorkspacePolicy) (c d : List WorkspaceCatalogEntryMeta)
        → outcome_of ws c ≡ policies vs d
        → ws ≡ vs
    outcome_of-policies [] vs c d e = absurd (ground arith)
    outcome_of-policies (w ∷ ws) vs c d e = ground arith

    -- The reasons in terms of the functions that make a workspace.
    pub merge_workspace_policies-IsExposed :
        (ws : List WorkspacePolicy) (catalog : List WorkspaceCatalogEntryMeta) (w : WorkspacePolicy)
        → merge_workspace_policies platform entries discovered options ≡ policies ws catalog
        → IsIn w ws
        → (limits : WorkspaceLimits) × AreWithin limits
          × IsExposed platform entries discovered options limits w
    unfolding merge_workspace_policies
    merge_workspace_policies-IsExposed ws catalog w e i =
        let l = clamp_discovered_limits-AreWithin options.discovered_limits_override in
        let m = merging_of platform l.0 entries discovered options in
        let sorted : sort_by_id platform (values m.merged) ≡ ws =
          outcome_of-policies (sort_by_id platform (values m.merged)) ws m.catalog catalog
            (sym (ap (merge_with platform entries discovered options) l.1) ∙ e) in
        (
          l.0,
          l.2,
          values-Exposed l.0 w m.merged (merging_of-Exposes l.0)
              (IsIn-sort_by_id w (values m.merged) (subst (IsIn w) (sym sorted) i)),
        )
