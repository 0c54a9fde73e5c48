-- ===== src/Core/PolicyMerge/Loops.antt =====
-- The loops of a merge add workspaces that the configuration exposes, and no others.
use mcp_access_stack_legacy.Prelude.{
  String, Bool, true, false, not, ◌&&◌, List, [], ◌∷◌, Option, none, some, if◌then◌else◌, includes,
  ◌or_else◌, IsIn, ◌≡◌, refl, ◌⊎◌, inl, inr, arith, Bool-cases, ap, sym, ◌∙◌, subst,
}
use mcp_access_stack_legacy.Prelude.Assoc.{get, has}
use mcp_access_stack_legacy.Core.Policy.{
  WorkspaceLimits, WorkspacePolicy, Platform, canonical_path_key, with_auto_write_access,
}
use mcp_access_stack_legacy.Core.PolicyMerge.{
  DiscoveredWorkspaceCandidate, ExplicitPolicyInput, MergeWorkspacePoliciesOptions,
}
use mcp_access_stack_legacy.Core.PolicyMerge.Merge.{
  Index, Merging, is_implicit_technical_workspace_candidate, create_discovered_workspace,
  index_entry, index_entries, expose, expose_discovered, merge_candidate, merge_found,
  merge_candidates, expose_entry, expose_entries, discovered_id,
}
use mcp_access_stack_legacy.Core.PolicyMerge.Outcome.{no_index}
use mcp_access_stack_legacy.Core.PolicyMerge.Exposure.{
  key_of, IsUnlisted, IsOpen, IsExposed, opened, found, always, AllExposed, put-AllExposed,
  IsIndexed, index_entry-IsIndexed,
}

-- Every element of one list is in another.
abbrev pub AreIn : {A : Type 0} → List A → List A → Type 0
AreIn {A} xs ys = (x : A) → IsIn x xs → IsIn x ys

-- The entries in the order that the loop has seen them, latest first.
abbrev pub seen_after :
    List ExplicitPolicyInput → List ExplicitPolicyInput → List ExplicitPolicyInput
seen_after seen [] = seen
seen_after seen (e ∷ rest) = seen_after (e ∷ seen) rest

AreIn-seen_after :
    (seen rest : List ExplicitPolicyInput) (x : ExplicitPolicyInput)
    → IsIn x seen ⊎ IsIn x rest
    → IsIn x (seen_after seen rest)
AreIn-seen_after seen [] x (inl p) = p
AreIn-seen_after seen [] x (inr p) = absurd p
AreIn-seen_after seen (e ∷ rest) x (inl p) = AreIn-seen_after (e ∷ seen) rest x (inl (inr p))
AreIn-seen_after seen (e ∷ rest) x (inr (inl p)) = AreIn-seen_after (e ∷ seen) rest x (inl (inl p))
AreIn-seen_after seen (e ∷ rest) x (inr (inr p)) = AreIn-seen_after (e ∷ seen) rest x (inr p)

-- A conditional, by what its test says.
pub if-true : {A : Type 0} (b : Bool) (x y : A) → b ≡ true → (if b then x else y) ≡ x
if-true b x y e = rw e refl

pub if-false : {A : Type 0} (b : Bool) (x y : A) → b ≡ false → (if b then x else y) ≡ y
if-false b x y e = rw e refl

module _ (platform : Platform) (entries : List ExplicitPolicyInput)
    (discovered : List DiscoveredWorkspaceCandidate) (options : MergeWorkspacePoliciesOptions)
    (limits : WorkspaceLimits) where
  abbrev pub Indexed : List ExplicitPolicyInput → Index → Type 0
  Indexed = IsIndexed platform entries discovered options limits

  abbrev pub Exposes : Merging → Type 0
  Exposes m = AllExposed platform entries discovered options limits m.merged

  abbrev pub Exposed : WorkspacePolicy → Type 0
  Exposed = IsExposed platform entries discovered options limits

  pub index_entries-IsIndexed :
      (seen rest : List ExplicitPolicyInput) (index : Index)
      → AreIn rest entries
      → Indexed seen index
      → Indexed (seen_after seen rest) (index_entries platform index rest)
  unfolding index_entries
  index_entries-IsIndexed seen [] index i p = p
  index_entries-IsIndexed seen (e ∷ rest) index i p =
      index_entries-IsIndexed (e ∷ seen) rest (index_entry platform index e) (λ x j. i x (inr j))
        (index_entry-IsIndexed platform entries discovered options limits seen index e
          (i e (inl refl)) p)

  pub no_index-IsIndexed : Indexed [] (no_index platform)
  unfolding get
  no_index-IsIndexed = record {
    listed = λ k w h. absurd (none-some w h);
    unlisted = λ k h e i same. i;
    denied = λ k h e i off same. i;
  }
    where
      none-some : (x : WorkspacePolicy) → none ≡ some x → ⊥
      none-some x e = ground arith

  expose-Exposes :
      (m : Merging) (w : WorkspacePolicy) (path : String) (trusted : Bool)
      → Exposed (with_auto_write_access platform w path options.auto_write)
      → Exposes m
      → Exposes (expose platform options m w path trusted)
  unfolding expose
  expose-Exposes m w path trusted p q =
      put-AllExposed platform entries discovered options limits (canonical_path_key platform path)
        (with_auto_write_access platform w path options.auto_write) m.merged p q

  expose_entry-Exposes :
      (m : Merging) (e : ExplicitPolicyInput)
      → IsIn e entries
      → (options.always_expose_explicit or_else false) ≡ true
      → Exposes m
      → Exposes (expose_entry platform options m e)
  unfolding expose_entry
  expose_entry-Exposes m e i on p = elim (Bool-cases (not e.workspace.enabled)) [
    | inl off ↦ subst Exposes (sym (if-true _ _ _ off)) p
    | inr enabled ↦
        elim (Bool-cases (has (canonical_path_key platform e.canonical_root_path) m.merged)) [
          | inl taken ↦ subst Exposes (sym (if-false _ _ _ enabled ∙ if-true _ _ _ taken)) p
          | inr free ↦ subst Exposes (sym (if-false _ _ _ enabled ∙ if-false _ _ _ free)) (
              expose-Exposes m e.workspace e.canonical_root_path true
                (always e i (ground (arith, enabled)) on refl) p)
        ]
  ]

  pub expose_entries-Exposes :
      (rest : List ExplicitPolicyInput) (m : Merging)
      → AreIn rest entries
      → (options.always_expose_explicit or_else false) ≡ true
      → Exposes m
      → Exposes (expose_entries platform options m rest)
  unfolding expose_entries
  expose_entries-Exposes [] m i on p = p
  expose_entries-Exposes (e ∷ rest) m i on p =
      expose_entries-Exposes rest (expose_entry platform options m e) (λ x j. i x (inr j)) on
        (expose_entry-Exposes m e (i e (inl refl)) on p)

  expose_discovered-Exposes :
      (m : Merging) (c : DiscoveredWorkspaceCandidate)
      → IsUnlisted platform entries discovered options limits
          (key_of platform entries discovered options limits c.canonical_root_path)
      → is_implicit_technical_workspace_candidate platform c ≡ false
      → IsOpen platform entries discovered options limits c
      → Exposes m
      → Exposes (expose_discovered platform options limits m c)
  unfolding expose_discovered
  expose_discovered-Exposes m c unlisted plain open_c p =
      let id = discovered_id platform c m.used_ids in
      put-AllExposed platform entries discovered options limits
        (canonical_path_key platform c.canonical_root_path)
        (with_auto_write_access platform (create_discovered_workspace platform c limits id)
          c.canonical_root_path options.auto_write)
        m.merged (found c id unlisted plain open_c refl) p

  merge_found-Exposes :
      (m : Merging) (c : DiscoveredWorkspaceCandidate) (index : Index) (o : Option WorkspacePolicy)
      → Indexed (seen_after [] entries) index
      → get (canonical_path_key platform c.canonical_root_path) index.explicit_by_path ≡ o
      → IsOpen platform entries discovered options limits c
      → Exposes m
      → Exposes (merge_found platform options limits m c o)
  merge_found-Exposes m c index (some w) x g open_c p =
      let l = x.listed (canonical_path_key platform c.canonical_root_path) w g in
      elim (Bool-cases w.enabled) [
        | inl on ↦ subst Exposes (sym (if-true _ _ _ on)) (
            expose-Exposes m w c.canonical_root_path c.trusted
              (opened l.0 c l.1 (ap (λ (v : WorkspacePolicy). v.enabled) l.2 ∙ on) l.3 open_c (
                ap (λ v. with_auto_write_access platform v c.canonical_root_path options.auto_write)
                  (sym l.2)))
              p)
        | inr off ↦ subst Exposes (sym (if-false _ _ _ off)) p
      ]
  merge_found-Exposes m c index none x g open_c p =
      elim (Bool-cases (is_implicit_technical_workspace_candidate platform c)) [
        | inl technical ↦ subst Exposes (sym (if-true _ _ _ technical)) p
        | inr plain ↦ subst Exposes (sym (if-false _ _ _ plain)) (
            expose_discovered-Exposes m c
              (λ e i.
                x.unlisted (canonical_path_key platform c.canonical_root_path) g e
                  (AreIn-seen_after [] entries e (inr i)))
              plain open_c p)
      ]

  merge_candidate-Exposes :
      (m : Merging) (c : DiscoveredWorkspaceCandidate) (index : Index)
      → Indexed (seen_after [] entries) index
      → IsIn c discovered
      → (options.include_open_workspaces or_else true) ≡ true
      → Exposes m
      → Exposes (merge_candidate platform options limits index m c)
  unfolding merge_candidate
  merge_candidate-Exposes m c index x i on p =
      let key = canonical_path_key platform c.canonical_root_path in
      elim (Bool-cases ((options.require_trusted_workspace or_else true) && not c.trusted)) [
        | inl refused ↦ subst Exposes (sym (if-true _ _ _ refused)) p
        | inr accepted ↦ elim (Bool-cases (includes index.deny_paths key)) [
          | inl denied ↦ subst Exposes (sym (if-false _ _ _ accepted ∙ if-true _ _ _ denied)) p
          | inr free ↦ subst Exposes (sym (if-false _ _ _ accepted ∙ if-false _ _ _ free)) (
              merge_found-Exposes m c index (get key index.explicit_by_path) x refl
                (record {
                  candidate = i;
                  included = on;
                  trusted = λ t. ground (arith, accepted, t);
                  not_denied =
                      λ e j off. x.denied key free e (AreIn-seen_after [] entries e (inr j)) off;
                })
                p)
        ]
      ]

  pub merge_candidates-Exposes :
      (rest : List DiscoveredWorkspaceCandidate) (m : Merging) (index : Index)
      → Indexed (seen_after [] entries) index
      → AreIn rest discovered
      → (options.include_open_workspaces or_else true) ≡ true
      → Exposes m
      → Exposes (merge_candidates platform options limits index m rest)
  unfolding merge_candidates
  merge_candidates-Exposes [] m index x i on p = p
  merge_candidates-Exposes (c ∷ rest) m index x i on p =
      merge_candidates-Exposes rest (merge_candidate platform options limits index m c) index x
        (λ d j. i d (inr j)) on (merge_candidate-Exposes m c index x (i c (inl refl)) on p)
