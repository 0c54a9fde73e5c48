-- ===== src/Core/PolicyMerge/Exposure.antt =====
-- When a configuration exposes a workspace, and what the loop over the explicit entries finds.
use mcp_access_stack_legacy.Prelude.{
  String, Bool, true, false, not, ◌||◌, ◌&&◌, List, [], ◌∷◌, none, some, if◌then◌else◌, str_eq,
  includes, ◌or_else◌, IsIn, ◌≡◌, refl, inl, inr, arith, eq_iff, ◌≢◌, Bool-cases, ap, sym, ◌∙◌,
}
use mcp_access_stack_legacy.Prelude.Assoc.{Assoc, get, put, get-put}
use mcp_access_stack_legacy.Core.Policy.{
  WorkspaceLimits, WorkspacePolicy, Platform, canonical_path_key, with_auto_write_access,
}
use mcp_access_stack_legacy.Core.PolicyMerge.{
  DiscoveredWorkspaceCandidate, ExplicitPolicyInput, MergeWorkspacePoliciesOptions,
}
use mcp_access_stack_legacy.Core.PolicyMerge.Merge.{
  Index, is_implicit_technical_workspace_candidate, create_discovered_workspace, index_entry,
}

module _ (platform : Platform) (entries : List ExplicitPolicyInput)
    (discovered : List DiscoveredWorkspaceCandidate) (options : MergeWorkspacePoliciesOptions)
    (limits : WorkspaceLimits) where
  abbrev pub key_of : String → String
  key_of path = canonical_path_key platform path

  -- No explicit entry disables the key.
  abbrev pub IsNotDenied : String → Type 0
  IsNotDenied key =
      (e : ExplicitPolicyInput)
      → IsIn e entries
      → e.workspace.enabled ≡ false
      → key_of e.canonical_root_path ≢ key

  -- No explicit entry has the key.
  abbrev pub IsUnlisted : String → Type 0
  IsUnlisted key = (e : ExplicitPolicyInput) → IsIn e entries → key_of e.canonical_root_path ≢ key

  -- A candidate that may be opened.
  pub record IsOpen (c : DiscoveredWorkspaceCandidate) : Type 0 where
    pub candidate : IsIn c discovered
    pub included : (options.include_open_workspaces or_else true) ≡ true
    pub trusted : (options.require_trusted_workspace or_else true) ≡ true → c.trusted ≡ true
    pub not_denied : IsNotDenied (key_of c.canonical_root_path)

  -- Why a workspace is in the policy.
  pub data IsExposed (w : WorkspacePolicy) : Type 0 where
    opened :
        (e : ExplicitPolicyInput) (c : DiscoveredWorkspaceCandidate)
        → IsIn e entries
        → e.workspace.enabled ≡ true
        → key_of e.canonical_root_path ≡ key_of c.canonical_root_path
        → IsOpen c
        → w ≡ with_auto_write_access platform e.workspace c.canonical_root_path options.auto_write
        → IsExposed w
    found :
        (c : DiscoveredWorkspaceCandidate) (id : String)
        → IsUnlisted (key_of c.canonical_root_path)
        → is_implicit_technical_workspace_candidate platform c ≡ false
        → IsOpen c
        → w
          ≡ with_auto_write_access platform
              (create_discovered_workspace platform c limits id)
              c.canonical_root_path
              options.auto_write
        → IsExposed w
    always :
        (e : ExplicitPolicyInput)
        → IsIn e entries
        → e.workspace.enabled ≡ true
        → (options.always_expose_explicit or_else false) ≡ true
        → w ≡ with_auto_write_access platform e.workspace e.canonical_root_path options.auto_write
        → IsExposed w

  abbrev pub AllExposed : Assoc WorkspacePolicy → Type 0
  AllExposed [] = Unit
  AllExposed ((k, w) ∷ m) = IsExposed w × AllExposed m

  pub put-AllExposed :
      (k : String) (w : WorkspacePolicy) (m : Assoc WorkspacePolicy)
      → IsExposed w
      → AllExposed m
      → AllExposed (put k w m)
  unfolding put
  put-AllExposed k w [] p ps = (p, tt)
  put-AllExposed k w ((j, v) ∷ m) p (q, qs) = elim (Bool-cases (str_eq j k)) [
    | inl same ↦ rw same (p, qs)
    | inr other ↦ rw other (q, put-AllExposed k w m p qs)
  ]

  -- What the first loop has found, of the entries that it has seen.
  pub record IsIndexed (seen : List ExplicitPolicyInput) (index : Index) : Type 0 where
    pub listed :
        (k : String) (w : WorkspacePolicy)
        → get k index.explicit_by_path ≡ some w
        → (e : ExplicitPolicyInput) × IsIn e entries
          × (e.workspace ≡ w)
          × (key_of e.canonical_root_path ≡ k)
    pub unlisted :
        (k : String)
        → get k index.explicit_by_path ≡ none
        → (e : ExplicitPolicyInput) → IsIn e seen
        → key_of e.canonical_root_path ≢ k
    pub denied :
        (k : String)
        → includes index.deny_paths k ≡ false
        → (e : ExplicitPolicyInput) → IsIn e seen
        → e.workspace.enabled ≡ false
        → key_of e.canonical_root_path ≢ k

  index_entry-get :
      (index : Index) (e : ExplicitPolicyInput) (k : String)
      → get k (index_entry platform index e).explicit_by_path ≡ (
          if str_eq (key_of e.canonical_root_path) k
          then some e.workspace
          else get k index.explicit_by_path)
  unfolding index_entry
  index_entry-get index e k =
      ap (get k) (either e.workspace.enabled _ _ refl)
      ∙ get-put k (key_of e.canonical_root_path) e.workspace index.explicit_by_path
    where
      either :
          (b : Bool) (x y : Index)
          → x.explicit_by_path ≡ y.explicit_by_path
          → (if b then x else y).explicit_by_path ≡ x.explicit_by_path
      either true x y p = refl
      either false x y p = sym p

  index_entry-denies :
      (index : Index) (e : ExplicitPolicyInput) (k : String)
      → includes (index_entry platform index e).deny_paths k ≡ (
          (not e.workspace.enabled && str_eq (key_of e.canonical_root_path) k)
          || includes index.deny_paths k)
  unfolding index_entry includes
  index_entry-denies index e k = elim (Bool-cases e.workspace.enabled) [
    | inl on ↦ rw on refl
    | inr off ↦ rw off refl
  ]

  pub index_entry-IsIndexed :
      (seen : List ExplicitPolicyInput) (index : Index) (e : ExplicitPolicyInput)
      → IsIn e entries
      → IsIndexed seen index
      → IsIndexed (e ∷ seen) (index_entry platform index e)
  index_entry-IsIndexed seen index e i p = record {
    listed = λ k w h. elim (Bool-cases (str_eq (key_of e.canonical_root_path) k)) [
      | inl same ↦ (
        e,
        i,
        some-injective _ w (sym (rw same refl) ∙ (sym (index_entry-get index e k) ∙ h)),
        (eq_iff _ _).0 same,
      )
      | inr other ↦ p.listed k w (sym (rw other refl) ∙ (sym (index_entry-get index e k) ∙ h))
    ];
    unlisted = λ k h f j same. elim j [
      | inl here ↦ absurd (
          none-some e.workspace (
            sym h
            ∙ (index_entry-get index e k
                ∙ rw
                    ((eq_iff (key_of e.canonical_root_path) k).1
                      (ap (λ (x : ExplicitPolicyInput). key_of x.canonical_root_path) here ∙ same))
                    refl)))
      | inr there ↦ elim (Bool-cases (str_eq (key_of e.canonical_root_path) k)) [
        | inl clash ↦
            absurd (none-some e.workspace (sym h ∙ (index_entry-get index e k ∙ rw clash refl)))
        | inr other ↦
            p.unlisted k (sym (rw other refl) ∙ (sym (index_entry-get index e k) ∙ h)) f there same
      ]
    ];
    denied = λ k h f j off same.
        let g = sym (index_entry-denies index e k) ∙ h in
        elim j [
          | inl here ↦
              (let here_off : e.workspace.enabled ≡ false =
                  ap (λ (x : ExplicitPolicyInput). x.workspace.enabled) here ∙ off in
                ground (
                  arith,
                  g,
                  here_off,
                  (eq_iff (key_of e.canonical_root_path) k).1
                      (ap (λ (x : ExplicitPolicyInput). key_of x.canonical_root_path) here ∙ same),
                ))
          | inr there ↦ p.denied k (ground (arith, g)) f there off same
        ];
  }
    where
      some-injective : (x y : WorkspacePolicy) → some x ≡ some y → x ≡ y
      some-injective x y e = ground arith

      none-some : (x : WorkspacePolicy) → none ≡ some x → ⊥
      none-some x e = ground arith
