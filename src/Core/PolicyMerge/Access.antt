-- ===== src/Core/PolicyMerge/Access.antt =====
-- packages/mcp-core/src/project-write-policy.ts and policy-merge.ts: the access of a workspace in a merged
-- policy, in the terms of the configured roots.
use mcp_access_stack_legacy.Prelude.{
  String, Bool, true, false, ◌||◌, ◌&&◌, [], ◌∷◌, Option, none, some, concat, if◌then◌else◌, str_eq,
  includes, any, ◌≡◌, ◌≢◌, refl, ◌⊎◌, inl, inr, ◌↔◌, arith, eq_iff, Bool-cases, ◌∙◌,
}
use mcp_access_stack_legacy.Core.Text.{trim}
use mcp_access_stack_legacy.Core.Policy.{
  WorkspaceLimits, WorkspacePolicy, standard, repository, aggregate, Platform,
  AutoWritePolicyOptions, without_last_slashes, canonical_path_key, is_under_configured_root,
  at_root, is_auto_write_eligible, is_configured_project_root, with_auto_write_access,
}
use mcp_access_stack_legacy.Agent.Permissions.{planning_readonly, full_repo_write}
use mcp_access_stack_legacy.Agent.CommandAnalysis.{powershell, pwsh, cmd, wsl, git_bash}
use mcp_access_stack_legacy.Agent.PathSecurity.{portable, begins}
use mcp_access_stack_legacy.Agent.PathSecurity.Meaning.{StartsWith, begins_iff}
use mcp_access_stack_legacy.Core.PolicyMerge.{
  DiscoveredWorkspaceCandidate, implicit_technical_workspace_names,
}
use mcp_access_stack_legacy.Core.PolicyMerge.Merge.{
  leaf_name, is_implicit_technical_workspace_candidate, create_discovered_workspace,
}

-- Two policies that agree in all but their kind and their access.
pub record AgreesBesideAccess (v w : WorkspacePolicy) : Type 0 where
  pub id : w.id ≡ v.id
  pub name : w.name ≡ v.name
  pub root_path : w.root_path ≡ v.root_path
  pub enabled : w.enabled ≡ v.enabled
  pub confirmation_mode : w.confirmation_mode ≡ v.confirmation_mode
  pub allowed_roots : w.allowed_roots ≡ v.allowed_roots
  pub blocked_globs : w.blocked_globs ≡ v.blocked_globs
  pub limits : w.limits ≡ v.limits
  pub source_control : w.source_control ≡ v.source_control

pub record HasFullAccess (w : WorkspacePolicy) : Type 0 where
  pub profile : w.permission_profile ≡ full_repo_write
  pub writes : w.allow_writes ≡ "." ∷ []
  pub shell : w.allow_shell ≡ "." ∷ []
  pub shells : w.allowed_shells ≡ powershell ∷ pwsh ∷ cmd ∷ wsl ∷ git_bash ∷ []

-- A read-only workspace made of a candidate.
pub record IsReadOnly (c : DiscoveredWorkspaceCandidate) (limits : WorkspaceLimits)
    (w : WorkspacePolicy) : Type 0 where
  pub name : w.name ≡ c.name
  pub root_path : w.root_path ≡ c.root_path
  pub workspace_kind : w.workspace_kind ≡ some repository
  pub enabled : w.enabled ≡ true
  pub profile : w.permission_profile ≡ planning_readonly
  pub confirmation_mode : w.confirmation_mode ≡ standard
  pub allowed_roots : w.allowed_roots ≡ "." ∷ []
  pub blocked_globs : w.blocked_globs ≡ []
  pub limits_given : w.limits ≡ limits
  pub writes : w.allow_writes ≡ []
  pub shell : w.allow_shell ≡ []
  pub shells : w.allowed_shells ≡ powershell ∷ []
  pub source_control : w.source_control ≡ none

pub create_discovered-IsReadOnly :
    (platform : Platform) (c : DiscoveredWorkspaceCandidate) (limits : WorkspaceLimits)
    (id : String)
    → IsReadOnly c limits (create_discovered_workspace platform c limits id)
unfolding create_discovered_workspace
create_discovered-IsReadOnly platform c limits id = record {
  name = refl;
  root_path = refl;
  workspace_kind = refl;
  enabled = refl;
  profile = refl;
  confirmation_mode = refl;
  allowed_roots = refl;
  blocked_globs = refl;
  limits_given = refl;
  writes = refl;
  shell = refl;
  shells = refl;
  source_control = refl;
}

module _ (platform : Platform) where
  -- A path with slashes, without those at its end, in lower case on Windows.
  abbrev pub path_key : String → String
  path_key path =
      let normalized = without_last_slashes (portable path) in
      if platform.is_windows then platform.to_lower_case normalized else normalized

  -- A root that is given and not empty.
  abbrev pub Given : (String → Type 0) → Option String → Type 0
  Given P o = (root : String) × (o ≡ some root) × (root ≢ "") × P root

  at_root_iff :
      (p : String → Bool) (P : String → Type 0)
      → ((root : String) → (p root ≡ true) ↔ P root)
      → (o : Option String) → (at_root platform p o ≡ true) ↔ Given P o
  at_root_iff p P h none = (λ e. absurd (ground arith), λ g. absurd (ground (arith, g.1)))
  at_root_iff p P h (some root) = (
    λ e. (
      root,
      refl,
      (λ empty. ground (arith, e, (eq_iff root "").1 empty)),
      (h root).0 (ground (arith, e)),
    ),
    λ g.
        let (r, same, filled, q) = g in
        let here : r ≡ root = ground arith in
        elim (Bool-cases (str_eq root "")) [
          | inl empty ↦ absurd (filled (here ∙ (eq_iff root "").0 empty))
          | inr other ↦ ground (arith, other, here, (h r).1 q)
        ],
  )

  module _ (options : AutoWritePolicyOptions) (path : String) where
    -- At a configured root, or below one.
    abbrev pub IsUnder : String → Type 0
    IsUnder root =
        (path_key path ≡ path_key root) ⊎ StartsWith (path_key path) (concat (path_key root) "/")

    abbrev pub IsWithinRoots : Type 0
    IsWithinRoots =
        ((options.enable_project_writes ≡ true) × Given IsUnder options.project_root_path)
        ⊎ ((options.enable_development_writes ≡ true) × Given IsUnder options.development_root_path)

    abbrev pub IsProjectRoot : Type 0
    IsProjectRoot =
        (options.enable_project_writes ≡ true)
        × Given (λ root. path_key path ≡ path_key root) options.project_root_path

    IsUnder-iff :
        (root : String) → (is_under_configured_root platform path root ≡ true) ↔ IsUnder root
    unfolding is_under_configured_root canonical_path_key
    IsUnder-iff root =
        let p = path_key path in
        let r = path_key root in
        (
          λ e. elim (Bool-cases (str_eq p r)) [
            | inl same ↦ inl ((eq_iff p r).0 same)
            | inr below ↦ inr ((begins_iff p (concat r "/")).0 (ground (arith, e, below)))
          ],
          λ q. elim q [
            | inl same ↦ ground (arith, (eq_iff p r).1 same)
            | inr below ↦ ground (arith, (begins_iff p (concat r "/")).1 below)
          ],
        )

    is_auto_write_eligible_iff :
        (is_auto_write_eligible platform path options ≡ true) ↔ IsWithinRoots
    unfolding is_auto_write_eligible
    is_auto_write_eligible_iff =
        let project = at_root_iff _ IsUnder IsUnder-iff options.project_root_path in
        let development = at_root_iff _ IsUnder IsUnder-iff options.development_root_path in
        let test = is_under_configured_root platform path in
        (
          λ e.
              elim (Bool-cases (
                options.enable_project_writes && at_root platform test options.project_root_path)) [
                  | inl in_project ↦
                      inl (ground (arith, in_project), project.0 (ground (arith, in_project)))
                  | inr outside ↦
                      inr (ground (arith, e, outside), development.0 (ground (arith, e, outside)))
                ],
          λ q. elim q [
            | inl (on, g) ↦ ground (arith, on, project.1 g)
            | inr (on, g) ↦ ground (arith, on, development.1 g)
          ],
        )

    is_configured_project_root_iff :
        (is_configured_project_root platform path options ≡ true) ↔ IsProjectRoot
    unfolding is_configured_project_root canonical_path_key
    is_configured_project_root_iff =
        let project =
          at_root_iff (λ root. str_eq (path_key path) (path_key root))
            (λ root. path_key path ≡ path_key root) (λ root. eq_iff (path_key path) (path_key root))
            options.project_root_path in
        (
          λ e. (ground (arith, e), project.0 (ground (arith, e))),
          λ q. ground (arith, q.0, project.1 q.1),
        )

    -- What becomes of a workspace at the path: outside the configured roots nothing, and within them full
    -- access, with the kind of an aggregate at the project root itself.
    pub data HasAccess (v w : WorkspacePolicy) : Type 0 where
      unchanged : (IsWithinRoots → ⊥) → w ≡ v → HasAccess v w
      full :
          IsWithinRoots
          → HasFullAccess w
          → (IsProjectRoot → w.workspace_kind ≡ some aggregate)
          → ((IsProjectRoot → ⊥) → w.workspace_kind ≡ v.workspace_kind)
          → AgreesBesideAccess v w
          → HasAccess v w

    pub with_auto_write_access-HasAccess :
        (v : WorkspacePolicy) → HasAccess v (with_auto_write_access platform v path options)
    unfolding with_auto_write_access
    with_auto_write_access-HasAccess v =
        elim (Bool-cases (is_auto_write_eligible platform path options)) [
          | inr outside ↦
              rw outside
                (unchanged (λ q. ground (arith, outside, is_auto_write_eligible_iff.1 q)) refl)
          | inl within ↦ rw within (
              full (is_auto_write_eligible_iff.0 within)
                (record { profile = refl; writes = refl; shell = refl; shells = refl })
                (λ q. rw (is_configured_project_root_iff.1 q) refl)
                (λ q. elim (Bool-cases (is_configured_project_root platform path options)) [
                  | inl root ↦ absurd (q (is_configured_project_root_iff.0 root))
                  | inr other ↦ rw other refl
                ])
                (record {
                  id = refl;
                  name = refl;
                  root_path = refl;
                  enabled = refl;
                  confirmation_mode = refl;
                  allowed_roots = refl;
                  blocked_globs = refl;
                  limits = refl;
                  source_control = refl;
                }))
        ]

  -- A name that does not start with a dot and is none of the technical ones.
  abbrev pub IsOrdinary : String → Type 0
  IsOrdinary value =
      let name = platform.to_lower_case (trim value) in
      (StartsWith name "." → ⊥)
      × (includes
            ("build" ∷ "coverage" ∷ "dist" ∷ "docker" ∷ "node_modules" ∷ "releases" ∷ "runtime"
              ∷ "test" ∷ "tests" ∷ "temp" ∷ "tmp" ∷ [])
            name
          ≡ false)

  pub HasOrdinaryNames : DiscoveredWorkspaceCandidate → Type 0
  HasOrdinaryNames c =
      IsOrdinary c.name
      × IsOrdinary (leaf_name platform c.root_path)
      × IsOrdinary (leaf_name platform c.canonical_root_path)

  pub ordinary_names :
      (c : DiscoveredWorkspaceCandidate)
      → is_implicit_technical_workspace_candidate platform c ≡ false
      → HasOrdinaryNames c
  unfolding is_implicit_technical_workspace_candidate HasOrdinaryNames any
  ordinary_names c e = (
    ordinary c.name (ground (arith, e)),
    ordinary (leaf_name platform c.root_path) (ground (arith, e)),
    ordinary (leaf_name platform c.canonical_root_path) (ground (arith, e)),
  )
    where
      ordinary :
          (value : String)
          → (begins (platform.to_lower_case (trim value)) "."
              || includes implicit_technical_workspace_names (platform.to_lower_case (trim value)))
            ≡ false
          → IsOrdinary value
      ordinary value h = (
        λ dot. ground (arith, h, (begins_iff (platform.to_lower_case (trim value)) ".").1 dot),
        ground (arith, h),
      )
