-- ===== src/Core/SourceControl/Authorization.antt =====
-- Exactly which uses of source control a policy authorises.
use mcp_access_stack_legacy.Prelude.{
  String, Bool, true, false, not, ◌&&◌, List, [], ◌∷◌, map, Option, none, some, if◌then◌else◌,
  str_eq, includes, any, is_some, ◌≡◌, refl, ◌↔◌, ◌⊎◌, inl, inr, arith, eq_iff, ◌≢◌, Option-cases,
  Bool-cases, ap, sym, ◌∙◌, subst, IsIn,
}
use mcp_access_stack_legacy.Core.Errors.{source_control_capability_denied, Result, ok, throw}
use mcp_access_stack_legacy.Agent.Permissions.{PermissionProfile, full_repo_write}
use mcp_access_stack_legacy.Core.SourceControl.{
  SourceControlCapability, capability_eq, is_github, github_repository_create, SourceControlPolicy,
  AssertSourceControlCapabilityInput, may_mutate, refuses_repository, refuses_owner, given,
  assert_source_control_capability,
}

capability_eq_iff : (a b : SourceControlCapability) → (capability_eq a b ≡ true) ↔ (a ≡ b)
capability_eq_iff a b = ground arith

any-capability :
    (c : SourceControlCapability) (cs : List SourceControlCapability)
    → (any (λ d. capability_eq d c) cs ≡ true) ↔ IsIn c cs
unfolding any
any-capability c [] = ground arith
any-capability c (d ∷ ds) = ground (arith, any-capability c ds, capability_eq_iff d c)

includes-IsIn : (xs : List String) (x : String) → (includes xs x ≡ true) ↔ IsIn x xs
unfolding includes
includes-IsIn [] x = ground arith
includes-IsIn (y ∷ ys) x = ground (arith, includes-IsIn ys x, eq_iff y x)

module _ (to_locale_lower_case : String → String) where
  -- The repository is the canonical one or an additional one, in lower case.
  abbrev pub IsTarget : SourceControlPolicy → Option String → String → Type 0
  IsTarget configured canonical r =
      ((c : String) × (canonical ≡ some c) × (to_locale_lower_case c ≡ to_locale_lower_case r))
      ⊎ IsIn (to_locale_lower_case r) (map to_locale_lower_case configured.additional_repositories)

  abbrev pub IsOwner : SourceControlPolicy → String → Type 0
  IsOwner configured owner =
      IsIn (to_locale_lower_case owner) (map to_locale_lower_case configured.account_owners)

  -- What the policy `configured` must say for the use to be authorised.
  pub record Authorizes (configured : SourceControlPolicy)
      (input : AssertSourceControlCapabilityInput) : Type 0 where
    pub capable : IsIn input.capability configured.capabilities
    pub writable : input.mutation ≡ true → input.permission_profile ≡ full_repo_write
    pub owned : input.capability ≡ github_repository_create → is_some input.account_owner ≡ true
    pub targeted :
        is_github input.capability ≡ true
        → input.capability ≢ github_repository_create
        → is_some input.repository ≡ true
    pub target :
        (r : String) → input.repository ≡ some r → IsTarget configured input.canonical_repository r
    pub owner : (o : String) → input.account_owner ≡ some o → IsOwner configured o

  writable_iff :
      (m : Bool) (p : PermissionProfile)
      → ((m && not (may_mutate p)) ≡ false) ↔ (m ≡ true → p ≡ full_repo_write)
  writable_iff m p = (
    λ e h. ground arith,
    λ f. elim (Bool-cases m) [
      | inl mutating ↦ rw (f mutating) (ground arith)
      | inr reading ↦ rw reading refl
    ],
  )

  IsTarget-iff :
      (configured : SourceControlPolicy) (canonical : Option String) (r : String)
      → (refuses_repository to_locale_lower_case configured canonical r ≡ false)
        ↔ IsTarget configured canonical r
  IsTarget-iff configured none r = (
    (λ e. inr ((includes-IsIn _ _).0 (ground (arith, e)))),
    λ t. elim t [
      | inl (c, h, q) ↦ absurd (ground (arith, h))
      | inr i ↦ rw ((includes-IsIn _ _).1 i) refl
    ],
  )
  IsTarget-iff configured (some c) r = (
    (λ e. elim (Bool-cases (str_eq (to_locale_lower_case r) (to_locale_lower_case c))) [
      | inl same ↦ inl (c, refl, sym ((eq_iff _ _).0 same))
      | inr other ↦ inr ((includes-IsIn _ _).0 (ground (arith, e, other)))
    ]),
    λ t. elim t [
      | inl (d, h, q) ↦
          rw
            ((eq_iff (to_locale_lower_case r) (to_locale_lower_case c)).1
              (sym q ∙ ap to_locale_lower_case (sym (ground (arith, h)))))
            refl
      | inr i ↦ rw ((includes-IsIn _ _).1 i) (ground arith)
    ],
  )

  IsOwner-iff :
      (configured : SourceControlPolicy) (o : String)
      → (refuses_owner to_locale_lower_case configured o ≡ false) ↔ IsOwner configured o
  IsOwner-iff configured o =
      ((λ e. (includes-IsIn _ _).0 (ground (arith, e))), λ i. rw ((includes-IsIn _ _).1 i) refl)

  given_iff :
      (p : String → Bool) (P : String → Type 0) (o : Option String)
      → ((s : String) → (p s ≡ false) ↔ P s)
      → (given to_locale_lower_case p o ≡ false) ↔ ((s : String) → o ≡ some s → P s)
  given_iff p P none h = ((λ e s q. absurd (ground arith)), λ f. refl)
  given_iff p P (some s) h =
      ((λ e t q. subst P (some-injective s t q) ((h s).0 e)), λ f. (h s).1 (f s refl))
    where
      some-injective : (x y : String) → some x ≡ some y → x ≡ y
      some-injective x y e = ground arith

  -- A refusal that comes before another check.
  abbrev unless_refused : Bool → Result (Unit {0}) → Result (Unit {0})
  unless_refused test rest = if test then throw source_control_capability_denied else rest

  guards :
      (a b c d e f : Bool)
      → (unless_refused a (
            unless_refused b
              (unless_refused c (unless_refused d (unless_refused e (unless_refused f (ok tt))))))
          ≡ ok tt)
        ↔ ((a ≡ false) × (b ≡ false) × (c ≡ false) × (d ≡ false) × (e ≡ false) × (f ≡ false))
  guards a b c d e f = ground arith

  owned_iff :
      (c : SourceControlCapability) (o : Option String)
      → ((capability_eq c github_repository_create && not (is_some o)) ≡ false)
        ↔ (c ≡ github_repository_create → is_some o ≡ true)
  owned_iff c o = (
    λ e q. ground (arith, (capability_eq_iff c github_repository_create).1 q),
    λ f. elim (Bool-cases (capability_eq c github_repository_create)) [
      | inl creating ↦
          rw creating (rw (f ((capability_eq_iff c github_repository_create).0 creating)) refl)
      | inr other ↦ rw other refl
    ],
  )

  targeted_iff :
      (c : SourceControlCapability) (o : Option String)
      → ((is_github c && not (capability_eq c github_repository_create) && not (is_some o)) ≡ false)
        ↔ (is_github c ≡ true → c ≢ github_repository_create → is_some o ≡ true)
  targeted_iff c o = (
    (λ e g n. elim (Bool-cases (capability_eq c github_repository_create)) [
      | inl creating ↦ absurd (n ((capability_eq_iff c github_repository_create).0 creating))
      | inr other ↦ ground (arith, e, g, other)
    ]),
    λ f. elim (Bool-cases (is_github c)) [
      | inl hub ↦ elim (Bool-cases (capability_eq c github_repository_create)) [
        | inl creating ↦ rw creating (ground arith)
        | inr other ↦
            rw
              (f hub λ q. ground (arith, other, (capability_eq_iff c github_repository_create).1 q))
              (ground arith)
      ]
      | inr local ↦ rw local refl
    ],
  )

  abbrev Passes : SourceControlPolicy → AssertSourceControlCapabilityInput → Type 0
  Passes configured input =
      (not (any (λ c. capability_eq c input.capability) configured.capabilities) ≡ false)
      × ((input.mutation && not (may_mutate input.permission_profile)) ≡ false)
      × ((capability_eq input.capability github_repository_create
            && not (is_some input.account_owner))
          ≡ false)
      × ((is_github input.capability
            && not (capability_eq input.capability github_repository_create)
            && not (is_some input.repository))
          ≡ false)
      × (given to_locale_lower_case
            (refuses_repository to_locale_lower_case configured input.canonical_repository)
            input.repository
          ≡ false)
      × (given to_locale_lower_case (refuses_owner to_locale_lower_case configured)
            input.account_owner
          ≡ false)

  authorizes :
      (configured : SourceControlPolicy) (input : AssertSourceControlCapabilityInput)
      → Passes configured input
      → Authorizes configured input
  authorizes configured input (a, b, c, d, e, f) = record {
    capable = (any-capability input.capability configured.capabilities).0 (ground (arith, a));
    writable = (writable_iff input.mutation input.permission_profile).0 b;
    owned = (owned_iff input.capability input.account_owner).0 c;
    targeted = (targeted_iff input.capability input.repository).0 d;
    target =
        (given_iff _ (IsTarget configured input.canonical_repository) input.repository
            (IsTarget-iff configured input.canonical_repository)).0
          e;
    owner = (given_iff _ (IsOwner configured) input.account_owner (IsOwner-iff configured)).0 f;
  }

  passes :
      (configured : SourceControlPolicy) (input : AssertSourceControlCapabilityInput)
      → Authorizes configured input
      → Passes configured input
  passes configured input p = (
    rw ((any-capability input.capability configured.capabilities).1 p.capable) refl,
    (writable_iff input.mutation input.permission_profile).1 p.writable,
    (owned_iff input.capability input.account_owner).1 p.owned,
    (targeted_iff input.capability input.repository).1 p.targeted,
    (given_iff _ (IsTarget configured input.canonical_repository) input.repository
          (IsTarget-iff configured input.canonical_repository)).1
        p.target,
    (given_iff _ (IsOwner configured) input.account_owner (IsOwner-iff configured)).1 p.owner,
  )

  some-injective : (x y : SourceControlPolicy) → some x ≡ some y → x ≡ y
  some-injective x y e = ground arith

  -- Source control is authorised exactly where the workspace has a policy that lists the capability; the
  -- profile is full-repo-write if it is a mutation; creating a repository names an owner, and every other
  -- capability of GitHub a repository; a repository that is named is the canonical one or an additional
  -- one, and an owner that is named is one of the account's, all in lower case.
  pub assert_source_control_capability_iff :
      (input : AssertSourceControlCapabilityInput)
      → (assert_source_control_capability to_locale_lower_case input ≡ ok tt) ↔ (
          (configured : SourceControlPolicy) × (input.source_control ≡ some configured)
          × Authorizes configured input)
  unfolding assert_source_control_capability
  assert_source_control_capability_iff input = elim (Option-cases input.source_control) [
    | inl missing ↦
        ((λ e. absurd (ground (arith, e, missing))), λ p. absurd (ground (arith, missing, p.1)))
    | inr (configured, found) ↦ (
      (λ e. (
        configured,
        found,
        authorizes configured input ((guards _ _ _ _ _ _).0 (sym (rw found refl) ∙ e)),
      )),
      λ p. rw found (
          (guards _ _ _ _ _ _).1 (
            passes configured input (
              subst (λ c. Authorizes c input) (some-injective p.0 configured (sym p.1 ∙ found))
                p.2))),
    )
  ]
