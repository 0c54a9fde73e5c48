-- ===== src/Agent/PathSecurity/Rules.antt =====
-- What path-security.ts makes of the blocked globs, of the native separator and of the root.
use Prim.Native.Char.{Char}
use Prim.Native.String.append
use Prim.Native.String.compare
use text.Mathlib.Text.{is_eq}
use mcp_access_stack_legacy.Prelude.{
  ℕ, String, true, false, List, [], ◌∷◌, none, code, if◌then◌else◌, ◌==◌, str_eq, truthy, is_some,
  ◌≡◌, ◌≢◌, refl, ◌⊎◌, inl, inr, ◌↔◌, arith, eq_iff, Bool-cases, ap, sym, ◌∙◌,
}
use mcp_access_stack_legacy.Agent.PathSecurity.{
  Host, split, split_at, join, with_first, to_native_absolute, ResolvedWorkspace,
}
use mcp_access_stack_legacy.Agent.PathSecurity.Authorize.{find, matched_blocked_pattern, is_blocked}
use mcp_access_stack_legacy.Agent.PathSecurity.Targets.{portable_canonical}

-- The text with another character in place of a separator.
pub slashed : Char → String → String
slashed sep String.[] = ""
slashed sep (String.◌∷◌ c s) = String.◌∷◌ (if code c == code sep then "/" else c) (slashed sep s)

join-with_first :
    (c : Char) (s : String) (rest : List String)
    → join (with_first c (s ∷ rest)) ≡ String.◌∷◌ c (join (s ∷ rest))
unfolding join
join-with_first c s [] = refl
join-with_first c s (t ∷ rest) = append.cons c s (String.◌∷◌ "/" (join (t ∷ rest)))

split_at_filled :
    (n : ℕ) (s : String) → (t : String) × (rest : List String) × (split_at n s ≡ t ∷ rest)
unfolding split_at
split_at_filled n String.[] = ("", [], refl)
split_at_filled n (String.◌∷◌ c s) = elim (Bool-cases (code c == n)) [
  | inl cut ↦ ("", split_at n s, rw cut refl)
  | inr kept ↦
      (let (t, rest, e) = split_at_filled n s in
        (String.◌∷◌ c t, rest, rw kept (ap (with_first c) e)))
]

join-split_at : (sep : Char) (s : String) → join (split_at (code sep) s) ≡ slashed sep s
unfolding split_at join slashed
join-split_at sep String.[] = refl
join-split_at sep (String.◌∷◌ c s) =
    let (t, rest, e) = split_at_filled (code sep) s in
    let again : join (t ∷ rest) ≡ slashed sep s = ap join (sym e) ∙ join-split_at sep s in
    elim (Bool-cases (code c == code sep)) [
      | inl cut ↦ rw cut (
          ap (λ x. join ("" ∷ x)) e
          ∙ append.nil (String.◌∷◌ "/" (join (t ∷ rest)))
          ∙ ap (String.◌∷◌ "/") again)
      | inr kept ↦
          rw kept
            (ap (λ x. join (with_first c x)) e ∙ join-with_first c t rest ∙ ap (String.◌∷◌ c) again)
    ]

slashed_empty : (sep : Char) (s : String) → str_eq (slashed sep s) "" ≡ str_eq s ""
unfolding slashed
slashed_empty sep String.[] = refl
slashed_empty sep (String.◌∷◌ c s) =
    ap is_eq (compare.cons-nil (if code c == code sep then "/" else c) (slashed sep s))
    ∙ sym (ap is_eq (compare.cons-nil c s))

module _ (host : Host) where
  -- No glob matches, and no glob matches before an empty one that does.
  pub NoMatch : String → List String → Type 0
  NoMatch path [] = Unit
  NoMatch path (g ∷ gs) = (host.glob_matches g path ≡ false) × NoMatch path gs

  pub NoRule : String → List String → Type 0
  NoRule path [] = Unit
  NoRule path (g ∷ gs) =
      ((host.glob_matches g path ≡ true) × (g ≡ ""))
      ⊎ ((host.glob_matches g path ≡ false) × NoRule path gs)

  NoMatch-iff :
      (path : String) (gs : List String)
      → (is_some (find (λ g. host.glob_matches g path) gs) ≡ false) ↔ NoMatch path gs
  unfolding NoMatch
  NoMatch-iff path [] = (λ e. tt, λ p. refl)
  NoMatch-iff path (g ∷ gs) = elim (Bool-cases (host.glob_matches g path)) [
    | inl hit ↦ ((λ e. absurd (ground (arith, e, hit))), λ p. absurd (ground (arith, p.0, hit)))
    | inr miss ↦ (
      λ e. (miss, (NoMatch-iff path gs).0 (ground (arith, e, miss))),
      λ p. ground (arith, miss, (NoMatch-iff path gs).1 p.1),
    )
  ]

  NoRule-iff :
      (path : String) (gs : List String)
      → (truthy (find (λ g. host.glob_matches g path) gs) ≡ none) ↔ NoRule path gs
  unfolding NoRule
  NoRule-iff path [] = (λ e. tt, λ p. refl)
  NoRule-iff path (g ∷ gs) = elim (Bool-cases (host.glob_matches g path)) [
    | inl hit ↦ (
      λ e. inl (hit, (eq_iff g "").0 (ground (arith, e, hit))),
      λ p. elim p [
        | inl (h, empty) ↦ ground (arith, hit, (eq_iff g "").1 empty)
        | inr (miss, rest) ↦ absurd (ground (arith, miss, hit))
      ],
    )
    | inr miss ↦ (
      λ e. inr (miss, (NoRule-iff path gs).0 (ground (arith, e, miss))),
      λ p. elim p [
        | inl (h, empty) ↦ absurd (ground (arith, miss, h))
        | inr (m, rest) ↦ ground (arith, miss, (NoRule-iff path gs).1 rest)
      ],
    )
  ]

  -- The root itself is matched as the empty text.
  abbrev pub AtCandidate : (String → Type 0) → String → Type 0
  AtCandidate P path = ((path ≡ ".") × P "") ⊎ ((path ≢ ".") × P path)

  AtCandidate-iff :
      (T : String → Type 0) (P : String → Type 0)
      → ((path : String) → T path ↔ P path)
      → (path : String) → T (if str_eq path "." then "" else path) ↔ AtCandidate P path
  AtCandidate-iff T P h path = elim (Bool-cases (str_eq path ".")) [
    | inl dot ↦ (
      λ e. inl ((eq_iff path ".").0 dot, (h "").0 (rw dot at e)),
      λ p.
          rw dot (elim p [
            | inl (e, q) ↦ (h "").1 q
            | inr (n, q) ↦ absurd (n ((eq_iff path ".").0 dot))
          ]),
    )
    | inr named ↦ (
      λ e. inr ((λ d. ground (arith, named, (eq_iff path ".").1 d)), (h path).0 (rw named at e)),
      λ p. rw named (elim p [
        | inl (e, q) ↦ absurd (ground (arith, named, (eq_iff path ".").1 e))
        | inr (n, q) ↦ (h path).1 q
      ]),
    )
  ]

  module _ (workspace : ResolvedWorkspace) where
    -- No blocked glob matches the path.
    abbrev pub IsFree : String → Type 0
    IsFree = AtCandidate (λ c. NoMatch c workspace.blocked_globs)

    -- The first blocked glob that matches the path is empty, or none matches.
    abbrev pub HasNoRule : String → Type 0
    HasNoRule = AtCandidate (λ c. NoRule c workspace.blocked_globs)

    pub is_blocked_iff : (path : String) → (is_blocked host workspace path ≡ false) ↔ IsFree path
    unfolding is_blocked
    is_blocked_iff path =
        AtCandidate-iff
          (λ c. is_some (find (λ g. host.glob_matches g c) workspace.blocked_globs) ≡ false)
          (λ c. NoMatch c workspace.blocked_globs) (λ c. NoMatch-iff c workspace.blocked_globs) path

    pub matched_rule_iff :
        (path : String)
        → (truthy (matched_blocked_pattern host workspace path) ≡ none) ↔ HasNoRule path
    unfolding matched_blocked_pattern
    matched_rule_iff path =
        AtCandidate-iff
          (λ c. truthy (find (λ g. host.glob_matches g c) workspace.blocked_globs) ≡ none)
          (λ c. NoRule c workspace.blocked_globs) (λ c. NoRule-iff c workspace.blocked_globs) path

    -- The canonical path from the canonical root, with slashes.
    abbrev pub IsRelative : String → String → Type 0
    IsRelative canonical path =
        let rel = host.relative workspace.canonical_root_path canonical in
        ((rel ≡ "") × (path ≡ ".")) ⊎ ((rel ≢ "") × (path ≡ slashed host.sep rel))

    pub portable_canonical_iff :
        (canonical path : String)
        → (path ≡ portable_canonical host workspace canonical) ↔ IsRelative canonical path
    unfolding portable_canonical
    portable_canonical_iff canonical path =
        let rel = host.relative workspace.canonical_root_path canonical in
        let same : portable_canonical host workspace canonical
            ≡ (if str_eq rel "" then "." else slashed host.sep rel) =
          ap (λ x. if str_eq x "" then "." else x) (join-split_at host.sep rel)
          ∙ ap (λ b. if b then "." else slashed host.sep rel) (slashed_empty host.sep rel) in
        elim (Bool-cases (str_eq rel "")) [
          | inl root ↦ (
            λ e. inl ((eq_iff rel "").0 root, rw root at (e ∙ same)),
            λ p. elim p [
              | inl (r, q) ↦ q ∙ sym (same ∙ rw root refl)
              | inr (n, q) ↦ absurd (n ((eq_iff rel "").0 root))
            ],
          )
          | inr below ↦ (
            λ e. inr ((λ r. ground (arith, below, (eq_iff rel "").1 r)), rw below at (e ∙ same)),
            λ p. elim p [
              | inl (r, q) ↦ absurd (ground (arith, below, (eq_iff rel "").1 r))
              | inr (n, q) ↦ q ∙ sym (same ∙ rw below refl)
            ],
          )
        ]

    -- The path below the root of the workspace, as the platform writes it.
    abbrev pub IsNative : String → String → Type 0
    IsNative logical path =
        ((logical ≡ ".") × (path ≡ workspace.root_path))
        ⊎ ((logical ≢ ".") × (path ≡ host.resolve workspace.root_path (split logical)))

    pub IsNative-iff :
        (logical path : String)
        → (path ≡ to_native_absolute host workspace.root_path logical) ↔ IsNative logical path
    unfolding to_native_absolute
    IsNative-iff logical path = elim (Bool-cases (str_eq logical ".")) [
      | inl dot ↦ (
        λ e. inl ((eq_iff logical ".").0 dot, rw dot at e),
        λ p.
            rw dot
              (elim p [ inl (d, q) ↦ q | inr (n, q) ↦ absurd (n ((eq_iff logical ".").0 dot)) ]),
      )
      | inr named ↦ (
        λ e. inr ((λ d. ground (arith, named, (eq_iff logical ".").1 d)), rw named at e),
        λ p. rw named (elim p [
          | inl (d, q) ↦ absurd (ground (arith, named, (eq_iff logical ".").1 d))
          | inr (n, q) ↦ q
        ]),
      )
    ]
