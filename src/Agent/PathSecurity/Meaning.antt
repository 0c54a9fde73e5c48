-- ===== src/Agent/PathSecurity/Meaning.antt =====
-- What the tests of path-security.ts on paths say of the texts.
use Prim.Native.String.append
use text.Mathlib.TextEquality.{Char-path}
use mcp_access_stack_legacy.Prelude.{
  String, Bool, true, false, ◌||◌, List, [], ◌∷◌, concat, str_eq, if◌then◌else◌, any, ◌≡◌, ◌≢◌,
  refl, ◌⊎◌, inl, inr, ◌↔◌, arith, eq_iff, Bool-cases, ap, sym, ◌∙◌,
}
use mcp_access_stack_legacy.Agent.PathSecurity.{
  FileKind, file, directory, Host, begins, comparison_value, is_contained, logical_contains,
  ResolvedAllowedRoot, ResolvedWorkspace,
}
use mcp_access_stack_legacy.Agent.PathSecurity.Authorize.{
  is_within_logical_allowed_root, is_allowed_write_path,
}

-- A text that starts with another.
abbrev pub StartsWith : String → String → Type 0
StartsWith s p = (t : String) × (s ≡ concat p t)

begins_sound : (s p : String) → begins s p ≡ true → StartsWith s p
begins_sound s String.[] e = (s, sym (append.nil s))
begins_sound String.[] (String.◌∷◌ d p) e = absurd (ground arith)
begins_sound (String.◌∷◌ c s) (String.◌∷◌ d p) e =
    let (t, rest) = begins_sound s p (ground arith) in
    let same : c ≡ d = Char-path c d (ground arith) in
    (t, ap (λ x. String.◌∷◌ x s) same ∙ ap (String.◌∷◌ d) rest ∙ sym (append.cons d p t))

begins-concat : (p t : String) → begins (concat p t) p ≡ true
begins-concat String.[] t = any_start (concat "" t)
  where
    any_start : (s : String) → begins s "" ≡ true
    any_start String.[] = refl
    any_start (String.◌∷◌ c s) = refl
begins-concat (String.◌∷◌ c p) t =
    ap (λ s. begins s (String.◌∷◌ c p)) (append.cons c p t) ∙ ground (arith, begins-concat p t)

pub begins_iff : (s p : String) → (begins s p ≡ true) ↔ StartsWith s p
begins_iff s p = (begins_sound s p, λ q. ap (λ x. begins x p) q.1 ∙ begins-concat p q.0)

-- Some member of a list has a property.
abbrev pub Some : {A : Type 0} → (A → Type 0) → List A → Type 0
Some P [] = ⊥
Some P (x ∷ xs) = P x ⊎ Some P xs

pub any_iff :
    {A : Type 0} (p : A → Bool) (P : A → Type 0)
    → ((x : A) → (p x ≡ true) ↔ P x)
    → (xs : List A) → (any p xs ≡ true) ↔ Some P xs
unfolding any
any_iff p P h [] = (λ e. absurd (ground arith), λ e. absurd e)
any_iff p P h (x ∷ xs) = (
  λ e. elim (Bool-cases (p x)) [
    | inl here ↦ inl ((h x).0 here)
    | inr there ↦ inr ((any_iff p P h xs).0 (ground (arith, e, there)))
  ],
  λ e. elim e [
    | inl here ↦ ground (arith, (h x).1 here)
    | inr there ↦ ground (arith, (any_iff p P h xs).1 there)
  ],
)

module _ (host : Host) where
  -- A path in lower case on Windows.
  abbrev folded : String → String
  folded path = if host.is_windows then host.to_locale_lower_case path else path

  -- Equal, up to case on Windows.
  abbrev pub IsSame : String → String → Type 0
  IsSame a b = folded a ≡ folded b

  -- Below a directory, up to case on Windows.
  abbrev pub IsBelow : String → String → Type 0
  IsBelow base path = StartsWith (folded path) (concat (folded base) "/")

  -- `node:path` says that a path is the base or lies below it.
  abbrev pub IsInside : String → String → Type 0
  IsInside base path =
      (host.relative base path ≡ "")
      ⊎ ((StartsWith (host.relative base path) (concat ".." (String.◌∷◌ host.sep "")) → ⊥)
          × (host.relative base path ≢ "..")
          × (host.is_absolute (host.relative base path) ≡ false))

  pub is_contained_iff :
      (base path : String) → (is_contained host base path ≡ true) ↔ IsInside base path
  unfolding is_contained
  is_contained_iff base path =
      let rel = host.relative base path in
      let above = concat ".." (String.◌∷◌ host.sep "") in
      (
        λ e. elim (Bool-cases (str_eq rel "")) [
          | inl same ↦ inl ((eq_iff rel "").0 same)
          | inr other ↦ inr (
            (λ s. ground (arith, e, other, (begins_iff rel above).1 s)),
            (λ s. ground (arith, e, other, (eq_iff rel "..").1 s)),
            ground (arith, e, other),
          )
        ],
        λ p. elim p [
          | inl same ↦ ground (arith, (eq_iff rel "").1 same)
          | inr (a, b, c) ↦ elim (Bool-cases (begins rel above)) [
            | inl up ↦ absurd (a ((begins_iff rel above).0 up))
            | inr down ↦ elim (Bool-cases (str_eq rel "..")) [
              | inl parent ↦ absurd (b ((eq_iff rel "..").0 parent))
              | inr child ↦ ground (arith, down, child, c)
            ]
          ]
        ],
      )

  -- In a directory: any path is in ".".
  abbrev pub IsIn : String → String → Type 0
  IsIn base path = (base ≡ ".") ⊎ (IsSame path base ⊎ IsBelow base path)

  logical_contains_iff :
      (base path : String) → (logical_contains host base path ≡ true) ↔ IsIn base path
  unfolding logical_contains comparison_value
  logical_contains_iff base path =
      let b = comparison_value host base in
      let t = comparison_value host path in
      (
        λ e. elim (Bool-cases (str_eq base ".")) [
          | inl dot ↦ inl ((eq_iff base ".").0 dot)
          | inr named ↦ inr (elim (Bool-cases (str_eq t b)) [
            | inl same ↦ inl ((eq_iff t b).0 same)
            | inr below ↦ inr ((begins_iff t (concat b "/")).0 (ground (arith, e, named, below)))
          ])
        ],
        λ p. elim p [
          | inl dot ↦ ground (arith, (eq_iff base ".").1 dot)
          | inr (inl same) ↦ ground (arith, (eq_iff t b).1 same)
          | inr (inr below) ↦ ground (arith, (begins_iff t (concat b "/")).1 below)
        ],
      )

  -- A path that an allowed root covers: a file only itself.
  abbrev pub IsCovered : String → ResolvedAllowedRoot → Type 0
  IsCovered path root =
      ((root.kind ≡ file) × IsSame root.logical_path path)
      ⊎ ((root.kind ≡ directory) × IsIn root.logical_path path)

  -- A path that is written to because of a root: the root itself, or below it, or above it.
  abbrev pub IsNear : String → String → Type 0
  IsNear path root = (root ≡ ".") ⊎ (IsSame path root ⊎ (IsBelow root path ⊎ IsBelow path root))

  module _ (workspace : ResolvedWorkspace) where
    pub within_allowed_root_iff :
        (path : String)
        → (is_within_logical_allowed_root host workspace path ≡ true)
          ↔ Some (IsCovered path) workspace.allowed_roots
    unfolding is_within_logical_allowed_root comparison_value
    within_allowed_root_iff path = any_iff _ (IsCovered path) covered workspace.allowed_roots
      where
        by_kind :
            (root : ResolvedAllowedRoot) (kind : FileKind)
            → root.kind ≡ kind
            → (elim kind [
              | file ↦ str_eq (comparison_value host root.logical_path) (comparison_value host path)
              | directory ↦ logical_contains host root.logical_path path
            ]
                ≡ true)
              ↔ IsCovered path root
        by_kind root file e = (
          λ h. inl (e, (eq_iff _ _).0 h),
          λ p. elim p [
            | inl (k, same) ↦ (eq_iff _ _).1 same
            | inr (k, below) ↦ absurd (ground arith)
          ],
        )
        by_kind root directory e = (
          λ h. inr (e, (logical_contains_iff root.logical_path path).0 h),
          λ p. elim p [
            | inl (k, same) ↦ absurd (ground arith)
            | inr (k, below) ↦ (logical_contains_iff root.logical_path path).1 below
          ],
        )

        covered :
            (root : ResolvedAllowedRoot)
            → (elim root.kind [
              | file ↦ str_eq (comparison_value host root.logical_path) (comparison_value host path)
              | directory ↦ logical_contains host root.logical_path path
            ]
                ≡ true)
              ↔ IsCovered path root
        covered root = by_kind root root.kind refl

    pub allowed_write_path_iff :
        (path : String)
        → (is_allowed_write_path host workspace path ≡ true)
          ↔ Some (IsNear path) workspace.allow_writes
    unfolding is_allowed_write_path comparison_value
    allowed_write_path_iff path = any_iff _ (IsNear path) near workspace.allow_writes
      where
        near :
            (root : String)
            → ((str_eq root "."
                  || (str_eq (comparison_value host path) (comparison_value host root)
                      || begins
                          (comparison_value host path)
                          (concat (comparison_value host root) "/")
                      || begins
                          (comparison_value host root)
                          (concat (comparison_value host path) "/")))
                ≡ true)
              ↔ IsNear path root
        near root =
            let r = comparison_value host root in
            let c = comparison_value host path in
            (
              λ e. elim (Bool-cases (str_eq root ".")) [
                | inl dot ↦ inl ((eq_iff root ".").0 dot)
                | inr named ↦ inr (elim (Bool-cases (str_eq c r)) [
                  | inl same ↦ inl ((eq_iff c r).0 same)
                  | inr other ↦ inr (elim (Bool-cases (begins c (concat r "/"))) [
                    | inl below ↦ inl ((begins_iff c (concat r "/")).0 below)
                    | inr above ↦
                        inr
                          ((begins_iff r (concat c "/")).0 (ground (arith, e, named, other, above)))
                  ])
                ])
              ],
              λ p. elim p [
                | inl dot ↦ ground (arith, (eq_iff root ".").1 dot)
                | inr (inl same) ↦ ground (arith, (eq_iff c r).1 same)
                | inr (inr (inl below)) ↦ ground (arith, (begins_iff c (concat r "/")).1 below)
                | inr (inr (inr above)) ↦ ground (arith, (begins_iff r (concat c "/")).1 above)
              ],
            )
