-- ===== src/Agent/PathSecurity/Normalize.antt =====
-- Normalised paths: their segments are names, and normalising them again changes nothing.
use mcp_access_stack_legacy.Prelude.{
  ℕ, String, Bool, true, false, ◌||◌, List, [], ◌∷◌, some, ◌==◌, str_eq, ◌≡◌, refl, ◌≢◌, ◌⊎◌, inl,
  inr, arith, eq_iff, Bool-cases, Option-cases, ap, sym, ◌∙◌, subst,
}
use mcp_access_stack_legacy.Core.Text.{has}
use mcp_access_stack_legacy.Core.Errors.{ok}
use mcp_access_stack_legacy.Agent.PathSecurity.{
  Host, begins, split, join, portable, and_segment, is_invalid_segment, output_segments, is_rooted,
  joined, normalize_relative_path,
}
use mcp_access_stack_legacy.Agent.PathSecurity.Segments.{
  All, Lacks, is_slash, is_backslash, split-Lacks, portable-Lacks, portable-backslash, split-own,
  split-join,
}

abbrev pub is_nul : ℕ → Bool
is_nul n = n == 0

-- A name: not empty, not a dot, not two dots, and without a backslash.
abbrev pub IsName : String → Type 0
IsName s = (s ≢ "") × (s ≢ ".") × (s ≢ "..") × Lacks is_backslash s

module _ (host : Host) where
  -- A segment that the loop keeps.
  abbrev pub IsKept : String → Type 0
  IsKept s =
      ((str_eq s "" || str_eq s ".") ≡ false)
      × (is_invalid_segment host s ≡ false)
      × Lacks is_slash s
      × Lacks is_backslash s
      × Lacks is_nul s

  output-IsKept :
      (xs ys : List String)
      → output_segments host xs ≡ some ys
      → All (Lacks is_slash) xs
      → All (Lacks is_backslash) xs
      → All (Lacks is_nul) xs
      → All IsKept ys
  unfolding output_segments
  output-IsKept [] [] e p q r = tt
  output-IsKept [] (y ∷ ys) e p q r = absurd (ground arith)
  output-IsKept (x ∷ xs) ys e (p, ps) (q, qs) (r, rs) =
      elim (Bool-cases (str_eq x "" || str_eq x ".")) [
        | inl dropped ↦ output-IsKept xs ys (ground (arith, e, dropped)) ps qs rs
        | inr kept ↦ elim (Option-cases (output_segments host xs)) [
          | inl refused ↦ absurd (ground (arith, e, kept, refused))
          | inr (zs, more) ↦ elim (Bool-cases (is_invalid_segment host x)) [
            | inl invalid ↦ absurd (ground (arith, e, kept, invalid))
            | inr valid ↦
                (let same : (x ∷ zs) ≡ ys = ground (arith, e, kept, more, valid) in
                  subst (All IsKept) same
                    ((kept, valid, p, q, r), output-IsKept xs zs more ps qs rs))
          ]
        ]
      ]

  pub output-same : (ys : List String) → All IsKept ys → output_segments host ys ≡ some ys
  unfolding output_segments
  output-same [] p = refl
  output-same (y ∷ ys) ((kept, valid, slash, backslash, nul), ps) =
      rw kept (rw valid (ap (and_segment y) (output-same ys ps)))

  -- What normalising has found where it returns.
  unfoldable pub IsNormal : (allow_dot : Bool) → String → Type 0
  IsNormal allow_dot p =
      ((p ≡ ".") × (allow_dot ≡ true))
      ⊎ ((s : String) × (rest : List String) × All IsKept (s ∷ rest) × (p ≡ join (s ∷ rest)))

  joined-IsNormal :
      (allow_dot : Bool) (segments : List String) (p : String)
      → All IsKept segments
      → joined allow_dot (some segments) ≡ ok p
      → IsNormal allow_dot p
  unfolding IsNormal
  joined-IsNormal allow_dot [] p k e = inl (ground (arith, e), ground (arith, e))
  joined-IsNormal allow_dot (s ∷ rest) p k e = inr (s, rest, k, ground (arith, e))

  pub normalize-IsNormal :
      (allow_dot : Bool) (input p : String)
      → normalize_relative_path host allow_dot input ≡ ok p
      → IsNormal allow_dot p
  unfolding normalize_relative_path
  normalize-IsNormal allow_dot input p e = elim (Bool-cases (str_eq input "" || has is_nul input)) [
    | inl empty ↦ absurd (ground (arith, e, empty))
    | inr given ↦ elim (Bool-cases (is_rooted host input)) [
      | inl rooted ↦ absurd (ground (arith, e, given, rooted))
      | inr free ↦ elim (Bool-cases (begins (portable input) "//")) [
        | inl unc ↦ absurd (ground (arith, e, given, free, unc))
        | inr plain ↦ elim (Option-cases (output_segments host (split (portable input)))) [
          | inl refused ↦ absurd (ground (arith, e, given, free, plain, refused))
          | inr (segments, found) ↦
              joined-IsNormal allow_dot segments p
                (output-IsKept (split (portable input)) segments found (split-own (portable input))
                  (split-Lacks is_backslash b'/' (portable input) (portable-backslash input))
                  (split-Lacks is_nul b'/' (portable input)
                    (portable-Lacks is_nul input refl (ground (arith, given)))))
                (sym (ap (joined allow_dot) found) ∙ ground (arith, e, given, free, plain))
        ]
      ]
    ]
  ]

  All-IsName : (xs : List String) → All IsKept xs → All IsName xs
  All-IsName [] p = tt
  All-IsName (x ∷ xs) ((kept, valid, slash, backslash, nul), ps) = (
    (
      (λ e. ground (arith, kept, e, eq_iff x "")),
      (λ e. ground (arith, kept, e, eq_iff x ".")),
      (λ e. ground (arith, valid, e, eq_iff x "..")),
      backslash,
    ),
    All-IsName xs ps,
  )

  pub All-slash : (xs : List String) → All IsKept xs → All (Lacks is_slash) xs
  All-slash [] p = tt
  All-slash (x ∷ xs) ((kept, valid, slash, backslash, nul), ps) = (slash, All-slash xs ps)

  -- Where a path is normalised it is a dot, if that is allowed, or each of its segments between slashes
  -- is a name: not empty, not a dot, not two dots, and without a backslash.
  pub normalize_names :
      (allow_dot : Bool) (input p : String)
      → normalize_relative_path host allow_dot input ≡ ok p
      → ((p ≡ ".") × (allow_dot ≡ true)) ⊎ All IsName (split p)
  unfolding IsNormal
  normalize_names allow_dot input p e = elim (normalize-IsNormal allow_dot input p e) [
    | inl dot ↦ inl dot
    | inr (s, rest, kept, eq) ↦ inr (
        subst (All IsName) (sym (split-join s rest (All-slash (s ∷ rest) kept)) ∙ ap split (sym eq))
          (All-IsName (s ∷ rest) kept))
  ]
