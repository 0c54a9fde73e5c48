-- ===== src/Agent/PathSecurity/Segments.antt =====
-- Splitting and joining paths, and which characters their segments keep.
use Prim.Native.Char.{Char}
use Prim.Native.String.append
use mcp_access_stack_legacy.Prelude.{
  ℕ, String, Bool, false, List, [], ◌∷◌, concat, code, ◌==◌, ◌≡◌, refl, inl, inr, arith, Bool-cases,
  ap, ◌∙◌,
}
use mcp_access_stack_legacy.Core.Text.{has}
use mcp_access_stack_legacy.Agent.PathSecurity.{split, split_at, with_first, join, portable}

abbrev pub All : (String → Type 0) → List String → Type 0
All P [] = Unit
All P (s ∷ rest) = P s × All P rest

abbrev pub is_slash : ℕ → Bool
is_slash n = n == b'/'

abbrev pub is_backslash : ℕ → Bool
is_backslash n = n == b'\\'

abbrev pub Lacks : (ℕ → Bool) → String → Type 0
Lacks q s = has q s ≡ false

module _ (q : ℕ → Bool) where
  pub has-concat : (s t : String) → Lacks q s → Lacks q t → Lacks q (concat s t)
  unfolding has
  has-concat String.[] t p r = ap (has q) (append.nil t) ∙ r
  has-concat (String.◌∷◌ c s) t p r =
      ap (has q) (append.cons c s t) ∙ ground (arith, has-concat s t (ground (arith, p)) r, p)

  with_first-Lacks :
      (c : Char) (xs : List String)
      → q (code c) ≡ false
      → All (Lacks q) xs
      → All (Lacks q) (with_first c xs)
  unfolding has
  with_first-Lacks c [] e p = (ground (arith, e), tt)
  with_first-Lacks c (s ∷ rest) e (p, ps) = (ground (arith, e, p), ps)

  pub split-Lacks : (n : ℕ) (s : String) → Lacks q s → All (Lacks q) (split_at n s)
  unfolding split_at has
  split-Lacks n String.[] p = (refl, tt)
  split-Lacks n (String.◌∷◌ c s) p =
      let more = split-Lacks n s (ground (arith, p)) in
      elim (Bool-cases (code c == n)) [
        | inl here ↦ rw here (refl, more)
        | inr other ↦ rw other (with_first-Lacks c (split_at n s) (ground (arith, p)) more)
      ]

  pub join-Lacks : (xs : List String) → q b'/' ≡ false → All (Lacks q) xs → Lacks q (join xs)
  unfolding join has
  join-Lacks [] e p = refl
  join-Lacks (s ∷ []) e p = p.0
  join-Lacks (s ∷ t ∷ rest) e p =
      has-concat s (String.◌∷◌ "/" (join (t ∷ rest))) p.0 (rw e (join-Lacks (t ∷ rest) e p.1))

  pub portable-Lacks : (s : String) → q b'/' ≡ false → Lacks q s → Lacks q (portable s)
  unfolding portable has
  portable-Lacks String.[] e p = refl
  portable-Lacks (String.◌∷◌ c s) e p = elim (Bool-cases (code c == b'\\')) [
    | inl backslash ↦ rw backslash (rw e (portable-Lacks s e (ground (arith, p))))
    | inr other ↦ rw other (ground (arith, p, portable-Lacks s e (ground (arith, p))))
  ]

pub split-own : (s : String) → All (Lacks is_slash) (split s)
unfolding split_at has
split-own String.[] = (refl, tt)
split-own (String.◌∷◌ c s) = elim (Bool-cases (code c == b'/')) [
  | inl here ↦ rw here (refl, split-own s)
  | inr other ↦ rw other (with_first-Lacks is_slash c (split s) other (split-own s))
]

pub portable-backslash : (s : String) → Lacks is_backslash (portable s)
unfolding portable has
portable-backslash String.[] = refl
portable-backslash (String.◌∷◌ c s) = elim (Bool-cases (code c == b'\\')) [
  | inl backslash ↦ rw backslash (portable-backslash s)
  | inr other ↦ rw other (rw other (portable-backslash s))
]

pub portable-same : (s : String) → Lacks is_backslash s → portable s ≡ s
unfolding portable has
portable-same String.[] p = refl
portable-same (String.◌∷◌ c s) p =
    let other : (code c == b'\\') ≡ false = ground (arith, p) in
    rw other (ap (String.◌∷◌ c) (portable-same s (ground (arith, p))))

split-concat : (s t : String) → Lacks is_slash s → split (concat s (String.◌∷◌ "/" t)) ≡ s ∷ split t
unfolding split_at has
split-concat String.[] t p = ap split (append.nil (String.◌∷◌ "/" t))
split-concat (String.◌∷◌ c s) t p =
    let other : (code c == b'/') ≡ false = ground (arith, p) in
    ap split (append.cons c s (String.◌∷◌ "/" t))
    ∙ rw other (ap (with_first c) (split-concat s t (ground (arith, p))))

split-single : (s : String) → Lacks is_slash s → split s ≡ s ∷ []
unfolding split_at has
split-single String.[] p = refl
split-single (String.◌∷◌ c s) p =
    let other : (code c == b'/') ≡ false = ground (arith, p) in
    rw other (ap (with_first c) (split-single s (ground (arith, p))))

-- Joining and splitting again gives the same segments, of which there is at least one.
pub split-join :
    (s : String) (rest : List String)
    → All (Lacks is_slash) (s ∷ rest)
    → split (join (s ∷ rest)) ≡ s ∷ rest
unfolding join
split-join s [] p = split-single s p.0
split-join s (t ∷ rest) p =
    split-concat s (join (t ∷ rest)) p.0 ∙ ap (λ xs. s ∷ xs) (split-join t rest p.1)
