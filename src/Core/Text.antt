-- ===== src/Core/Text.antt =====
-- What the program uses of JavaScript strings: their length, `trim`, and lower case with everything but
-- ASCII letters and digits removed.
use Prim.Native.Char.{Char}
use Prim.Native.String.append
use Prim.Native.String.compare
use text.Mathlib.Text.{is_eq}
use text.Mathlib.TextLemmas.{append_assoc}
use mcp_access_stack_legacy.Prelude.{
  ℕ, ◌+◌, String, code, Bool, true, false, ◌&&◌, ◌||◌, List, [], ◌∷◌, if◌then◌else◌, leb, ltb, ◌==◌,
  str_eq, ◌≡◌, refl, ◌⊎◌, inl, inr, arith, eq_iff, Bool-cases, ap, sym, ◌∙◌, ◌++◌, concat,
}

-- `length`: the UTF-16 code units.
unfoldable pub utf16_length : String → ℕ
utf16_length String.[] = 0
utf16_length (String.◌∷◌ c s) = (if ltb (code c) 0x10000 then 1 else 2) + utf16_length s

abbrev pub length_within : ℕ → ℕ → String → Bool
length_within lo hi s = leb lo (utf16_length s) && leb (utf16_length s) hi

abbrev pub in_range : ℕ → ℕ → ℕ → Bool
in_range lo hi n = leb lo n && leb n hi

-- White space and line terminators.
unfoldable pub is_space : ℕ → Bool
is_space n =
    in_range 9 13 n
    || n == 32
    || n == 0xa0
    || n == 0x1680
    || in_range 0x2000 0x200a n
    || n == 0x2028
    || n == 0x2029
    || n == 0x202f
    || n == 0x205f
    || n == 0x3000
    || n == 0xfeff

unfoldable pub trim_start : String → String
unfolding is_space
trim_start String.[] = ""
trim_start (String.◌∷◌ c s) =
    let rest = trim_start s in if is_space (code c) then rest else String.◌∷◌ c s

unfoldable pub trim_end : String → String
unfolding is_space
trim_end String.[] = ""
trim_end (String.◌∷◌ c s) =
    let rest = trim_end s in if is_space (code c) && str_eq rest "" then "" else String.◌∷◌ c rest

unfoldable pub trim : String → String
unfolding trim_start trim_end
trim s = trim_end (trim_start s)

trim_end-cons :
    (c : Char) (s : String)
    → (is_space (code c) && str_eq (trim_end s) "") ≡ false
    → trim_end (String.◌∷◌ c s) ≡ String.◌∷◌ c (trim_end s)
unfolding trim_end
trim_end-cons c s e = rw e

trim_end-trim_end : (s : String) → trim_end (trim_end s) ≡ trim_end s
unfolding trim_end
trim_end-trim_end String.[] = refl
trim_end-trim_end (String.◌∷◌ c s) =
    elim (Bool-cases (is_space (code c) && str_eq (trim_end s) "")) [
      | inl blank ↦ rw blank
      | inr filled ↦ rw filled (
          trim_end-cons c (trim_end s) (rw (trim_end-trim_end s) filled)
          ∙ ap (String.◌∷◌ c) (trim_end-trim_end s))
    ]

trim_start_cases :
    (s : String)
    → (trim_start s ≡ "")
      ⊎ ((c : Char) × (t : String) × (is_space (code c) ≡ false) × (trim_start s ≡ String.◌∷◌ c t))
unfolding trim_start
trim_start_cases String.[] = inl refl
trim_start_cases (String.◌∷◌ c s) = elim (Bool-cases (is_space (code c))) [
  | inl space ↦ rw space (trim_start_cases s)
  | inr other ↦ inr (c, s, other, rw other)
]

trim_start-cons :
    (c : Char) (s : String)
    → is_space (code c) ≡ false
    → trim_start (String.◌∷◌ c s) ≡ String.◌∷◌ c s
unfolding trim_start
trim_start-cons c s e = rw e

trim_start-trim_end :
    (c : Char) (s : String)
    → is_space (code c) ≡ false
    → trim_start (trim_end (String.◌∷◌ c s)) ≡ trim_end (String.◌∷◌ c s)
trim_start-trim_end c s other =
    let ends : trim_end (String.◌∷◌ c s) ≡ String.◌∷◌ c (trim_end s) =
      trim_end-cons c s (ground arith) in
    ap trim_start ends ∙ (trim_start-cons c (trim_end s) other ∙ sym ends)

-- Trimming a second time changes nothing.
pub trim-trim : (s : String) → trim (trim s) ≡ trim s
unfolding trim
trim-trim s = elim (trim_start_cases s) [
  | inl blank ↦ rw blank refl
  | inr (c, t, other, e) ↦
      ap (λ u. trim_end (trim_start (trim_end u))) e
      ∙ (ap trim_end (trim_start-trim_end c t other)
          ∙ (trim_end-trim_end (String.◌∷◌ c t) ∙ ap trim_end (sym e)))
]

-- A text that ends in something else than white space.
abbrev pub IsClosed : String → Type 0
IsClosed s = (trim_end s ≡ s) × (str_eq s "" ≡ false)

pub cons-IsClosed : (c : Char) (s : String) → IsClosed s → IsClosed (String.◌∷◌ c s)
cons-IsClosed c s p = (
  trim_end-cons c s (ground (arith, p.0, p.1)) ∙ ap (String.◌∷◌ c) p.0,
  ap is_eq (compare.cons-nil c s),
)

pub last-IsClosed : (c : Char) → is_space (code c) ≡ false → IsClosed (String.◌∷◌ c "")
unfolding trim_end
last-IsClosed c e = (rw e refl, ap is_eq (compare.cons-nil c ""))

pub trim-closed :
    (c : Char) (s : String)
    → is_space (code c) ≡ false
    → IsClosed (String.◌∷◌ c s)
    → trim (String.◌∷◌ c s) ≡ String.◌∷◌ c s
unfolding trim
trim-closed c s e p = ap trim_end (trim_start-cons c s e) ∙ p.0

-- `token += character`, and then a text.
pub concat-add :
    (t : String) (c : Char) (s : String)
    → concat (concat t (String.◌∷◌ c "")) s ≡ concat t (String.◌∷◌ c s)
concat-add t c s =
    append_assoc t (String.◌∷◌ c "") s
    ∙ ap (concat t) (append.cons c "" s ∙ ap (String.◌∷◌ c) (append.nil s))

-- Whether a text has a character with a code point of a kind.
unfoldable pub has : (ℕ → Bool) → String → Bool
has p String.[] = false
has p (String.◌∷◌ c s) = p (code c) || has p s

module _ (p : ℕ → Bool) (visible : (n : ℕ) → is_space n ≡ true → p n ≡ false) where
  has-trim_start : (s : String) → has p (trim_start s) ≡ has p s
  unfolding has trim_start
  has-trim_start String.[] = refl
  has-trim_start (String.◌∷◌ c s) = ground (arith, has-trim_start s, visible (code c))

  has-trim_end : (s : String) → has p (trim_end s) ≡ has p s
  unfolding has trim_end
  has-trim_end String.[] = refl
  has-trim_end (String.◌∷◌ c s) = elim (Bool-cases (is_space (code c) && str_eq (trim_end s) "")) [
    | inl blank ↦
        rw blank (ground (arith, visible (code c), has-trim_end s, ap (has p) (empty_of blank)))
    | inr filled ↦ rw filled (ap (λ b. p (code c) || b) (has-trim_end s))
  ]
    where
      empty_of : (is_space (code c) && str_eq (trim_end s) "") ≡ true → trim_end s ≡ ""
      empty_of e = (eq_iff (trim_end s) "").0 (ground arith)

  pub has-trim : (s : String) → has p (trim s) ≡ has p s
  unfolding trim
  has-trim s = has-trim_end (trim_start s) ∙ has-trim_start s

-- `toLowerCase().replace(/[^a-z0-9]/gu, "")`, as code points. Beside A to Z two code points have an
-- ASCII letter in their lower case: the Kelvin sign, and the capital I with a dot above.
pub lower_alphanumeric : ℕ → List ℕ
lower_alphanumeric n =
    if in_range b'a' b'z' n || in_range b'0' b'9' n
    then n ∷ []
    else if in_range b'A' b'Z' n
    then (n + 32) ∷ []
    else if n == 0x212a
    then b'k' ∷ []
    else if n == 0x130
    then b'i' ∷ []
    else []

unfoldable pub normalized_key : String → List ℕ
unfolding lower_alphanumeric
normalized_key String.[] = []
normalized_key (String.◌∷◌ c s) = lower_alphanumeric (code c) ++ normalized_key s

-- Texts as code points, and the tests of `===`, `startsWith`, `endsWith` and `includes` on them.
abbrev pub codes : String → List ℕ
codes String.[] = []
codes (String.◌∷◌ c s) = code c ∷ codes s

abbrev pub codes_eq : List ℕ → List ℕ → Bool
codes_eq [] [] = true
codes_eq [] (n ∷ ns) = false
codes_eq (m ∷ ms) [] = false
codes_eq (m ∷ ms) (n ∷ ns) = m == n && codes_eq ms ns

abbrev pub starts_with : List ℕ → List ℕ → Bool
starts_with ns [] = true
starts_with [] (m ∷ ms) = false
starts_with (n ∷ ns) (m ∷ ms) = n == m && starts_with ns ms

abbrev pub ends_with : List ℕ → List ℕ → Bool
ends_with [] ms = codes_eq [] ms
ends_with (n ∷ ns) ms = codes_eq (n ∷ ns) ms || ends_with ns ms

abbrev pub contains : List ℕ → List ℕ → Bool
contains [] ms = starts_with [] ms
contains (n ∷ ns) ms = starts_with (n ∷ ns) ms || contains ns ms
