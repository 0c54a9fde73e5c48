-- ===== src/Core/Receipts/Names.antt =====
-- Which names of fields mutation-receipts.ts and typed-confirmation.ts take for secrets, in terms of the
-- letters and digits of a name.
use mcp_access_stack_legacy.Prelude.{
  ℕ, String, Bool, true, false, ◌||◌, List, [], ◌∷◌, ◌++◌, ◌≡◌, ◌≢◌, refl, ◌⊎◌, inl, inr, ◌↔◌,
  arith, Bool-cases, ap, sym, ◌∙◌,
}
use mcp_access_stack_legacy.Core.Text.{
  normalized_key, codes, codes_eq, starts_with, ends_with, contains,
}
use mcp_access_stack_legacy.Core.Receipts.{is_sensitive_receipt_field}
use mcp_access_stack_legacy.Core.TypedConfirmation.{is_confirmation_id, is_sensitive_field_key}

codes_eq_refl : (ns : List ℕ) → codes_eq ns ns ≡ true
codes_eq_refl [] = refl
codes_eq_refl (n ∷ ns) = ground (arith, codes_eq_refl ns)

codes_eq_sound : (ms ns : List ℕ) → codes_eq ms ns ≡ true → ms ≡ ns
codes_eq_sound [] [] e = refl
codes_eq_sound [] (n ∷ ns) e = absurd (ground arith)
codes_eq_sound (m ∷ ms) [] e = absurd (ground arith)
codes_eq_sound (m ∷ ms) (n ∷ ns) e =
    let same : m ≡ n = ground arith in
    ap (λ x. x ∷ ms) same ∙ ap (◌∷◌ n) (codes_eq_sound ms ns (ground arith))

pub codes_eq_iff : (ms ns : List ℕ) → (codes_eq ms ns ≡ true) ↔ (ms ≡ ns)
codes_eq_iff ms ns = (codes_eq_sound ms ns, λ e. ap (codes_eq ms) (sym e) ∙ codes_eq_refl ms)

StartsWith : List ℕ → List ℕ → Type 0
StartsWith ns ms = (t : List ℕ) × (ns ≡ ms ++ t)

-- The letters end in others, or contain them.
abbrev pub EndsWith : List ℕ → List ℕ → Type 0
EndsWith ns ms = (s : List ℕ) × (ns ≡ s ++ ms)

abbrev pub Contains : List ℕ → List ℕ → Type 0
Contains ns ms = (s : List ℕ) × (t : List ℕ) × (ns ≡ s ++ (ms ++ t))

starts_with_sound : (ns ms : List ℕ) → starts_with ns ms ≡ true → StartsWith ns ms
unfolding StartsWith
starts_with_sound ns [] e = (ns, refl)
starts_with_sound [] (m ∷ ms) e = absurd (ground arith)
starts_with_sound (n ∷ ns) (m ∷ ms) e =
    let (t, rest) = starts_with_sound ns ms (ground arith) in
    let same : n ≡ m = ground arith in (t, ap (λ x. x ∷ ns) same ∙ ap (◌∷◌ m) rest)

starts_with-append : (ms t : List ℕ) → starts_with (ms ++ t) ms ≡ true
starts_with-append [] t = refl
starts_with-append (m ∷ ms) t = ground (arith, starts_with-append ms t)

ends_with_sound : (ns ms : List ℕ) → ends_with ns ms ≡ true → EndsWith ns ms
ends_with_sound [] ms e = ([], codes_eq_sound [] ms e)
ends_with_sound (n ∷ ns) ms e = elim (Bool-cases (codes_eq (n ∷ ns) ms)) [
  | inl whole ↦ ([], codes_eq_sound (n ∷ ns) ms whole)
  | inr rest ↦
      (let (s, q) = ends_with_sound ns ms (ground (arith, e, rest)) in (n ∷ s, ap (◌∷◌ n) q))
]

ends_with_refl : (ms : List ℕ) → ends_with ms ms ≡ true
ends_with_refl [] = refl
ends_with_refl (m ∷ ms) = ground (arith, codes_eq_refl (m ∷ ms))

ends_with-append : (s ms : List ℕ) → ends_with (s ++ ms) ms ≡ true
ends_with-append [] ms = ends_with_refl ms
ends_with-append (n ∷ s) ms = ground (arith, ends_with-append s ms)

contains_sound : (ns ms : List ℕ) → contains ns ms ≡ true → Contains ns ms
unfolding StartsWith
contains_sound [] ms e = let (t, q) = starts_with_sound [] ms e in ([], t, q)
contains_sound (n ∷ ns) ms e = elim (Bool-cases (starts_with (n ∷ ns) ms)) [
  | inl here ↦ (let (t, q) = starts_with_sound (n ∷ ns) ms here in ([], t, q))
  | inr later ↦
      (let (s, t, q) = contains_sound ns ms (ground (arith, e, later)) in (n ∷ s, t, ap (◌∷◌ n) q))
]

contains-start : (ns ms : List ℕ) → starts_with ns ms ≡ true → contains ns ms ≡ true
contains-start [] ms e = e
contains-start (n ∷ ns) ms e = ground (arith, e)

contains-append : (s ms t : List ℕ) → contains (s ++ (ms ++ t)) ms ≡ true
contains-append [] ms t = contains-start (ms ++ t) ms (starts_with-append ms t)
contains-append (n ∷ s) ms t = ground (arith, contains-append s ms t)

pub ends_with_iff : (ns ms : List ℕ) → (ends_with ns ms ≡ true) ↔ EndsWith ns ms
ends_with_iff ns ms =
    (ends_with_sound ns ms, λ p. ap (λ x. ends_with x ms) p.1 ∙ ends_with-append p.0 ms)

pub contains_iff : (ns ms : List ℕ) → (contains ns ms ≡ true) ↔ Contains ns ms
contains_iff ns ms =
    (contains_sound ns ms, λ p. ap (λ x. contains x ms) p.2 ∙ contains-append p.0 ms p.1)

pub or_iff :
    {P Q : Type 0} {a b : Bool} → (a ≡ true) ↔ P → (b ≡ true) ↔ Q → ((a || b) ≡ true) ↔ (P ⊎ Q)
or_iff {P} {Q} {a} {b} p q = (
  λ e. elim (Bool-cases a) [
    | inl left ↦ inl (p.0 left)
    | inr other ↦ inr (q.0 (ground (arith, e, other)))
  ],
  λ s. elim s [ inl left ↦ ground (arith, p.1 left) | inr right ↦ ground (arith, q.1 right) ],
)

pub not_iff : {P : Type 0} {a : Bool} → (a ≡ true) ↔ P → (a ≡ false) ↔ (P → ⊥)
not_iff {P} {a} p = (
  λ e s. ground (arith, e, p.1 s),
  λ n. elim (Bool-cases a) [ inl holds ↦ absurd (n (p.0 holds)) | inr fails ↦ fails ],
)

-- Letters and digits that name a secret, or have another property.
abbrev pub IsSecretOr : Type 0 → List ℕ → Type 0
IsSecretOr P name =
    ((((((P ⊎ (name ≡ codes "token")) ⊎ EndsWith name (codes "token"))
            ⊎ Contains name (codes "credential"))
          ⊎ Contains name (codes "password"))
        ⊎ Contains name (codes "secret"))
      ⊎ EndsWith name (codes "apikey"))
    ⊎ Contains name (codes "privatekey")

-- A name that a receipt may not publish.
abbrev pub IsUnpublishable : String → Type 0
IsUnpublishable key =
    let name = normalized_key key in
    IsSecretOr ((name ≡ codes "confirmationid") ⊎ Contains name (codes "authorization")) name

-- A name that the arguments of an operation may not have.
abbrev pub IsCredential : String → Type 0
IsCredential key =
    let name = normalized_key key in IsSecretOr (Contains name (codes "authorization")) name

secret_iff :
    {P : Type 0} {a : Bool} (n : List ℕ)
    → (a ≡ true) ↔ P
    → ((a
          || codes_eq n (codes "token")
          || ends_with n (codes "token")
          || contains n (codes "credential")
          || contains n (codes "password")
          || contains n (codes "secret")
          || ends_with n (codes "apikey")
          || contains n (codes "privatekey"))
        ≡ true)
      ↔ IsSecretOr P n
secret_iff n p =
    or_iff
      (or_iff
        (or_iff
          (or_iff
            (or_iff
              (or_iff (or_iff p (codes_eq_iff n (codes "token"))) (ends_with_iff n (codes "token")))
              (contains_iff n (codes "credential")))
            (contains_iff n (codes "password")))
          (contains_iff n (codes "secret")))
        (ends_with_iff n (codes "apikey")))
      (contains_iff n (codes "privatekey"))

-- A name is published exactly where it is none of these.
pub published_iff :
    (key : String) → (is_sensitive_receipt_field key ≡ false) ↔ (IsUnpublishable key → ⊥)
unfolding is_sensitive_receipt_field
published_iff key =
    let n = normalized_key key in
    not_iff (
      secret_iff n
        (or_iff (codes_eq_iff n (codes "confirmationid")) (contains_iff n (codes "authorization"))))

pub kept_iff : (key : String) → (is_sensitive_field_key key ≡ false) ↔ (IsCredential key → ⊥)
unfolding is_sensitive_field_key
kept_iff key =
    let n = normalized_key key in not_iff (secret_iff n (contains_iff n (codes "authorization")))

pub lasting_iff :
    (key : String)
    → (is_confirmation_id key ≡ false) ↔ (normalized_key key ≢ codes "confirmationid")
lasting_iff key = not_iff (codes_eq_iff (normalized_key key) (codes "confirmationid"))
