-- ===== src/Core/TypedConfirmation/Arguments.antt =====
-- The arguments of an operation, as they are digested.
pub mod Again
use mcp_access_stack_legacy.Prelude.{
  String, false, some, str_eq, if◌then◌else◌, ◌↔◌, ◌≡◌, ◌≢◌, refl, inl, inr, arith, Option-cases,
  Bool-cases, ap, sym, ◌∙◌, subst,
}
use mcp_access_stack_legacy.Core.Receipts.{
  Json, null, boolean, number, non_finite, text, array, object, foreign, unsupported,
  sets_prototype, Items, nil, item, Fields, end, field, assign, as_array, as_object,
}
use mcp_access_stack_legacy.Core.Text.{normalized_key, codes}
use mcp_access_stack_legacy.Core.Receipts.Names.{IsCredential, lasting_iff, kept_iff}
use mcp_access_stack_legacy.Core.Receipts.Public.{
  HasNoPrototype, HaveNoPrototype, FieldsHaveNoPrototype,
}
use mcp_access_stack_legacy.Core.TypedConfirmation.{
  is_confirmation_id, is_sensitive_field_key, remove_ephemeral, remove_from_items,
  remove_from_fields,
}

-- No field at any depth is the id of a confirmation or has a sensitive name.
mutual
  pub IsCanonical : Json → Type 0
  IsCanonical null = Unit
  IsCanonical (boolean b) = Unit
  IsCanonical (number n) = Unit
  IsCanonical non_finite = Unit
  IsCanonical (text s) = Unit
  IsCanonical (array xs) = AreCanonical xs
  IsCanonical (object fs) = AreCanonicalFields fs
  IsCanonical (foreign fs) = AreCanonicalFields fs
  IsCanonical unsupported = Unit

  pub AreCanonical : Items → Type 0
  AreCanonical nil = Unit
  AreCanonical (item v xs) = IsCanonical v × AreCanonical xs

  pub AreCanonicalFields : Fields → Type 0
  AreCanonicalFields end = Unit
  AreCanonicalFields (field key v fs) =
      (normalized_key key ≢ codes "confirmationid")
      × (IsCredential key → ⊥)
      × (str_eq key "__proto__" ≡ false)
      × IsCanonical v
      × AreCanonicalFields fs

-- No object at any depth has a prototype of its own.
mutual
  pub IsPlain : Json → Type 0
  IsPlain null = Unit
  IsPlain (boolean b) = Unit
  IsPlain (number n) = Unit
  IsPlain non_finite = Unit
  IsPlain (text s) = Unit
  IsPlain (array xs) = ArePlain xs
  IsPlain (object fs) = ArePlainFields fs
  IsPlain (foreign fs) = ⊥
  IsPlain unsupported = Unit

  pub ArePlain : Items → Type 0
  ArePlain nil = Unit
  ArePlain (item v xs) = IsPlain v × ArePlain xs

  pub ArePlainFields : Fields → Type 0
  ArePlainFields end = Unit
  ArePlainFields (field key v fs) = IsPlain v × ArePlainFields fs

some-injective : {A : Type 0} (x y : A) → some x ≡ some y → x ≡ y
some-injective x y e = ground arith

-- What is shown of a value, of items and of fields that were accepted.
abbrev pub IsKept : Json → Json → Type 0
IsKept v w = IsCanonical w × (HasNoPrototype v → IsPlain w)

abbrev AreKept : Items → Items → Type 0
AreKept xs ys = AreCanonical ys × (HaveNoPrototype xs → ArePlain ys)

abbrev AreKeptFields : Fields → Fields → Type 0
AreKeptFields fs gs = AreCanonicalFields gs × (FieldsHaveNoPrototype fs → ArePlainFields gs)

assign-AreKept :
    (key : String) (v w : Json) (fs gs : Fields)
    → normalized_key key ≢ codes "confirmationid"
    → (IsCredential key → ⊥)
    → IsKept v w
    → AreKeptFields fs gs
    → AreKeptFields (field key v fs) (assign key w gs)
unfolding AreCanonicalFields ArePlainFields FieldsHaveNoPrototype
assign-AreKept key v w fs gs i k p q = elim (Bool-cases (str_eq key "__proto__")) [
  | inl proto ↦ rw proto (q.0, λ plain. q.1 plain.1)
  | inr other ↦ rw other ((i, k, other, p.0, q.0), λ plain. (p.1 plain.0, q.1 plain.1))
]

IsKept-object :
    (fs gs : Fields)
    → AreKeptFields fs gs
    → IsKept (object fs) (if sets_prototype fs then foreign gs else object gs)
unfolding IsCanonical IsPlain HasNoPrototype
IsKept-object fs gs p = elim (Bool-cases (sets_prototype fs)) [
  | inl sets ↦ rw sets (p.0, λ plain. absurd (ground (arith, plain.0)))
  | inr none_set ↦ rw none_set (p.0, λ plain. p.1 plain.1)
]

mutual
  unfolding remove_ephemeral remove_from_items remove_from_fields IsCanonical AreCanonical
      AreCanonicalFields IsPlain ArePlain ArePlainFields HasNoPrototype HaveNoPrototype
      FieldsHaveNoPrototype

  pub remove-IsKept : (v w : Json) → remove_ephemeral v ≡ some w → IsKept v w
  remove-IsKept null w e = subst (IsKept null) (some-injective null w e) (tt, λ _. tt)
  remove-IsKept (boolean b) w e =
      subst (IsKept (boolean b)) (some-injective (boolean b) w e) (tt, λ _. tt)
  remove-IsKept (number n) w e =
      subst (IsKept (number n)) (some-injective (number n) w e) (tt, λ _. tt)
  remove-IsKept non_finite w e =
      subst (IsKept non_finite) (some-injective non_finite w e) (tt, λ _. tt)
  remove-IsKept (text s) w e = subst (IsKept (text s)) (some-injective (text s) w e) (tt, λ _. tt)
  remove-IsKept unsupported w e =
      subst (IsKept unsupported) (some-injective unsupported w e) (tt, λ _. tt)
  remove-IsKept (foreign fs) w e = absurd (ground arith)
  remove-IsKept (array xs) w e = elim (Option-cases (remove_from_items xs)) [
    | inl refused ↦ absurd (ground arith)
    | inr (ys, kept) ↦
        subst (IsKept (array xs)) (some-injective (array ys) w (sym (ap as_array kept) ∙ e))
          (items-AreKept xs ys kept)
  ]
  remove-IsKept (object fs) w e = elim (Option-cases (remove_from_fields fs)) [
    | inl refused ↦ absurd (ground arith)
    | inr (gs, kept) ↦
        subst (IsKept (object fs))
          (some-injective (if sets_prototype fs then foreign gs else object gs) w
            (sym (ap (as_object (sets_prototype fs)) kept) ∙ e))
          (IsKept-object fs gs (fields-AreKeptFields fs gs kept))
  ]

  items-AreKept : (xs ys : Items) → remove_from_items xs ≡ some ys → AreKept xs ys
  items-AreKept nil ys e = subst (AreKept nil) (some-injective nil ys e) (tt, λ _. tt)
  items-AreKept (item v xs) ys e = elim (Option-cases (remove_ephemeral v)) [
    | inl refused ↦ absurd (ground (arith, e, refused))
    | inr (w, kept) ↦ elim (Option-cases (remove_from_items xs)) [
      | inl refused ↦ absurd (ground (arith, e, kept, refused))
      | inr (zs, rest) ↦
          (let p = remove-IsKept v w kept in
            let q = items-AreKept xs zs rest in
            subst (AreKept (item v xs))
              (some-injective (item w zs) ys (sym (rw kept (rw rest refl)) ∙ e))
              ((p.0, q.0), λ plain. (p.1 plain.0, q.1 plain.1)))
    ]
  ]

  fields-AreKeptFields : (fs gs : Fields) → remove_from_fields fs ≡ some gs → AreKeptFields fs gs
  fields-AreKeptFields end gs e = subst (AreKeptFields end) (some-injective end gs e) (tt, λ _. tt)
  fields-AreKeptFields (field key v fs) gs e = elim (Bool-cases (is_confirmation_id key)) [
    | inl ephemeral ↦
        (let q = fields-AreKeptFields fs gs (sym (rw ephemeral refl) ∙ e) in
          (q.0, λ plain. q.1 plain.1))
    | inr lasting ↦ elim (Bool-cases (is_sensitive_field_key key)) [
      | inl sensitive ↦ absurd (ground (arith, e, lasting, sensitive))
      | inr plain ↦ elim (Option-cases (remove_ephemeral v)) [
        | inl refused ↦ absurd (ground (arith, e, lasting, plain, refused))
        | inr (w, kept) ↦ elim (Option-cases (remove_from_fields fs)) [
          | inl refused ↦ absurd (ground (arith, e, lasting, plain, kept, refused))
          | inr (hs, rest) ↦
              subst (AreKeptFields (field key v fs))
                (some-injective (assign key w hs) gs
                  (sym (rw lasting (rw plain (rw kept (rw rest refl)))) ∙ e))
                (assign-AreKept key v w fs hs ((lasting_iff key).0 lasting) ((kept_iff key).0 plain)
                  (remove-IsKept v w kept) (fields-AreKeptFields fs hs rest))
        ]
      ]
    ]
  ]
