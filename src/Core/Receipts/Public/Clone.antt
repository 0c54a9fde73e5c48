-- ===== src/Core/Receipts/Public/Clone.antt =====
-- What a store keeps of a value that `parsePublicResultValue` accepts: the clone of its result.
use mcp_access_stack_legacy.Prelude.{
  false, some, str_eq, sym, ◌∙◌, ◌≡◌, refl, ◌↔◌, inl, inr, Bool-cases, ap,
}
use mcp_access_stack_legacy.Core.Receipts.{
  Json, null, boolean, number, non_finite, text, array, object, foreign, unsupported, Items, nil,
  item, Fields, end, field, parse_value, sets_prototype, clone_value, clone_items, clone_fields,
}
use mcp_access_stack_legacy.Core.Receipts.Public.{
  IsPublic, ArePublic, ArePublicFields, without_proto, items_without_proto, fields_without_proto,
  parsed, parsed_items, parsed_fields, HasNoPrototype, HaveNoPrototype, FieldsHaveNoPrototype,
  parse_value_sound, parse_value_complete,
}

sets_prototype-without_proto : (fs : Fields) → sets_prototype (fields_without_proto fs) ≡ false
unfolding sets_prototype fields_without_proto
sets_prototype-without_proto end = refl
sets_prototype-without_proto (field key v fs) = elim (Bool-cases (str_eq key "__proto__")) [
  | inl proto ↦ rw proto (sets_prototype-without_proto fs)
  | inr other ↦ rw other (rw (other, sets_prototype-without_proto fs))
]

mutual
  unfolding IsPublic ArePublic ArePublicFields without_proto items_without_proto
      fields_without_proto

  without_proto-IsPublic : (v : Json) → IsPublic v → IsPublic (without_proto v)
  without_proto-IsPublic null p = tt
  without_proto-IsPublic (boolean b) p = tt
  without_proto-IsPublic (number n) p = tt
  without_proto-IsPublic non_finite p = p
  without_proto-IsPublic (text s) p = tt
  without_proto-IsPublic (array xs) p = items_without_proto-ArePublic xs p
  without_proto-IsPublic (object fs) p = fields_without_proto-ArePublicFields fs p
  without_proto-IsPublic (foreign fs) p = p
  without_proto-IsPublic unsupported p = p

  items_without_proto-ArePublic : (xs : Items) → ArePublic xs → ArePublic (items_without_proto xs)
  items_without_proto-ArePublic nil p = tt
  items_without_proto-ArePublic (item v xs) p =
      (without_proto-IsPublic v p.0, items_without_proto-ArePublic xs p.1)

  fields_without_proto-ArePublicFields :
      (fs : Fields) → ArePublicFields fs → ArePublicFields (fields_without_proto fs)
  fields_without_proto-ArePublicFields end p = tt
  fields_without_proto-ArePublicFields (field key v fs) p =
      elim (Bool-cases (str_eq key "__proto__")) [
        | inl proto ↦ rw proto (fields_without_proto-ArePublicFields fs p.2)
        | inr other ↦
            rw other
              (p.0, without_proto-IsPublic v p.1, fields_without_proto-ArePublicFields fs p.2)
      ]

mutual
  unfolding parsed parsed_items parsed_fields without_proto items_without_proto fields_without_proto

  parsed-without_proto : (v : Json) → parsed (without_proto v) ≡ without_proto v
  parsed-without_proto null = refl
  parsed-without_proto (boolean b) = refl
  parsed-without_proto (number n) = refl
  parsed-without_proto non_finite = refl
  parsed-without_proto (text s) = refl
  parsed-without_proto (array xs) = rw (parsed_items-without_proto xs)
  parsed-without_proto (object fs) =
      rw (sets_prototype-without_proto fs, parsed_fields-without_proto fs)
  parsed-without_proto (foreign fs) = refl
  parsed-without_proto unsupported = refl

  parsed_items-without_proto :
      (xs : Items) → parsed_items (items_without_proto xs) ≡ items_without_proto xs
  parsed_items-without_proto nil = refl
  parsed_items-without_proto (item v xs) =
      rw (parsed-without_proto v, parsed_items-without_proto xs)

  parsed_fields-without_proto :
      (fs : Fields) → parsed_fields (fields_without_proto fs) ≡ fields_without_proto fs
  parsed_fields-without_proto end = refl
  parsed_fields-without_proto (field key v fs) = elim (Bool-cases (str_eq key "__proto__")) [
    | inl proto ↦ rw proto (parsed_fields-without_proto fs)
    | inr other ↦ rw other (rw (other, parsed-without_proto v, parsed_fields-without_proto fs))
  ]

mutual
  unfolding parsed parsed_items parsed_fields without_proto items_without_proto fields_without_proto
      HasNoPrototype HaveNoPrototype FieldsHaveNoPrototype

  parsed_plain : (v : Json) → HasNoPrototype v → parsed v ≡ without_proto v
  parsed_plain null p = refl
  parsed_plain (boolean b) p = refl
  parsed_plain (number n) p = refl
  parsed_plain non_finite p = refl
  parsed_plain (text s) p = refl
  parsed_plain (array xs) p = rw (parsed_items_plain xs p)
  parsed_plain (object fs) p = rw (p.0, parsed_fields_plain fs p.1)
  parsed_plain (foreign fs) p = refl
  parsed_plain unsupported p = refl

  parsed_items_plain : (xs : Items) → HaveNoPrototype xs → parsed_items xs ≡ items_without_proto xs
  parsed_items_plain nil p = refl
  parsed_items_plain (item v xs) p = rw (parsed_plain v p.0, parsed_items_plain xs p.1)

  parsed_fields_plain :
      (fs : Fields) → FieldsHaveNoPrototype fs → parsed_fields fs ≡ fields_without_proto fs
  parsed_fields_plain end p = refl
  parsed_fields_plain (field key v fs) p = rw (parsed_plain v p.0, parsed_fields_plain fs p.1)

mutual
  unfolding parsed parsed_items parsed_fields without_proto items_without_proto fields_without_proto
      IsPublic ArePublic ArePublicFields clone_value clone_items clone_fields

  clone_value-parsed : (v : Json) → IsPublic v → clone_value (parsed v) ≡ without_proto v
  clone_value-parsed null p = refl
  clone_value-parsed (boolean b) p = refl
  clone_value-parsed (number n) p = refl
  clone_value-parsed non_finite p = absurd p
  clone_value-parsed (text s) p = refl
  clone_value-parsed (array xs) p = rw (clone_items-parsed xs p)
  clone_value-parsed (object fs) p = elim (Bool-cases (sets_prototype fs)) [
    | inl sets ↦ rw sets (rw (clone_fields-parsed fs p))
    | inr plain ↦ rw plain (rw (clone_fields-parsed fs p))
  ]
  clone_value-parsed (foreign fs) p = absurd p
  clone_value-parsed unsupported p = absurd p

  clone_items-parsed :
      (xs : Items) → ArePublic xs → clone_items (parsed_items xs) ≡ items_without_proto xs
  clone_items-parsed nil p = refl
  clone_items-parsed (item v xs) p = rw (clone_value-parsed v p.0, clone_items-parsed xs p.1)

  clone_fields-parsed :
      (fs : Fields) → ArePublicFields fs → clone_fields (parsed_fields fs) ≡ fields_without_proto fs
  clone_fields-parsed end p = refl
  clone_fields-parsed (field key v fs) p = elim (Bool-cases (str_eq key "__proto__")) [
    | inl proto ↦ rw proto (clone_fields-parsed fs p.2)
    | inr other ↦ rw other (rw (clone_value-parsed v p.1, clone_fields-parsed fs p.2))
  ]

mutual
  unfolding IsPublic ArePublic ArePublicFields clone_value clone_items clone_fields

  clone_public : (v : Json) → IsPublic v → clone_value v ≡ v
  clone_public null p = refl
  clone_public (boolean b) p = refl
  clone_public (number n) p = refl
  clone_public non_finite p = absurd p
  clone_public (text s) p = refl
  clone_public (array xs) p = rw (clone_items_public xs p)
  clone_public (object fs) p = rw (clone_fields_public fs p)
  clone_public (foreign fs) p = absurd p
  clone_public unsupported p = absurd p

  clone_items_public : (xs : Items) → ArePublic xs → clone_items xs ≡ xs
  clone_items_public nil p = refl
  clone_items_public (item v xs) p = rw (clone_public v p.0, clone_items_public xs p.1)

  clone_fields_public : (fs : Fields) → ArePublicFields fs → clone_fields fs ≡ fs
  clone_fields_public end p = refl
  clone_fields_public (field key v fs) p = rw (clone_public v p.1, clone_fields_public fs p.2)

-- What is kept of an accepted value is public, and accepted again as it is.
pub parse_value_kept :
    (v w : Json)
    → parse_value v ≡ some w
    → IsPublic (clone_value w) × (parse_value (clone_value w) ≡ some (clone_value w))
parse_value_kept v w e =
    let p = parse_value_sound v w e in
    let public = without_proto-IsPublic v p.0 in
    rw p.1 (
      rw (clone_value-parsed v p.0)
        (public, parse_value_complete (without_proto v) public ∙ ap some (parsed-without_proto v)))

-- `parseMutationReceiptPublicResult` accepts exactly the values in which every number is finite, every
-- part is a JSON value, and no field at any depth has a sensitive name: one that, in its lower-case letters
-- and digits, is `confirmationid` or `token`, ends in `token` or `apikey`, or contains `authorization`,
-- `credential`, `password`, `secret` or `privatekey`. The clone of what it returns,
-- which a store keeps, is the value without its fields named `__proto__`; the clone is public, and
-- accepted again unchanged. What it returns is that clone itself where no field `__proto__` at any depth
-- holds an object or an array.
pub parse_value_iff :
    (v : Json)
    → (((w : Json) × (parse_value v ≡ some w)) ↔ IsPublic v)
      × ((w : Json)
          → parse_value v ≡ some w
          → (clone_value w ≡ without_proto v)
            × IsPublic (clone_value w)
            × (parse_value (clone_value w) ≡ some (clone_value w))
            × (HasNoPrototype v → w ≡ clone_value w))
parse_value_iff v = (
  (λ p. (parse_value_sound v p.0 p.1).0, λ p. (parsed v, parse_value_complete v p)),
  λ w e.
      (let p = parse_value_sound v w e in
        let kept = parse_value_kept v w e in
        let clone : clone_value w ≡ without_proto v = rw p.1 (clone_value-parsed v p.0) in
        (clone, kept.0, kept.1, λ plain. p.1 ∙ parsed_plain v plain ∙ sym clone)),
)

-- A value that is returned as it is is its own clone.
pub clone_accepted : (v : Json) → parse_value v ≡ some v → clone_value v ≡ v
clone_accepted v e = clone_public v (parse_value_sound v v e).0
