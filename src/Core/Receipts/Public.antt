-- ===== src/Core/Receipts/Public.antt =====
-- Which values a receipt may publish as its result, and what `parsePublicResultValue` makes of them.
pub mod Clone
use mcp_access_stack_legacy.Prelude.{
  false, some, str_eq, if◌then◌else◌, sym, ◌∙◌, ◌≡◌, refl, ◌↔◌, inl, inr, arith, Option-cases,
  Bool-cases, ap,
}
use mcp_access_stack_legacy.Core.Receipts.Names.{IsUnpublishable, published_iff}
use mcp_access_stack_legacy.Core.Receipts.{
  Json, null, boolean, number, non_finite, text, array, object, foreign, unsupported, Items, nil,
  item, Fields, end, field, is_sensitive_receipt_field, assign, parse_value, parse_items,
  parse_fields, sets_prototype, clone_value, clone_items, clone_fields,
}

-- No field at any depth has a sensitive name, every number is finite, and every part is a JSON value.
mutual
  pub IsPublic : Json → Type 0
  IsPublic null = Unit
  IsPublic (boolean b) = Unit
  IsPublic (number n) = Unit
  IsPublic non_finite = ⊥
  IsPublic (text s) = Unit
  IsPublic (array xs) = ArePublic xs
  IsPublic (object fs) = ArePublicFields fs
  IsPublic (foreign fs) = ⊥
  IsPublic unsupported = ⊥

  pub ArePublic : Items → Type 0
  ArePublic nil = Unit
  ArePublic (item v xs) = IsPublic v × ArePublic xs

  pub ArePublicFields : Fields → Type 0
  ArePublicFields end = Unit
  ArePublicFields (field key v fs) = (IsUnpublishable key → ⊥) × IsPublic v × ArePublicFields fs

-- The value without its fields named `__proto__`.
mutual
  pub without_proto : Json → Json
  without_proto (array xs) = array (items_without_proto xs)
  without_proto (object fs) = object (fields_without_proto fs)
  without_proto null = null
  without_proto (boolean b) = boolean b
  without_proto (number n) = number n
  without_proto non_finite = non_finite
  without_proto (text s) = text s
  without_proto (foreign fs) = foreign fs
  without_proto unsupported = unsupported

  pub items_without_proto : Items → Items
  items_without_proto nil = nil
  items_without_proto (item v xs) = item (without_proto v) (items_without_proto xs)

  pub fields_without_proto : Fields → Fields
  fields_without_proto end = end
  fields_without_proto (field key v fs) = assign key (without_proto v) (fields_without_proto fs)

-- What is made of a public value.
mutual
  unfolding sets_prototype

  pub parsed : Json → Json
  parsed (array xs) = array (parsed_items xs)
  parsed (object fs) =
      if sets_prototype fs then foreign (parsed_fields fs) else object (parsed_fields fs)
  parsed null = null
  parsed (boolean b) = boolean b
  parsed (number n) = number n
  parsed non_finite = non_finite
  parsed (text s) = text s
  parsed (foreign fs) = foreign fs
  parsed unsupported = unsupported

  pub parsed_items : Items → Items
  parsed_items nil = nil
  parsed_items (item v xs) = item (parsed v) (parsed_items xs)

  pub parsed_fields : Fields → Fields
  parsed_fields end = end
  parsed_fields (field key v fs) = assign key (parsed v) (parsed_fields fs)

-- No object at any depth has a field `__proto__` that holds an object or an array.
unfoldable mutual
  pub HasNoPrototype : Json → Type 0
  HasNoPrototype null = Unit
  HasNoPrototype (boolean b) = Unit
  HasNoPrototype (number n) = Unit
  HasNoPrototype non_finite = Unit
  HasNoPrototype (text s) = Unit
  HasNoPrototype (array xs) = HaveNoPrototype xs
  HasNoPrototype (object fs) = (sets_prototype fs ≡ false) × FieldsHaveNoPrototype fs
  HasNoPrototype (foreign fs) = ⊥
  HasNoPrototype unsupported = Unit

  pub HaveNoPrototype : Items → Type 0
  HaveNoPrototype nil = Unit
  HaveNoPrototype (item v xs) = HasNoPrototype v × HaveNoPrototype xs

  pub FieldsHaveNoPrototype : Fields → Type 0
  FieldsHaveNoPrototype end = Unit
  FieldsHaveNoPrototype (field key v fs) = HasNoPrototype v × FieldsHaveNoPrototype fs

mutual
  unfolding parse_value parse_items parse_fields IsPublic ArePublic ArePublicFields parsed
      parsed_items parsed_fields

  pub parse_value_sound : (v w : Json) → parse_value v ≡ some w → IsPublic v × (w ≡ parsed v)
  parse_value_sound null w e = (tt, ground arith)
  parse_value_sound (boolean b) w e = (tt, ground arith)
  parse_value_sound (number n) w e = (tt, ground arith)
  parse_value_sound non_finite w e = absurd (ground arith)
  parse_value_sound (text s) w e = (tt, ground arith)
  parse_value_sound (array xs) w e = elim (Option-cases (parse_items xs)) [
    | inl refused ↦ absurd (ground arith)
    | inr (ys, parsed) ↦ (let p = parse_items_sound xs ys parsed in (p.0, ground (arith, p.1)))
  ]
  parse_value_sound (object fs) w e = elim (Option-cases (parse_fields fs)) [
    | inl refused ↦ absurd (ground arith)
    | inr (gs, parsed) ↦ (let p = parse_fields_sound fs gs parsed in (p.0, ground (arith, p.1)))
  ]
  parse_value_sound (foreign fs) w e = absurd (ground arith)
  parse_value_sound unsupported w e = absurd (ground arith)

  parse_items_sound :
      (xs ys : Items) → parse_items xs ≡ some ys → ArePublic xs × (ys ≡ parsed_items xs)
  parse_items_sound nil ys e = (tt, ground arith)
  parse_items_sound (item v xs) ys e = elim (Option-cases (parse_value v)) [
    | inl refused ↦ absurd (ground arith)
    | inr (w, parsed) ↦ elim (Option-cases (parse_items xs)) [
      | inl refused ↦ absurd (ground arith)
      | inr (zs, rest) ↦
          (let p = parse_value_sound v w parsed in
            let q = parse_items_sound xs zs rest in ((p.0, q.0), ground (arith, p.1, q.1)))
    ]
  ]

  parse_fields_sound :
      (fs gs : Fields) → parse_fields fs ≡ some gs → ArePublicFields fs × (gs ≡ parsed_fields fs)
  parse_fields_sound end gs e = (tt, ground arith)
  parse_fields_sound (field key v fs) gs e = elim (Option-cases (parse_value v)) [
    | inl refused ↦ absurd (ground arith)
    | inr (w, parsed) ↦ elim (Option-cases (parse_fields fs)) [
      | inl refused ↦ absurd (ground arith)
      | inr (hs, rest) ↦
          (let p = parse_value_sound v w parsed in
            let q = parse_fields_sound fs hs rest in
            (
              ((published_iff key).0 (ground (arith, e, parsed, rest)), p.0, q.0),
              ground (arith, p.1, q.1),
            ))
    ]
  ]

  pub parse_value_complete : (v : Json) → IsPublic v → parse_value v ≡ some (parsed v)
  parse_value_complete null p = refl
  parse_value_complete (boolean b) p = refl
  parse_value_complete (number n) p = refl
  parse_value_complete non_finite p = absurd p
  parse_value_complete (text s) p = refl
  parse_value_complete (array xs) p = rw (parse_items_complete xs p)
  parse_value_complete (object fs) p = rw (parse_fields_complete fs p)
  parse_value_complete (foreign fs) p = absurd p
  parse_value_complete unsupported p = absurd p

  parse_items_complete : (xs : Items) → ArePublic xs → parse_items xs ≡ some (parsed_items xs)
  parse_items_complete nil p = refl
  parse_items_complete (item v xs) p = rw (parse_value_complete v p.0, parse_items_complete xs p.1)

  parse_fields_complete :
      (fs : Fields) → ArePublicFields fs → parse_fields fs ≡ some (parsed_fields fs)
  parse_fields_complete end p = refl
  parse_fields_complete (field key v fs) p =
      rw ((published_iff key).1 p.0, parse_value_complete v p.1, parse_fields_complete fs p.2)
