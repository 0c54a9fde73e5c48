-- ===== src/Core/TypedConfirmation/Arguments/Again.antt =====
-- The arguments of an operation, taken through `removeEphemeralAndRejectSensitive` a second time.
use mcp_access_stack_legacy.Prelude.{false, some, ◌↔◌, ◌≡◌, refl, inl, inr, arith, Option-cases, ap}
use mcp_access_stack_legacy.Core.Receipts.{
  Json, null, boolean, number, non_finite, text, array, object, foreign, unsupported,
  sets_prototype, Items, nil, item, Fields, end, field, as_array, as_object,
}
use mcp_access_stack_legacy.Core.Receipts.Names.{lasting_iff, kept_iff}
use mcp_access_stack_legacy.Core.Receipts.Public.{HasNoPrototype}
use mcp_access_stack_legacy.Core.TypedConfirmation.{
  remove_ephemeral, remove_from_items, remove_from_fields,
}
use mcp_access_stack_legacy.Core.TypedConfirmation.Arguments.{
  IsCanonical, AreCanonical, AreCanonicalFields, IsPlain, ArePlain, ArePlainFields, remove-IsKept,
}

canonical_sets_prototype : (fs : Fields) → AreCanonicalFields fs → sets_prototype fs ≡ false
unfolding AreCanonicalFields sets_prototype
canonical_sets_prototype end p = refl
canonical_sets_prototype (field key v fs) (i, k, proto, p, q) =
    rw proto (canonical_sets_prototype fs q)

mutual
  unfolding remove_ephemeral remove_from_items remove_from_fields IsCanonical AreCanonical
      AreCanonicalFields IsPlain ArePlain ArePlainFields

  plain-remove : (v : Json) → IsCanonical v → IsPlain v → remove_ephemeral v ≡ some v
  plain-remove null p plain = refl
  plain-remove (boolean b) p plain = refl
  plain-remove (number n) p plain = refl
  plain-remove non_finite p plain = refl
  plain-remove (text s) p plain = refl
  plain-remove unsupported p plain = refl
  plain-remove (array xs) p plain = ap as_array (plain-remove_items xs p plain)
  plain-remove (object fs) p plain =
      rw (canonical_sets_prototype fs p) (ap (as_object false) (plain-remove_fields fs p plain))
  plain-remove (foreign fs) p plain = absurd plain

  plain-remove_items : (xs : Items) → AreCanonical xs → ArePlain xs → remove_from_items xs ≡ some xs
  plain-remove_items nil p plain = refl
  plain-remove_items (item v xs) (p, q) plain =
      rw (plain-remove v p plain.0) (rw (plain-remove_items xs q plain.1) refl)

  plain-remove_fields :
      (fs : Fields) → AreCanonicalFields fs → ArePlainFields fs → remove_from_fields fs ≡ some fs
  plain-remove_fields end p plain = refl
  plain-remove_fields (field key v fs) (i, k, proto, p, q) plain = rw ((lasting_iff key).1 i) (
      rw ((kept_iff key).1 k)
        (rw (plain-remove v p plain.0) (rw (plain-remove_fields fs q plain.1) (rw proto refl))))

mutual
  unfolding remove_ephemeral remove_from_items remove_from_fields IsCanonical AreCanonical
      AreCanonicalFields IsPlain ArePlain ArePlainFields

  remove-IsPlain : (v w : Json) → IsCanonical v → remove_ephemeral v ≡ some w → IsPlain v
  remove-IsPlain null w p e = tt
  remove-IsPlain (boolean b) w p e = tt
  remove-IsPlain (number n) w p e = tt
  remove-IsPlain non_finite w p e = tt
  remove-IsPlain (text s) w p e = tt
  remove-IsPlain unsupported w p e = tt
  remove-IsPlain (foreign fs) w p e = absurd (ground arith)
  remove-IsPlain (array xs) w p e = elim (Option-cases (remove_from_items xs)) [
    | inl refused ↦ absurd (ground arith)
    | inr (ys, kept) ↦ items-ArePlain xs ys p kept
  ]
  remove-IsPlain (object fs) w p e = elim (Option-cases (remove_from_fields fs)) [
    | inl refused ↦ absurd (ground arith)
    | inr (gs, kept) ↦ fields-ArePlainFields fs gs p kept
  ]

  items-ArePlain : (xs ys : Items) → AreCanonical xs → remove_from_items xs ≡ some ys → ArePlain xs
  items-ArePlain nil ys p e = tt
  items-ArePlain (item v xs) ys (p, q) e = elim (Option-cases (remove_ephemeral v)) [
    | inl refused ↦ absurd (ground (arith, e, refused))
    | inr (w, kept) ↦ elim (Option-cases (remove_from_items xs)) [
      | inl refused ↦ absurd (ground (arith, e, kept, refused))
      | inr (zs, rest) ↦ (remove-IsPlain v w p kept, items-ArePlain xs zs q rest)
    ]
  ]

  fields-ArePlainFields :
      (fs gs : Fields) → AreCanonicalFields fs → remove_from_fields fs ≡ some gs → ArePlainFields fs
  fields-ArePlainFields end gs p e = tt
  fields-ArePlainFields (field key v fs) gs (i, k, proto, p, q) e =
      let lasting = (lasting_iff key).1 i in
      let harmless = (kept_iff key).1 k in
      elim (Option-cases (remove_ephemeral v)) [
        | inl refused ↦ absurd (ground (arith, e, lasting, harmless, refused))
        | inr (w, kept) ↦ elim (Option-cases (remove_from_fields fs)) [
          | inl refused ↦ absurd (ground (arith, e, lasting, harmless, kept, refused))
          | inr (hs, rest) ↦ (remove-IsPlain v w p kept, fields-ArePlainFields fs hs q rest)
        ]
      ]

-- Where the arguments are accepted, no field of the result, at any depth, is named like the id of a
-- confirmation or like a secret: in the lower-case letters and digits of its name it is not
-- `confirmationid` or `token`, does not end in `token` or `apikey`, and does not contain `authorization`,
-- `credential`, `password`, `secret` or `privatekey`. Taking the result through the same step again changes nothing exactly
-- where no object in it has a prototype of its own, and none has one where no field `__proto__` of the
-- arguments, at any depth, holds an object or an array.
pub remove_ephemeral-IsCanonical :
    (v w : Json)
    → remove_ephemeral v ≡ some w
    → IsCanonical w × ((remove_ephemeral w ≡ some w) ↔ IsPlain w) × (HasNoPrototype v → IsPlain w)
remove_ephemeral-IsCanonical v w e =
    let p = remove-IsKept v w e in (p.0, (remove-IsPlain w w p.0, plain-remove w p.0), p.1)
