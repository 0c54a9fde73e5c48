-- ===== src/Edge/Handover/Order.antt =====
-- The preference is a strict order, so that two connectors never displace each other in turn.
use mcp_access_stack_legacy.Prelude.{
  ℕ, String, Bool, true, false, Option, none, some, if◌then◌else◌, ◌==◌, ltb, str_eq, ◌≡◌, refl,
  inl, inr, arith, eq_iff, Bool-cases, ap, sym, ◌∙◌,
}
use mcp_access_stack_legacy.Edge.Handover.{
  ConnectorRuntimeIdentity, started_at, id_of, generation_of, is_preferred_start, is_preferred_at,
  is_preferred_connector_runtime,
}

module _ (locale_gt : String → String → Bool)
    (asymmetric : (a b : String) → locale_gt a b ≡ true → locale_gt b a ≡ false)
    (transitive : (a b c : String)
      → locale_gt a b ≡ true
      → locale_gt b c ≡ true
      → locale_gt a c ≡ true) where
  abbrev prefers : Option ConnectorRuntimeIdentity → Option ConnectorRuntimeIdentity → Bool
  prefers = is_preferred_connector_runtime locale_gt

  start_asymmetric :
      (p q : Option ConnectorRuntimeIdentity) (a b : ℕ)
      → is_preferred_start locale_gt p q a b ≡ true
      → is_preferred_start locale_gt q p b a ≡ false
  start_asymmetric p q a b e = elim (Bool-cases (locale_gt (id_of p) (id_of q))) [
    | inl greater ↦ ground (
      arith,
      e,
      eq_iff (id_of p) (id_of q),
      eq_iff (id_of q) (id_of p),
      asymmetric (id_of p) (id_of q) greater,
    )
    | inr other ↦ ground (arith, e, other, eq_iff (id_of p) (id_of q), eq_iff (id_of q) (id_of p))
  ]

  -- How connectors that started together compare, by their ids and generations.
  abbrev tie : String → String → ℕ → ℕ → Bool
  tie i j m n = if str_eq i j then ltb n m else locale_gt i j

  tie_transitive :
      (i j k : String) (m n o : ℕ) → tie i j m n ≡ true → tie j k n o ≡ true → tie i k m o ≡ true
  tie_transitive i j k m n o e f = elim (Bool-cases (str_eq i j)) [
    | inl ij ↦
        (let same = (eq_iff i j).0 ij in rw same (tie_first j k m n o (ground (arith, e, ij)) f))
    | inr apart ↦ elim (Bool-cases (str_eq j k)) [
      | inl jk ↦ rw (sym ((eq_iff j k).0 jk)) (rw apart (ground (arith, e, apart)))
      | inr away ↦
          (let first : locale_gt i j ≡ true = ground (arith, e, apart) in
            let second : locale_gt j k ≡ true = ground (arith, f, away) in
            elim (Bool-cases (str_eq i k)) [
              | inl ik ↦ absurd (
                  ground (
                    arith,
                    second,
                    asymmetric i j first,
                    ap (λ s. locale_gt j s) ((eq_iff i k).0 ik),
                  ))
              | inr distinct ↦ rw distinct (transitive i j k first second)
            ])
    ]
  ]
    where
      tie_first :
          (j k : String) (m n o : ℕ) → ltb n m ≡ true → tie j k n o ≡ true → tie j k m o ≡ true
      tie_first j k m n o g f = ground (arith, g, f)

  start_transitive :
      (p q r : Option ConnectorRuntimeIdentity) (a b c : ℕ)
      → is_preferred_start locale_gt p q a b ≡ true
      → is_preferred_start locale_gt q r b c ≡ true
      → is_preferred_start locale_gt p r a c ≡ true
  start_transitive p q r a b c e f = elim (Bool-cases (a == b)) [
    | inl ab ↦ elim (Bool-cases (b == c)) [
      | inl bc ↦ rw (ac ab bc) (
          tie_transitive (id_of p) (id_of q) (id_of r) (generation_of p) (generation_of q)
            (generation_of r) (sym (rw ab refl) ∙ e) (sym (rw bc refl) ∙ f))
      | inr later ↦ ground (arith, ab, later, f)
    ]
    | inr later ↦ ground (arith, later, e, f)
  ]
    where
      ac : (a == b) ≡ true → (b == c) ≡ true → (a == c) ≡ true
      ac ab bc = ground arith

  -- Where `localeCompare` orders asymmetrically and transitively: no connector is preferred to itself, two
  -- connectors are not preferred to each other, and a connector that is preferred to one that is
  -- preferred to a third is preferred to the third.
  pub is_preferred_order :
      (p q r : Option ConnectorRuntimeIdentity)
      → (prefers p p ≡ false)
        × (prefers p q ≡ true → prefers q p ≡ false)
        × (prefers p q ≡ true → prefers q r ≡ true → prefers p r ≡ true)
  unfolding is_preferred_connector_runtime
  is_preferred_order p q r = (
    self (started_at p),
    at_asymmetric (started_at p) (started_at q),
    at_transitive (started_at p) (started_at q) (started_at r),
  )
    where
      self : (a : Option ℕ) → is_preferred_at locale_gt p p a a ≡ false
      self none = refl
      self (some a) = ground (arith, eq_iff (id_of p) (id_of p))

      at_asymmetric :
          (a b : Option ℕ)
          → is_preferred_at locale_gt p q a b ≡ true
          → is_preferred_at locale_gt q p b a ≡ false
      at_asymmetric none b e = absurd (ground (arith, e))
      at_asymmetric (some a) none e = refl
      at_asymmetric (some a) (some b) e = start_asymmetric p q a b e

      at_transitive :
          (a b c : Option ℕ)
          → is_preferred_at locale_gt p q a b ≡ true
          → is_preferred_at locale_gt q r b c ≡ true
          → is_preferred_at locale_gt p r a c ≡ true
      at_transitive none b c e f = absurd (ground (arith, e))
      at_transitive (some a) none c e f = absurd (ground (arith, f))
      at_transitive (some a) (some b) none e f = refl
      at_transitive (some a) (some b) (some c) e f = start_transitive p q r a b c e f
