-- ===== src/Prelude/Unique.antt =====
-- Maps whose keys are all different, as `Map.set` keeps them, and what `values` then holds.
use Prim.Native.String.{String}
use mathlib.Core.Path.{◌≡◌, refl}
use mathlib.Core.Logic.{inl, inr}
use mathlib.Core.Bool.{Bool, true}
use mathlib.Core.Option.{none, some}
use mathlib.Core.List.{List, [], ◌∷◌, map}
use native.Mathlib.Omega.{arith}
use text.Mathlib.TextEquality.{eq_iff}
use mcp_access_stack_legacy.Prelude.Tests.{Bool-cases}
use mcp_access_stack_legacy.Prelude.Lists.{filter, includes}
use mcp_access_stack_legacy.Prelude.Assoc.{
  Assoc, get, put, delete, values, passes, get-put, get-delete,
}

module _ {ℓ} {V : Type ℓ} where
  abbrev pub Unique : Assoc V → Type ℓ
  Unique [] = Unit
  Unique ((k, v) ∷ m) = (get k m ≡ none) × Unique m

  pub put-Unique : (k : String) (v : V) (m : Assoc V) → Unique m → Unique (put k v m)
  unfolding put
  put-Unique k v [] u = (unfold get in refl, tt)
  put-Unique k v ((j, w) ∷ m) u =
      ground (arith, put-Unique k v m u.1, get-put j k v m, eq_iff j k, eq_iff k j, u.0, u.1)

  pub delete-Unique : (k : String) (m : Assoc V) → Unique m → Unique (delete k m)
  unfolding delete
  delete-Unique k [] u = tt
  delete-Unique k ((j, w) ∷ m) u = ground (arith, delete-Unique k m u.1, get-delete j k m, u.0)

  -- The first value that passes a test is stored under some key.
  pub get-filter-values :
      (p : V → Bool) (m : Assoc V) (v : V) (vs : List V)
      → Unique m
      → filter p (values m) ≡ v ∷ vs
      → (k : String) × (get k m ≡ some v) × (p v ≡ true)
  unfolding filter values get
  get-filter-values p [] v vs u e = ground arith
  get-filter-values p ((j, w) ∷ m) v vs u e = elim (Bool-cases (p w)) [
    | inl passes ↦ (j, ground (arith, eq_iff j j), ground arith)
    | inr fails ↦
        (let (k, found, passes) = get-filter-values p m v vs u.1 (ground arith) in
          (k, ground (arith, eq_iff j k, u.0), passes))
  ]

  -- Of a map whose values hold their keys, the keys of the values that pass a test.
  pub includes-map-filter-values :
      (key : V → String) (p : V → Bool) (m : Assoc V) (k : String)
      → Unique m
      → ((j : String) (v : V) → get j m ≡ some v → key v ≡ j)
      → includes (map key (filter p (values m))) k ≡ passes p (get k m)
  unfolding filter values get includes
  includes-map-filter-values key p [] k u keyed = refl
  includes-map-filter-values key p ((j, w) ∷ m) k u keyed = ground (
    arith,
    eq_iff j k,
    eq_iff (key w) k,
    eq_iff j j,
    keyed j w,
    u.0,
    includes-map-filter-values key p m k u.1 (λ i v e. keyed i v (ground (arith, eq_iff j i, u.0))),
  )
