-- ===== src/Prelude/Assoc.antt =====
-- The JavaScript `Map` with string keys, as the list of its entries in insertion order.
use Prim.Native.Nat.{ℕ, suc, ◌≤◌}
use Prim.Native.String.{String}
use mathlib.Core.Path.{◌≡◌, refl}
use mathlib.Core.Bool.{Bool, true, false}
use mathlib.Core.Option.{Option, none, some}
use mathlib.Core.List.{List, [], ◌∷◌}
use native.Mathlib.Omega.{arith}
use text.Mathlib.TextEquality.{eq_iff}
use mcp_access_stack_legacy.Prelude.Tests.{if◌then◌else◌, str_eq}
use mcp_access_stack_legacy.Prelude.Lists.{length}

abbrev pub Assoc {ℓ} : Type ℓ → Type ℓ
Assoc V = List (String × V)

module _ {ℓ} {V : Type ℓ} where
  unfoldable pub get : String → Assoc V → Option V
  get k [] = none
  get k ((j, v) ∷ m) = if str_eq j k then some v else get k m

  -- A key that is present keeps its place.
  unfoldable pub put : String → V → Assoc V → Assoc V
  put k v [] = (k, v) ∷ []
  put k v ((j, w) ∷ m) = if str_eq j k then (k, v) ∷ m else (j, w) ∷ put k v m

  unfoldable pub delete : String → Assoc V → Assoc V
  delete k [] = []
  delete k ((j, w) ∷ m) = let rest = delete k m in if str_eq j k then rest else (j, w) ∷ rest

  -- `for (const [k, v] of m) if (!keep(v)) m.delete(k)`.
  unfoldable pub retain : (V → Bool) → Assoc V → Assoc V
  unfolding delete
  retain keep [] = []
  retain keep ((j, w) ∷ m) =
      let rest = retain keep m in if keep w then (j, w) ∷ rest else delete j rest

  unfoldable pub values : Assoc V → List V
  values [] = []
  values ((j, v) ∷ m) = v ∷ values m

  abbrev pub size : Assoc V → ℕ
  size = length

  abbrev pub has : String → Assoc V → Bool
  has k m = elim (get k m) [ none ↦ false | some v ↦ true ]

  -- What a test leaves of an optional value.
  abbrev pub keep_if : (V → Bool) → Option V → Option V
  keep_if keep none = none
  keep_if keep (some v) = if keep v then some v else none

  -- A test on an optional value.
  abbrev pub passes : (V → Bool) → Option V → Bool
  passes p none = false
  passes p (some v) = p v

  pub get-put :
      (j k : String) (v : V) (m : Assoc V)
      → get j (put k v m) ≡ (if str_eq k j then some v else get j m)
  unfolding get put
  get-put j k v [] = refl
  get-put j k v ((i, w) ∷ m) = ground (arith, eq_iff k j, eq_iff i k, eq_iff i j, get-put j k v m)

  pub get-delete :
      (j k : String) (m : Assoc V) → get j (delete k m) ≡ (if str_eq k j then none else get j m)
  unfolding get delete
  get-delete j k [] = ground arith
  get-delete j k ((i, w) ∷ m) = ground (arith, eq_iff k j, eq_iff i k, eq_iff i j, get-delete j k m)

  pub get-retain :
      (j : String) (keep : V → Bool) (m : Assoc V) → get j (retain keep m) ≡ keep_if keep (get j m)
  unfolding get retain
  get-retain j keep [] = refl
  get-retain j keep ((i, w) ∷ m) =
      ground (arith, eq_iff i j, get-delete j i (retain keep m), get-retain j keep m)

  pub size-put :
      (k : String) (v : V) (m : Assoc V)
      → size (put k v m) ≡ (if has k m then size m else suc (size m))
  unfolding get put
  size-put k v [] = refl
  size-put k v ((i, w) ∷ m) = ground (arith, size-put k v m)

  pub size-delete-le : (k : String) (m : Assoc V) → size (delete k m) ≤ size m
  unfolding delete
  size-delete-le k [] = omega arith
  size-delete-le k ((i, w) ∷ m) = ground (arith, size-delete-le k m)

  pub size-retain-le : (keep : V → Bool) (m : Assoc V) → size (retain keep m) ≤ size m
  unfolding retain
  size-retain-le keep [] = omega arith
  size-retain-le keep ((i, w) ∷ m) =
      ground (arith, size-retain-le keep m, size-delete-le i (retain keep m))

pub str_eq_refl : (s : String) → str_eq s s ≡ true
str_eq_refl s = (eq_iff s s).1 refl
