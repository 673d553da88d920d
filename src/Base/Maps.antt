-- ===== src/Base/Maps.antt =====
-- A Map of JavaScript with texts as keys, as the list of its entries in the order of insertion.
use Prim.Native.Nat.{ℕ, ◌+◌, ◌≤◌}
use mathlib.Core.Path.{◌≡◌, refl}
use mathlib.Core.Bool.{Bool, true}
use mathlib.Core.Option.{Option, none, some}
use mathlib.Core.List.{List, [], ◌∷◌}
use native.Mathlib.Omega.{arith}
use rac3011_api.Base.Tests.{if◌then◌else◌}
use rac3011_api.Base.Lists.{length, any}
use rac3011_api.Base.Texts.{text_eq, text_eq_iff}

module _ {V : Type 0} where
  -- `map.get(key)`
  abbrev pub get_key : List ℕ → List (List ℕ × V) → Option V
  get_key key [] = none
  get_key key ((k, v) ∷ m) = if text_eq k key then some v else get_key key m

  -- `map.set(key, value)`: an old entry keeps its place.
  abbrev pub set_key : List ℕ → V → List (List ℕ × V) → List (List ℕ × V)
  set_key key value [] = (key, value) ∷ []
  set_key key value ((k, v) ∷ m) =
      if text_eq k key then (key, value) ∷ m else (k, v) ∷ set_key key value m

  -- `map.delete(key)`
  abbrev pub delete_key : List ℕ → List (List ℕ × V) → List (List ℕ × V)
  delete_key key [] = []
  delete_key key ((k, v) ∷ m) =
      if text_eq k key then delete_key key m else (k, v) ∷ delete_key key m

  -- `map.values()`
  abbrev pub values : List (List ℕ × V) → List V
  values [] = []
  values ((k, v) ∷ m) = v ∷ values m

  pub get_key-set_key :
      (j key : List ℕ) (value : V) (m : List (List ℕ × V))
      → get_key j (set_key key value m) ≡ (if text_eq key j then some value else get_key j m)
  get_key-set_key j key value [] = refl
  get_key-set_key j key value ((k, v) ∷ m) =
      ground (
        arith,
        text_eq_iff key j,
        text_eq_iff k key,
        text_eq_iff k j,
        get_key-set_key j key value m,
      )

  pub get_key-delete_key :
      (j key : List ℕ) (m : List (List ℕ × V))
      → get_key j (delete_key key m) ≡ (if text_eq key j then none else get_key j m)
  get_key-delete_key j key [] = ground arith
  get_key-delete_key j key ((k, v) ∷ m) =
      ground
        (arith, text_eq_iff key j, text_eq_iff k key, text_eq_iff k j, get_key-delete_key j key m)

  pub length-set_key :
      (key : List ℕ) (value : V) (m : List (List ℕ × V))
      → length (set_key key value m) ≤ length m + 1
  length-set_key key value [] = omega arith
  length-set_key key value ((k, v) ∷ m) = ground (arith, length-set_key key value m)

  pub any-values :
      (p : V → Bool) (key : List ℕ) (v : V) (m : List (List ℕ × V))
      → get_key key m ≡ some v
      → p v ≡ true
      → any p (values m) ≡ true
  any-values p key v [] e h = cc
  any-values p key v ((k, x) ∷ m) e h = ground (arith, any-values p key v m)
