-- ===== src/Base/Tests.antt =====
-- Boolean tests on numbers and texts, the conditional, and optional values.
use Prim.Native.Nat.{ℕ, compare, Ordering}
use Prim.Native.String.{String}
use mathlib.Core.Path.{◌≡◌, refl}
use mathlib.Core.Logic.{◌⊎◌, inl, inr, ◌↔◌}
use mathlib.Core.Bool.{Bool, true, false, not}
use mathlib.Core.Option.{Option, none, some}
use native.Mathlib.Omega.{arith}
use text.Mathlib.Text.{◌==◌ as str_eq}
use text.Mathlib.TextEquality.{eq_iff}

abbrev pub ltb : ℕ → ℕ → Bool
ltb a b = elim (compare a b) [ Ordering.lt ↦ true | _ ↦ false ]

abbrev pub leb : ℕ → ℕ → Bool
leb a b = elim (compare a b) [ Ordering.gt ↦ false | _ ↦ true ]

-- `===` on numbers.
abbrev pub eqb : ℕ → ℕ → Bool
eqb a b = elim (compare a b) [ Ordering.eq ↦ true | _ ↦ false ]

-- `===` on texts.
infix 50 ◌==◌
abbrev pub ◌==◌ : String → String → Bool
◌==◌ = str_eq

infix 1 if◌then◌else◌
abbrev pub if◌then◌else◌ {ℓ} : {A : Type ℓ} → Bool → A → A → A
if true then x else y = x
if false then x else y = y

pub Bool-cases : (b : Bool) → (b ≡ true) ⊎ (b ≡ false)
Bool-cases true = inl refl
Bool-cases false = inr refl

pub eqb→eq : (a b : ℕ) → eqb a b ≡ true → a ≡ b
eqb→eq a b h = ground arith

-- Two tests agree if each implies the other.
pub eq_of_iff : (a b : Bool) → (a ≡ true → b ≡ true) → (b ≡ true → a ≡ true) → a ≡ b
eq_of_iff true b f g = ground (arith, f refl)
eq_of_iff false true f g = ground (arith, g refl)
eq_of_iff false false f g = refl

module _ {ℓ} {A : Type ℓ} where
  pub Option-cases : (o : Option A) → (o ≡ none) ⊎ ((a : A) × (o ≡ some a))
  Option-cases none = inl refl
  Option-cases (some a) = inr (a, refl)

  abbrev pub is_some : Option A → Bool
  is_some none = false
  is_some (some _) = true

  -- `o ?? d`
  abbrev pub get_or : Option A → A → A
  get_or none d = d
  get_or (some a) d = a

-- The truth value of a text: `""` is falsy.
abbrev pub truthy : String → Bool
truthy s = not (s == "")

-- The truth value of a text that may be `null` or `undefined`.
abbrev pub truthy? : Option String → Bool
truthy? none = false
truthy? (some s) = truthy s

-- `o === s` for a text `s` and an optional text `o`.
abbrev pub is_text : Option String → String → Bool
is_text none s = false
is_text (some t) s = t == s

-- `===` on optional texts.
abbrev pub opt_eq : Option String → Option String → Bool
opt_eq none none = true
opt_eq none (some _) = false
opt_eq (some _) none = false
opt_eq (some s) (some t) = s == t

pub opt_eq_iff : (a b : Option String) → (opt_eq a b ≡ true) ↔ (a ≡ b)
opt_eq_iff none none = ground arith
opt_eq_iff none (some t) = ground arith
opt_eq_iff (some s) none = ground arith
opt_eq_iff (some s) (some t) = ground (arith, eq_iff s t)
