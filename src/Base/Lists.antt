-- ===== src/Base/Lists.antt =====
-- Lists measured by native numbers, searched by Boolean tests, and sets of texts in insertion order.
use Prim.Native.Nat.{ℕ, zero, suc, ◌<◌}
use Prim.Native.String.{String}
use mathlib.Core.Path.{◌≡◌, refl}
use mathlib.Core.Logic.{inl, inr}
use mathlib.Core.Bool.{Bool, true, false, not, ◌&&◌, ◌||◌}
use mathlib.Core.Option.{Option, none, some}
use mathlib.Core.List.{List, [], ◌∷◌, ◌++◌}
use native.Mathlib.Omega.{arith}
use text.Mathlib.TextEquality.{eq_iff}
use rac3011_api.Base.Tests.{eqb, eqb→eq, Bool-cases, ◌==◌, if◌then◌else◌}

module _ {ℓ} {A : Type ℓ} where
  abbrev pub length : List A → ℕ
  length [] = 0
  length (x ∷ xs) = suc (length xs)

  -- `xs.some(p)`
  abbrev pub any : (A → Bool) → List A → Bool
  any p [] = false
  any p (x ∷ xs) = p x || any p xs

  -- `xs.every(p)`
  abbrev pub all : (A → Bool) → List A → Bool
  all p [] = true
  all p (x ∷ xs) = p x && all p xs

  -- `xs.filter(p)`
  abbrev pub keep : (A → Bool) → List A → List A
  keep p [] = []
  keep p (x ∷ xs) = if p x then x ∷ keep p xs else keep p xs

  -- `xs.find(p)`
  abbrev pub find : (A → Bool) → List A → Option A
  find p [] = none
  find p (x ∷ xs) = if p x then some x else find p xs

  pub any-append : (p : A → Bool) (xs ys : List A) → any p (xs ++ ys) ≡ (any p xs || any p ys)
  any-append p [] ys = refl
  any-append p (x ∷ xs) ys = ground (arith, any-append p xs ys)

  pub keep-append : (p : A → Bool) (xs ys : List A) → keep p (xs ++ ys) ≡ keep p xs ++ keep p ys
  keep-append p [] ys = refl
  keep-append p (x ∷ xs) ys = ground (arith, keep-append p xs ys)

  -- The test that a count is zero.
  pub eqb-length-keep : (p : A → Bool) (xs : List A) → eqb (length (keep p xs)) 0 ≡ not (any p xs)
  eqb-length-keep p [] = refl
  eqb-length-keep p (x ∷ xs) = ground (arith, eqb-length-keep p xs)

-- The numbers below `n`; a test of them all settles a claim on a small range by evaluation.
below : ℕ → List ℕ
below zero = []
below (suc n) = n ∷ below n

unfoldable pub table_of_tests : ℕ → (ℕ → Bool) → Bool
unfolding below
table_of_tests n test = all test (below n)

pub test_of_table :
    {n x : ℕ} (test : ℕ → Bool) → x < n → table_of_tests n test ≡ true → test x ≡ true
unfolding table_of_tests
test_of_table {n = zero} test lt h = absurd (omega arith)
test_of_table {n = suc n} {x} test lt h = elim (Bool-cases (eqb x n)) [
  | inl top ↦ rw (eqb→eq x n top) (ground arith)
  | inr lower ↦ test_of_table {n = n} {x = x} test (ground arith) (ground arith)
]

-- What holds of every element.
abbrev pub All {ℓ κ} : {A : Type ℓ} → (A → Type κ) → List A → Type κ
All P [] = Unit
All P (x ∷ xs) = P x × All P xs

-- `xs.includes(s)`, on texts.
abbrev pub includes : String → List String → Bool
includes s [] = false
includes s (x ∷ xs) = x == s || includes s xs

pub includes-append :
    (s : String) (xs ys : List String) → includes s (xs ++ ys) ≡ (includes s xs || includes s ys)
includes-append s [] ys = refl
includes-append s (x ∷ xs) ys = ground (arith, includes-append s xs ys)

-- `set.add(s)`: a set keeps the order of first insertion.
abbrev pub set_add : String → List String → List String
set_add s set = if includes s set then set else set ++ s ∷ []

-- `for (const s of xs) set.add(s)`
abbrev pub set_add_all : List String → List String → List String
set_add_all [] set = set
set_add_all (x ∷ xs) set = set_add_all xs (set_add x set)

pub includes-set_add :
    (s t : String) (set : List String) → includes s (set_add t set) ≡ (includes s set || t == s)
includes-set_add s t set = ground (arith, includes-append s set (t ∷ []), eq_iff t s)

pub includes-set_add_all :
    (s : String) (xs set : List String)
    → includes s (set_add_all xs set) ≡ (includes s set || includes s xs)
includes-set_add_all s [] set = ground arith
includes-set_add_all s (x ∷ xs) set =
    ground (arith, includes-set_add_all s xs (set_add x set), includes-set_add s x set)

-- A list of texts with no repetition.
abbrev pub IsSetOf : List String → Type 0
IsSetOf [] = Unit
IsSetOf (x ∷ xs) = (includes x xs ≡ false) × IsSetOf xs

pub All-append {ℓ κ} :
    {A : Type ℓ} (P : A → Type κ) (xs ys : List A) → All P xs → All P ys → All P (xs ++ ys)
All-append P [] ys h k = k
All-append P (x ∷ xs) ys (p, h) k = (p, All-append P xs ys h k)

module _ {A : Type 0} {P Q : A → Type 0} where
  pub All-map : ((x : A) → P x → Q x) → (xs : List A) → All P xs → All Q xs
  All-map f [] h = tt
  All-map f (x ∷ xs) (p, h) = (f x p, All-map f xs h)

  -- What holds of the rows that are left.
  pub All-keep :
      (p : A → Bool)
      → ((x : A) → p x ≡ true → P x → Q x)
      → (xs : List A) → All P xs
      → All Q (keep p xs)
  All-keep p f [] h = tt
  All-keep p f (x ∷ xs) (px, h) = elim (Bool-cases (p x)) [
    | inl kept ↦ rw kept (f x kept px, All-keep p f xs h)
    | inr dropped ↦ rw dropped (All-keep p f xs h)
  ]
