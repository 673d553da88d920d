-- ===== src/Base/Codes.antt =====
-- Texts as lists of code points, and the printing of a number in decimal.
use Prim.Native.Char.{code}
use Prim.Native.Nat.{ℕ, zero, suc, ◌+◌, ◌-◌, ◌*◌, ◌/◌, ◌%◌, ◌<◌}
use Prim.Native.String.{String}
use mathlib.Core.Path.{◌≡◌, refl, ap, sym, ◌∙◌}
use mathlib.Core.List.{List, [], ◌∷◌, ◌++◌}
use native.Mathlib.Omega.{arith}
use rac3011_api.Base.Tests.{ltb, if◌then◌else◌}

abbrev pub codes : String → List ℕ
codes String.[] = []
codes (String.◌∷◌ c s) = code c ∷ codes s

-- `String(n)`, with one more round of fuel than there can be digits.
unfoldable pub decimal_from : ℕ → ℕ → List ℕ
decimal_from zero n = []
decimal_from (suc fuel) n =
    let more = decimal_from fuel (n / 10) in
    if ltb n 10 then (48 + n) ∷ [] else more ++ (48 + n % 10) ∷ []

unfoldable pub decimal : ℕ → List ℕ
unfolding decimal_from
decimal n = decimal_from (suc n) n

-- The number that a list of digits spells.
value : ℕ → List ℕ → ℕ
value acc [] = acc
value acc (c ∷ cs) = value (acc * 10 + (c - 48)) cs

value-append : (acc c : ℕ) (s : List ℕ) → value acc (s ++ c ∷ []) ≡ value acc s * 10 + (c - 48)
unfolding value
value-append acc c [] = refl
value-append acc c (d ∷ s) = value-append (acc * 10 + (d - 48)) c s

value-decimal_from : (fuel n : ℕ) → n < fuel → value 0 (decimal_from fuel n) ≡ n
unfolding value decimal_from
value-decimal_from zero n h = absurd (omega arith)
value-decimal_from (suc fuel) n h = ground (
  arith,
  value-append 0 (48 + n % 10) (decimal_from fuel (n / 10)),
  value-decimal_from fuel (n / 10),
)

value-decimal : (n : ℕ) → value 0 (decimal n) ≡ n
unfolding decimal
value-decimal n = value-decimal_from (suc n) n (omega arith)

-- Different numbers print differently.
pub decimal_injective : (m n : ℕ) → decimal m ≡ decimal n → m ≡ n
decimal_injective m n h = sym (value-decimal m) ∙ ap (value 0) h ∙ value-decimal n
