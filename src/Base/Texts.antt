-- ===== src/Base/Texts.antt =====
-- Texts as lists of code points: their equality, and the parts between the dots of a token.
use Prim.Native.Nat.{ℕ}
use mathlib.Core.Path.{◌≡◌, refl}
use mathlib.Core.Logic.{◌↔◌}
use mathlib.Core.Bool.{Bool, true, false, not, ◌&&◌}
use mathlib.Core.List.{List, [], ◌∷◌, ◌++◌, append_assoc, append-nil}
use native.Mathlib.Omega.{arith}
use rac3011_api.Base.Tests.{eqb, if◌then◌else◌}
use rac3011_api.Base.Lists.{all}

-- `===` on texts.
abbrev pub text_eq : List ℕ → List ℕ → Bool
text_eq [] [] = true
text_eq [] (_ ∷ _) = false
text_eq (_ ∷ _) [] = false
text_eq (c ∷ s) (d ∷ t) = eqb c d && text_eq s t

pub text_eq_iff : (s t : List ℕ) → (text_eq s t ≡ true) ↔ (s ≡ t)
text_eq_iff [] [] = ground arith
text_eq_iff [] (d ∷ t) = ground arith
text_eq_iff (c ∷ s) [] = ground arith
text_eq_iff (c ∷ s) (d ∷ t) = ground (arith, text_eq_iff s t)

pub text_eq_refl : (s : List ℕ) → text_eq s s ≡ true
text_eq_refl [] = refl
text_eq_refl (c ∷ s) = ground (arith, text_eq_refl s)

abbrev pub is_empty : List ℕ → Bool
is_empty [] = true
is_empty (c ∷ cs) = false

pub is_empty-append : (s t : List ℕ) (c : ℕ) → is_empty (s ++ c ∷ t) ≡ false
is_empty-append [] t c = refl
is_empty-append (d ∷ s) t c = refl

-- `token.split('.')`
unfoldable pub split_dots : List ℕ → List ℕ → List (List ℕ)
split_dots part [] = part ∷ []
split_dots part (c ∷ cs) =
    let next = split_dots [] cs in
    let longer = split_dots (part ++ c ∷ []) cs in if eqb c 46 then part ∷ next else longer

abbrev pub no_dot : ℕ → Bool
no_dot c = not (eqb c 46)

pub split_dots-part :
    (done s rest : List ℕ)
    → all no_dot s ≡ true
    → split_dots done (s ++ 46 ∷ rest) ≡ (done ++ s) ∷ split_dots [] rest
unfolding split_dots
split_dots-part done [] rest h = ground (arith, append-nil done)
split_dots-part done (c ∷ s) rest h =
    ground (arith, h, split_dots-part (done ++ c ∷ []) s rest, append_assoc done (c ∷ []) s)

pub split_dots-last : (done s : List ℕ) → all no_dot s ≡ true → split_dots done s ≡ (done ++ s) ∷ []
unfolding split_dots
split_dots-last done [] h = ground (arith, append-nil done)
split_dots-last done (c ∷ s) h =
    ground (arith, h, split_dots-last (done ++ c ∷ []) s, append_assoc done (c ∷ []) s)
