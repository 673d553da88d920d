-- ===== src/Bookings/Reference.antt =====
-- src/drr-bookings/booking-reference.util.ts, over code points.
pub mod Laws
use rac3011_api.Base.{
  ℕ, zero, suc, ◌+◌, ◌-◌, ◌/◌, ◌%◌, String, Bool, true, false, not, ◌&&◌, ◌||◌, List, [], ◌∷◌, ◌++◌,
  length, any, leb, ltb, eqb, if◌then◌else◌, codes, decimal,
}

abbrev pub alphabet : List ℕ
alphabet = codes "ABCDEFGHJKMNPQRSTVWXYZ23456789"

abbrev pub suffix_length : ℕ
suffix_length = 6

abbrev pub replicate : ℕ → ℕ → List ℕ
replicate zero c = []
replicate (suc n) c = c ∷ replicate n c

-- `.padStart(2, '0')`
unfoldable pub pad_start2 : List ℕ → List ℕ
pad_start2 s = replicate (2 - length s) 48 ++ s

-- `ALPHABET[i]`; out of range that is the text "undefined" once it is added to a text.
unfoldable pub letter_from : List ℕ → ℕ → List ℕ
letter_from [] i = codes "undefined"
letter_from (c ∷ cs) zero = c ∷ []
letter_from (c ∷ cs) (suc i) = letter_from cs i

-- The loop: `pick i` is the number that the i-th call of `pick` returns.
unfoldable pub suffix_from : (ℕ → ℕ) → ℕ → ℕ → List ℕ
suffix_from pick i zero = []
suffix_from pick i (suc left) = letter_from alphabet (pick i) ++ suffix_from pick (suc i) left

-- `year` is `now.getUTCFullYear()`, and `month` is `now.getUTCMonth()`, from 0.
unfoldable pub build_booking_reference : ℕ → ℕ → (ℕ → ℕ) → List ℕ
build_booking_reference year month pick =
    codes "DRR-"
    ++ (pad_start2 (decimal (year % 100))
        ++ (pad_start2 (decimal (month + 1)) ++ (codes "-" ++ suffix_from pick 0 suffix_length)))

-- A pattern that is a sequence of character classes, anchored at both ends.
unfoldable pub matches : List (ℕ → Bool) → List ℕ → Bool
matches [] [] = true
matches (p ∷ ps) (c ∷ cs) = p c && matches ps cs
matches _ _ = false

abbrev pub is_digit : ℕ → Bool
is_digit c = leb 48 c && leb c 57

abbrev pub in_alphabet : ℕ → Bool
in_alphabet c = any (eqb c) alphabet

abbrev pub reference_pattern : List (ℕ → Bool)
reference_pattern =
    eqb b'D'
    ∷ eqb b'R'
    ∷ eqb b'R'
    ∷ eqb b'-'
    ∷ is_digit
    ∷ is_digit
    ∷ is_digit
    ∷ is_digit
    ∷ eqb b'-'
    ∷ in_alphabet
    ∷ in_alphabet
    ∷ in_alphabet
    ∷ in_alphabet
    ∷ in_alphabet
    ∷ in_alphabet
    ∷ []

unfoldable pub is_booking_reference : List ℕ → Bool
is_booking_reference value = matches reference_pattern value
