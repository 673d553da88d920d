-- ===== src/Bookings/Reference/Laws.antt =====
-- Every reference that is built fits the pattern that references are checked against.
use rac3011_api.Base.{
  ℕ, zero, suc, ◌+◌, ◌%◌, ◌<◌, ◌≡◌, refl, Bool, true, List, [], ◌∷◌, ◌++◌, arith, length,
  table_of_tests, test_of_table, eqb, codes, decimal, decimal_from,
}
use rac3011_api.Bookings.Reference.{
  alphabet, pad_start2, letter_from, suffix_from, build_booking_reference, matches, is_digit,
  in_alphabet, is_booking_reference,
}

two_digits_table :
    table_of_tests 100 (λ n. matches (is_digit ∷ is_digit ∷ []) (pad_start2 (decimal n))) ≡ true
unfolding table_of_tests matches pad_start2 decimal decimal_from
two_digits_table = refl

two_digits : (n : ℕ) → n < 100 → matches (is_digit ∷ is_digit ∷ []) (pad_start2 (decimal n)) ≡ true
two_digits n h = test_of_table _ h two_digits_table

letters_table : table_of_tests 30 (λ i. matches (in_alphabet ∷ []) (letter_from alphabet i)) ≡ true
unfolding table_of_tests matches letter_from
letters_table = refl

letters : (i : ℕ) → i < 30 → matches (in_alphabet ∷ []) (letter_from alphabet i) ≡ true
letters i h = test_of_table _ h letters_table

matches-append :
    (ps qs : List (ℕ → Bool)) (s t : List ℕ)
    → matches ps s ≡ true
    → matches qs t ≡ true
    → matches (ps ++ qs) (s ++ t) ≡ true
unfolding matches
matches-append [] qs [] t h k = k
matches-append [] qs (c ∷ s) t h k = cc
matches-append (p ∷ ps) qs [] t h k = cc
matches-append (p ∷ ps) qs (c ∷ s) t h k = ground (arith, matches-append ps qs s t)

abbrev letter_classes : ℕ → List (ℕ → Bool)
letter_classes zero = []
letter_classes (suc n) = in_alphabet ∷ letter_classes n

matches-suffix_from :
    (pick : ℕ → ℕ) (i left : ℕ)
    → ((j : ℕ) → pick j < 30)
    → matches (letter_classes left) (suffix_from pick i left) ≡ true
unfolding suffix_from
matches-suffix_from pick i zero h = unfold matches in refl
matches-suffix_from pick i (suc left) h =
    matches-append (in_alphabet ∷ []) (letter_classes left) (letter_from alphabet (pick i))
      (suffix_from pick (suc i) left) (letters (pick i) (h i))
      (matches-suffix_from pick (suc i) left h)

-- In every month, and for every choice of letters in range, the reference that is built is one that
-- the check of references accepts.
pub is_booking_reference-build_booking_reference :
    (year month : ℕ) (pick : ℕ → ℕ)
    → month < 12
    → ((j : ℕ) → pick j < length alphabet)
    → is_booking_reference (build_booking_reference year month pick) ≡ true
unfolding is_booking_reference build_booking_reference
is_booking_reference-build_booking_reference year month pick h k =
    matches-append (eqb b'D' ∷ eqb b'R' ∷ eqb b'R' ∷ eqb b'-' ∷ []) _ (codes "DRR-") _
      (unfold matches in refl)
      (matches-append (is_digit ∷ is_digit ∷ []) _ (pad_start2 (decimal (year % 100))) _
        (two_digits (year % 100) (omega arith))
        (matches-append (is_digit ∷ is_digit ∷ []) _ (pad_start2 (decimal (month + 1))) _
          (two_digits (month + 1) (omega arith))
          (matches-append (eqb b'-' ∷ []) (letter_classes 6) (codes "-") (suffix_from pick 0 6)
            (unfold matches in refl) (matches-suffix_from pick 0 6 k))))
