-- ===== src/Events/Slug/Laws.antt =====
-- src/events/events-admin.service.ts (uniqueSlug) and src/showcase/slug.util.ts: the loop ends.
use rac3011_api.Base.{
  ℕ, zero, suc, ◌+◌, ◌≤◌, ◌<◌, ◌≡◌, refl, sym, ap, ◌∙◌, ◌≢◌, inl, inr, Bool, true, false, not, ◌||◌,
  Option, some, List, [], ◌∷◌, ◌++◌, arith, any, keep, length, Bool-cases, decimal,
  decimal_injective, eqb, eqb→eq, text_eq,
}
use rac3011_api.Events.Slug.{is_own, numbered, free_slug}

pub text_eq→eq : (s t : List ℕ) → text_eq s t ≡ true → s ≡ t
text_eq→eq [] [] h = refl
text_eq→eq [] (d ∷ t) h = cc
text_eq→eq (c ∷ s) [] h = cc
text_eq→eq (c ∷ s) (d ∷ t) h = ground (arith, text_eq→eq s t, eqb→eq c d)

length-append : (s t : List ℕ) → length (s ++ t) ≡ length s + length t
length-append [] t = omega arith
length-append (c ∷ s) t = ground (arith, length-append s t)

tail_of : List ℕ → List ℕ
tail_of [] = []
tail_of (c ∷ s) = s

append_injective : (s t u : List ℕ) → s ++ t ≡ s ++ u → t ≡ u
append_injective [] t u h = h
append_injective (c ∷ s) t u h = append_injective s t u (unfold tail_of in ap tail_of h)

-- What the loop has in hand in each round.
abbrev pub candidate : List ℕ → ℕ → List ℕ
candidate base zero = base
candidate base (suc k) = numbered base (k + 2)

candidate_injective : (base : List ℕ) (j k : ℕ) → candidate base j ≡ candidate base k → j ≡ k
candidate_injective base zero zero h = refl
candidate_injective base zero (suc k) h =
    absurd (ground (arith, h, ap length h, length-append base (45 ∷ decimal (k + 2))))
candidate_injective base (suc j) zero h =
    absurd (ground (arith, h, ap length h, length-append base (45 ∷ decimal (j + 2))))
candidate_injective base (suc j) (suc k) h =
    let numbers = append_injective base (45 ∷ decimal (j + 2)) (45 ∷ decimal (k + 2)) h in
    let digits : decimal (j + 2) ≡ decimal (k + 2) = unfold tail_of in ap tail_of numbers in
    ground (arith, decimal_injective (j + 2) (k + 2) digits)

-- Texts apart from `c` are left by the removal of `c`.
any-keep_others :
    (c d : List ℕ) (slugs : List (List ℕ))
    → c ≢ d
    → any (text_eq d) (keep (λ s. not (text_eq c s)) slugs) ≡ any (text_eq d) slugs
any-keep_others c d [] apart = refl
any-keep_others c d (s ∷ slugs) apart = elim (Bool-cases (text_eq c s)) [
  | inr other ↦ ground (arith, other, any-keep_others c d slugs apart)
  | inl same ↦ elim (Bool-cases (text_eq d s)) [
    | inr other ↦ ground (arith, same, other, any-keep_others c d slugs apart)
    | inl both ↦ absurd (apart (text_eq→eq c s same ∙ sym (text_eq→eq d s both)))
  ]
]

length-keep : (p : List ℕ → Bool) (slugs : List (List ℕ)) → length (keep p slugs) ≤ length slugs
length-keep p [] = omega arith
length-keep p (s ∷ slugs) = ground (arith, length-keep p slugs)

length-keep_others :
    (c : List ℕ) (slugs : List (List ℕ))
    → any (text_eq c) slugs ≡ true
    → length (keep (λ s. not (text_eq c s)) slugs) < length slugs
length-keep_others c [] taken = absurd (cc)
length-keep_others c (s ∷ slugs) taken = elim (Bool-cases (text_eq c s)) [
  | inl same ↦ ground (arith, same, length-keep (λ s. not (text_eq c s)) slugs)
  | inr other ↦ ground (arith, other, taken, length-keep_others c slugs)
]

-- Of one candidate more than there are slugs, one is free.
some_free :
    (base : List ℕ) (fuel k : ℕ) (slugs : List (List ℕ))
    → length slugs < fuel
    → (m : ℕ) × (k ≤ m) × (m < k + fuel) × (any (text_eq (candidate base m)) slugs ≡ false)
some_free base zero k slugs h = absurd (omega arith)
some_free base (suc fuel) k slugs h =
    let c = candidate base k in
    elim (Bool-cases (any (text_eq c) slugs)) [
      | inr free ↦ (k, omega arith, omega arith, free)
      | inl taken ↦
          let fewer = length-keep_others c slugs taken in
          let (m, above, below, free) =
            some_free base fuel (suc k) (keep (λ s. not (text_eq c s)) slugs) (omega arith) in
          let apart : c ≢ candidate base m =
            λ e. absurd (ground (arith, candidate_injective base k m e)) in
          (
            m,
            omega arith,
            omega arith,
            sym (any-keep_others c (candidate base m) slugs apart) ∙ free,
          )
    ]

module _ (slugs : List (List ℕ)) (own : Option (List ℕ)) where
  -- Whether the loop returns what it has in hand.
  abbrev pub ends : List ℕ → Bool
  ends s = not (any (text_eq s) slugs) || is_own own s

  -- The loop ends in round `m` at the latest.
  free_slug_by :
      (base : List ℕ) (fuel k m : ℕ)
      → k ≤ m
      → m < k + fuel
      → ends (candidate base m) ≡ true
      → (j : ℕ) × (k ≤ j)
        × (j ≤ m)
        × (free_slug fuel slugs own base (candidate base k) (k + 2) ≡ some (candidate base j))
        × (ends (candidate base j) ≡ true)
        × ((i : ℕ) → k ≤ i → i < j → ends (candidate base i) ≡ false)
  unfolding free_slug
  free_slug_by base zero k m low high free = absurd (omega arith)
  free_slug_by base (suc fuel) k m low high free = elim (Bool-cases (ends (candidate base k))) [
    | inl now ↦ (k, omega arith, low, ground (arith, now), now, λ i a b. absurd (omega arith))
    | inr later ↦
        let next : k ≢ m = λ e. absurd (ground (arith, e, later, free)) in
        let (j, above, below, result, there, before) =
          free_slug_by base fuel (suc k) m (ground (arith, next)) (omega arith) free in
        (
          j,
          omega arith,
          below,
          ground (arith, later, result),
          there,
          λ i a b. elim (Bool-cases (eqb i k)) [
            | inl here ↦ ground (arith, eqb→eq i k here, later)
            | inr past ↦ before i (ground (arith, past)) b
          ],
        )
  ]

  -- The first `j` candidates.
  abbrev pub earlier : List ℕ → ℕ → List (List ℕ)
  earlier base zero = []
  earlier base (suc j) = candidate base j ∷ earlier base j

  none_earlier :
      (base : List ℕ) (j : ℕ)
      → ((i : ℕ) → i < j → ends (candidate base i) ≡ false)
      → any ends (earlier base j) ≡ false
  none_earlier base zero before = refl
  none_earlier base (suc j) before =
      ground (arith, before j (omega arith), none_earlier base j (λ i h. before i (omega arith)))

  -- The loop of `uniqueSlug` ends within one round more than there are slugs in the table: it returns
  -- the first of `base`, `base-2`, `base-3`, … that no row has, or that the row to leave out has.
  pub free_slug-ends :
      (base : List ℕ) (fuel : ℕ)
      → length slugs < fuel
      → (j : ℕ) × (j ≤ length slugs)
        × (free_slug fuel slugs own base base 2 ≡ some (candidate base j))
        × (ends (candidate base j) ≡ true)
        × (any ends (earlier base j) ≡ false)
  free_slug-ends base fuel enough =
      let (m, low, high, free) = some_free base (suc (length slugs)) 0 slugs (omega arith) in
      let (j, above, below, result, there, before) =
        free_slug_by base fuel 0 m (omega arith) (omega arith) (ground (arith, free)) in
      (j, omega arith, result, there, none_earlier base j λ i h. before i (omega arith) h)
