-- ===== src/Events/Slug/Shape.antt =====
-- src/showcase/slug.util.ts: what a slug looks like.
use rac3011_api.Base.{
  ℕ, zero, suc, ◌≤◌, ◌≡◌, refl, Bool, true, false, ◌||◌, List, [], ◌∷◌, arith, all, length,
}
use rac3011_api.Events.Slug.{
  is_word, is_dash, is_space, drop_while, drop_last_while, trim, take, dash_runs, or_project,
  to_lower_case, slugify,
}

-- `[a-z0-9-]`
abbrev pub is_slug_char : ℕ → Bool
is_slug_char c = is_word c || is_dash c

abbrev pub starts_with_dash : List ℕ → Bool
starts_with_dash [] = false
starts_with_dash (c ∷ cs) = is_dash c

all-dash_runs : (run : Bool) (s : List ℕ) → all is_slug_char (dash_runs run s) ≡ true
all-dash_runs run [] = refl
all-dash_runs true (c ∷ s) = ground (arith, all-dash_runs true s, all-dash_runs false s)
all-dash_runs false (c ∷ s) = ground (arith, all-dash_runs true s, all-dash_runs false s)

all-drop_while : (p q : ℕ → Bool) (s : List ℕ) → all p s ≡ true → all p (drop_while q s) ≡ true
all-drop_while p q [] h = refl
all-drop_while p q (c ∷ s) h = ground (arith, all-drop_while p q s)

all-drop_last_while :
    (p q : ℕ → Bool) (s : List ℕ) → all p s ≡ true → all p (drop_last_while q s) ≡ true
all-drop_last_while p q [] h = refl
all-drop_last_while p q (c ∷ s) h = ground (arith, all-drop_last_while p q s)

all-take : (p : ℕ → Bool) (n : ℕ) (s : List ℕ) → all p s ≡ true → all p (take n s) ≡ true
all-take p zero s h = refl
all-take p (suc n) [] h = refl
all-take p (suc n) (c ∷ s) h = ground (arith, all-take p n s)

length-take : (n : ℕ) (s : List ℕ) → length (take n s) ≤ n
length-take zero s = omega arith
length-take (suc n) [] = omega arith
length-take (suc n) (c ∷ s) = ground (arith, length-take n s)

starts-drop_while : (s : List ℕ) → starts_with_dash (drop_while is_dash s) ≡ false
starts-drop_while [] = refl
starts-drop_while (c ∷ s) = ground (arith, starts-drop_while s)

starts-drop_last_while :
    (p : ℕ → Bool) (s : List ℕ)
    → starts_with_dash s ≡ false
    → starts_with_dash (drop_last_while p s) ≡ false
starts-drop_last_while p [] h = refl
starts-drop_last_while p (c ∷ s) h = ground arith

starts-take :
    (n : ℕ) (s : List ℕ) → starts_with_dash s ≡ false → starts_with_dash (take n s) ≡ false
starts-take zero s h = refl
starts-take (suc n) [] h = refl
starts-take (suc n) (c ∷ s) h = ground arith

-- What a text that may be empty has, and "project" has.
abbrev pub IsSlug : List ℕ → Type 0
IsSlug s =
    (1 ≤ length s) × (length s ≤ 80) × (all is_slug_char s ≡ true) × (starts_with_dash s ≡ false)

or_project-IsSlug :
    (s : List ℕ)
    → length s ≤ 80
    → all is_slug_char s ≡ true
    → starts_with_dash s ≡ false
    → IsSlug (or_project s)
or_project-IsSlug [] l a h = (omega arith, omega arith, refl, refl)
or_project-IsSlug (c ∷ s) l a h = (ground arith, l, a, h)

-- The slug of any title has from 1 to 80 characters, all of them `a` to `z`, `0` to `9` or `-`, and
-- does not start with `-`.
pub slugify-IsSlug : (title : List ℕ) → IsSlug (slugify title)
unfolding slugify
slugify-IsSlug title =
    let runs = dash_runs false (trim is_space (to_lower_case title)) in
    let s = trim is_dash runs in
    or_project-IsSlug (take 80 s) (length-take 80 s)
      (all-take is_slug_char 80 s (
        all-drop_last_while is_slug_char is_dash (drop_while is_dash runs) (
          all-drop_while is_slug_char is_dash runs
            (all-dash_runs false (trim is_space (to_lower_case title))))))
      (starts-take 80 s
        (starts-drop_last_while is_dash (drop_while is_dash runs) (starts-drop_while runs)))
