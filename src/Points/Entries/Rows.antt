-- ===== src/Points/Entries/Rows.antt =====
-- src/points/points-entries.repository.ts: rows with keys of their own, and what an update under one
-- id and a search under one key do to them.
use mathlib.Core.List.{Memᴰ}
use rac3011_api.Base.{
  ◌≡◌, refl, sym, ap, ◌∙◌, Bool, true, false, not, Option, none, some, List, [], ◌∷◌, ◌++◌, arith,
  map, keep, any, find, if◌then◌else◌, Bool-cases, inl, inr, any-append,
}

module _ {A : Type 0} where
  -- No row of the list clashes with a later one.
  abbrev pub Apart : (A → A → Bool) → List A → Type 0
  Apart clash [] = Unit
  Apart clash (x ∷ xs) = (any (clash x) xs ≡ false) × Apart clash xs

  pub any-keep : (p q : A → Bool) (xs : List A) → any p xs ≡ false → any p (keep q xs) ≡ false
  any-keep p q [] h = refl
  any-keep p q (x ∷ xs) h = ground (arith, any-keep p q xs)

  pub keep-Apart :
      (clash : A → A → Bool) (q : A → Bool) (xs : List A) → Apart clash xs → Apart clash (keep q xs)
  keep-Apart clash q [] h = tt
  keep-Apart clash q (x ∷ xs) (lone, h) = elim (Bool-cases (q x)) [
    | inl kept ↦ rw kept (any-keep (clash x) q xs lone, keep-Apart clash q xs h)
    | inr dropped ↦ rw dropped (keep-Apart clash q xs h)
  ]

  pub find-none : (p : A → Bool) (xs : List A) → any p xs ≡ false → find p xs ≡ none
  find-none p [] h = refl
  find-none p (x ∷ xs) h = ground (arith, find-none p xs)

  pub find-keep :
      (p q : A → Bool) (xs : List A)
      → ((x : A) → p x ≡ true → q x ≡ true)
      → find p (keep q xs) ≡ find p xs
  find-keep p q [] h = refl
  find-keep p q (x ∷ xs) h = elim (Bool-cases (q x)) [
    | inl kept ↦ ground (arith, kept, find-keep p q xs h)
    | inr dropped ↦ elim (Bool-cases (p x)) [
      | inl here ↦ absurd (ground (arith, h x here, dropped))
      | inr other ↦ ground (arith, dropped, other, find-keep p q xs h)
    ]
  ]

  pub find-keep-not : (p : A → Bool) (xs : List A) → find p (keep (λ x. not (p x)) xs) ≡ none
  find-keep-not p [] = refl
  find-keep-not p (x ∷ xs) = elim (Bool-cases (p x)) [
    | inl here ↦ ground (arith, here, find-keep-not p xs)
    | inr other ↦ ground (arith, other, find-keep-not p xs)
  ]

  pub find-append :
      (p : A → Bool) (xs ys : List A)
      → find p (xs ++ ys) ≡ (if any p xs then find p xs else find p ys)
  find-append p [] ys = refl
  find-append p (x ∷ xs) ys = ground (arith, find-append p xs ys)

  -- `o` if it holds.
  abbrev pub filter? : (A → Bool) → Option A → Option A
  filter? q none = none
  filter? q (some x) = if q x then some x else none

  -- Where rows under `p` clash with each other, a search finds the same row or none.
  pub find-keep-Apart :
      (clash : A → A → Bool) (p q : A → Bool) (xs : List A)
      → ((x y : A) → p x ≡ true → p y ≡ true → clash x y ≡ true)
      → Apart clash xs
      → find p (keep q xs) ≡ filter? q (find p xs)
  find-keep-Apart clash p q [] same h = refl
  find-keep-Apart clash p q (x ∷ xs) same (lone, h) = elim (Bool-cases (p x)) [
    | inr other ↦ elim (Bool-cases (q x)) [
      | inl kept ↦ ground (arith, other, kept, find-keep-Apart clash p q xs same h)
      | inr dropped ↦ ground (arith, other, dropped, find-keep-Apart clash p q xs same h)
    ]
    | inl here ↦
        let alone = any-keep p q xs (alone_of xs (λ y there. same x y here there) lone) in
        elim (Bool-cases (q x)) [
          | inl kept ↦ ground (arith, here, kept)
          | inr dropped ↦ ground (arith, here, dropped, find-none p (keep q xs) alone)
        ]
  ]
    where
      alone_of :
          (ys : List A)
          → ((y : A) → p y ≡ true → clash x y ≡ true)
          → any (clash x) ys ≡ false
          → any p ys ≡ false
      alone_of [] implies h = refl
      alone_of (y ∷ ys) implies h = elim (Bool-cases (p y)) [
        | inl there ↦ absurd (ground (arith, implies y there, h))
        | inr other ↦ ground (arith, other, h, alone_of ys implies)
      ]

  -- The place of a row in a list: the rows before it and after it, none of which clashes with it.
  pub record Place (clash : A → A → Bool) (r : A) (xs : List A) : Type 0 where
    pub before : List A
    pub after : List A
    pub at : xs ≡ before ++ r ∷ after
    pub lone_after : any (clash r) after ≡ false
    pub lone_before : any (λ x. clash x r) before ≡ false

  pub Place-of :
      (clash : A → A → Bool) (r : A) (xs : List A) → Memᴰ r xs → Apart clash xs → Place clash r xs
  Place-of clash r [] m h = elim m [ ]
  Place-of clash r (x ∷ xs) (Memᴰ.head e) (lone, h) = record {
    before = [];
    after = xs;
    at = ap (λ y. y ∷ xs) (sym e);
    lone_after = rw e lone;
    lone_before = refl;
  }
  Place-of clash r (x ∷ xs) (Memᴰ.tail m) (lone, h) =
      let place = Place-of clash r xs m h in
      let apart : any (clash x) (place.before ++ r ∷ place.after) ≡ false =
        ap (any (clash x)) (sym place.at) ∙ lone in
      record {
        before = x ∷ place.before;
        after = place.after;
        at = ap (λ ys. x ∷ ys) place.at;
        lone_after = place.lone_after;
        lone_before =
            ground (
              arith,
              apart,
              any-append (clash x) place.before (r ∷ place.after),
              place.lone_before,
            );
      }

  map_none :
      (p : A → Bool) (f : A → A) (xs : List A)
      → any p xs ≡ false
      → map (λ x. if p x then f x else x) xs ≡ xs
  map_none p f [] h = refl
  map_none p f (x ∷ xs) h = ground (arith, map_none p f xs)

  -- An update of the one row that it is for.
  pub map_at :
      (p : A → Bool) (f : A → A) (before : List A) (r : A) (after : List A)
      → any p before ≡ false
      → p r ≡ true
      → any p after ≡ false
      → map (λ x. if p x then f x else x) (before ++ r ∷ after) ≡ before ++ f r ∷ after
  map_at p f [] r after b h a = ground (arith, map_none p f after)
  map_at p f (x ∷ before) r after b h a = ground (arith, map_at p f before r after)

  pub any_implied :
      (p q : A → Bool) (xs : List A)
      → ((x : A) → p x ≡ true → q x ≡ true)
      → any q xs ≡ false
      → any p xs ≡ false
  any_implied p q [] implies h = refl
  any_implied p q (x ∷ xs) implies h = elim (Bool-cases (p x)) [
    | inl here ↦ absurd (ground (arith, implies x here, h))
    | inr other ↦ ground (arith, other, h, any_implied p q xs implies)
  ]

  pub replace-Apart :
      (clash : A → A → Bool) (before : List A) (r r' : A) (after : List A)
      → ((x : A) → clash r' x ≡ clash r x)
      → ((x : A) → clash x r' ≡ clash x r)
      → Apart clash (before ++ r ∷ after)
      → Apart clash (before ++ r' ∷ after)
  replace-Apart clash [] r r' after left right (lone, h) =
      (any_implied (clash r') (clash r) after (λ x e. sym (left x) ∙ e) lone, h)
  replace-Apart clash (x ∷ before) r r' after left right (lone, h) = (
    ground (
      arith,
      lone,
      any-append (clash x) before (r ∷ after),
      any-append (clash x) before (r' ∷ after),
      right x,
    ),
    replace-Apart clash before r r' after left right h,
  )

  pub snoc-Apart :
      (clash : A → A → Bool) (xs : List A) (r : A)
      → any (λ x. clash x r) xs ≡ false
      → Apart clash xs
      → Apart clash (xs ++ r ∷ [])
  snoc-Apart clash [] r alone h = (refl, tt)
  snoc-Apart clash (x ∷ xs) r alone (lone, h) = (
    ground (arith, lone, alone, any-append (clash x) xs (r ∷ [])),
    snoc-Apart clash xs r (ground (arith, alone)) h,
  )

  pub keep-replace :
      (q : A → Bool) (before : List A) (r r' : A) (after : List A)
      → q r ≡ false
      → q r' ≡ false
      → keep q (before ++ r' ∷ after) ≡ keep q (before ++ r ∷ after)
  keep-replace q [] r r' after h h' = ground arith
  keep-replace q (x ∷ before) r r' after h h' = ground (arith, keep-replace q before r r' after)

  pub find-replace :
      (p : A → Bool) (before : List A) (r r' : A) (after : List A)
      → p r ≡ false
      → p r' ≡ false
      → find p (before ++ r' ∷ after) ≡ find p (before ++ r ∷ after)
  find-replace p [] r r' after h h' = ground arith
  find-replace p (x ∷ before) r r' after h h' = ground (arith, find-replace p before r r' after)

  pub find_at :
      (p : A → Bool) (before : List A) (r : A) (after : List A)
      → any p before ≡ false
      → p r ≡ true
      → find p (before ++ r ∷ after) ≡ some r
  find_at p [] r after b h = ground arith
  find_at p (x ∷ before) r after b h = ground (arith, find_at p before r after)

  pub keep-keep :
      (p q : A → Bool) (xs : List A)
      → ((x : A) → q x ≡ true → p x ≡ true)
      → keep q (keep p xs) ≡ keep q xs
  keep-keep p q [] implies = refl
  keep-keep p q (x ∷ xs) implies = elim (Bool-cases (p x)) [
    | inl kept ↦ ground (arith, kept, keep-keep p q xs implies)
    | inr dropped ↦ elim (Bool-cases (q x)) [
      | inl here ↦ absurd (ground (arith, implies x here, dropped))
      | inr other ↦ ground (arith, dropped, other, keep-keep p q xs implies)
    ]
  ]
