-- ===== src/Bookings/Service/Allocation.antt =====
-- The loop that allocates a reference: five attempts against the unique column.
use rac3011_api.Base.{
  ℕ, zero, suc, ◌+◌, ◌<◌, ◌≤◌, ◌≡◌, refl, inl, inr, Bool, true, false, none, some, [], ◌∷◌, ◌++◌,
  arith, eqb, any, eqb→eq, Bool-cases, Option-cases, Result, ok, err, internal,
}
use rac3011_api.Db.{Table}
use rac3011_api.Bookings.Types.{DrrBookingRow, CreateInput, same_reference}
use rac3011_api.Bookings.Service.{Env, World, new_row, create_from}

module _ {S : Type 0} (table : Table S DrrBookingRow same_reference) (env : Env S) where
  -- Whether the reference of an attempt is already taken.
  abbrev pub taken : CreateInput → ℕ → S → Bool
  taken input attempt s = any (same_reference (new_row table env input attempt s)) (table.rows s)

  -- What an allocation that starts at one of the attempts comes to.
  abbrev pub Allocated : CreateInput → ℕ → ℕ → World S → Result DrrBookingRow × World S → Type 0
  Allocated input from left w (ok row, w') =
      (attempt : ℕ) × (from ≤ attempt)
      × (attempt < from + left)
      × (taken input attempt w.bookings ≡ false)
      × (row ≡ new_row table env input attempt w.bookings)
      × (table.rows w'.bookings ≡ table.rows w.bookings ++ row ∷ [])
      × (w'.effects ≡ w.effects)
  Allocated input from left w (err e, w') =
      (w' ≡ w)
      × (e ≡ internal)
      × ((attempt : ℕ)
          → from ≤ attempt
          → attempt < from + left
          → taken input attempt w.bookings ≡ true)

  module _ (input : CreateInput) (from left : ℕ) (w : World S) where
    abbrev row_now : DrrBookingRow
    row_now = new_row table env input from w.bookings

    create_from-free :
        (s' : S)
        → table.create row_now w.bookings ≡ some s'
        → create_from table env input from (suc left) w
          ≡ (ok row_now, record { bookings = s'; effects = w.effects })
    unfolding create_from
    create_from-free s' e = ground arith

    create_from-last :
        table.create row_now w.bookings ≡ none
        → from ≡ 5
        → create_from table env input from (suc left) w ≡ (err internal, w)
    unfolding create_from
    create_from-last e last = ground arith

    create_from-again :
        table.create row_now w.bookings ≡ none
        → eqb from 5 ≡ false
        → create_from table env input from (suc left) w
          ≡ create_from table env input (from + 1) left w
    unfolding create_from
    create_from-again e more = ground arith

    taken_of_clash : table.create row_now w.bookings ≡ none → taken input from w.bookings ≡ true
    taken_of_clash e = ground (arith, table.create_clash row_now w.bookings)

    free_of_create :
        (s' : S) → table.create row_now w.bookings ≡ some s' → taken input from w.bookings ≡ false
    free_of_create s' e = ground (arith, table.create_clash row_now w.bookings)

  Allocated-widen :
      (input : CreateInput) (from left : ℕ) (w : World S) (r : Result DrrBookingRow × World S)
      → taken input from w.bookings ≡ true
      → Allocated input (from + 1) left w r
      → Allocated input from (suc left) w r
  Allocated-widen input from left w (ok row, w') t (attempt, lo, hi, free, same, rows, effects) =
      (attempt, omega arith, omega arith, free, same, rows, effects)
  Allocated-widen input from left w (err e, w') t (same, is_internal, all_taken) = (
    same,
    is_internal,
    λ attempt lo hi. elim (Bool-cases (eqb attempt from)) [
      | inl now ↦ let e : attempt ≡ from = ground arith in rw e t
      | inr later ↦ all_taken attempt (ground arith) (omega arith)
    ],
  )

  pub create_from-Allocated :
      (input : CreateInput) (from left : ℕ) (w : World S)
      → from + left ≡ 6
      → Allocated input from left w (create_from table env input from left w)
  unfolding create_from
  create_from-Allocated input from zero w h = (refl, refl, λ attempt lo hi. absurd (omega arith))
  create_from-Allocated input from (suc left) w h =
      elim (Option-cases (table.create (new_row table env input from w.bookings) w.bookings)) [
        | inr (s', e) ↦ rw (create_from-free input from left w s' e) (
          from,
          omega arith,
          omega arith,
          free_of_create input from left w s' e,
          refl,
          table.rows_create (new_row table env input from w.bookings) w.bookings s' e,
          refl,
        )
        | inl e ↦ elim (Bool-cases (eqb from 5)) [
          | inl last ↦ rw (create_from-last input from left w e (ground arith)) (
            refl,
            refl,
            λ attempt lo hi.
                let now : attempt ≡ from = omega (arith, eqb→eq from 5 last) in
                rw now (taken_of_clash input from left w e),
          )
          | inr more ↦ rw (create_from-again input from left w e more) (
              Allocated-widen input from left w _ (taken_of_clash input from left w e)
                (create_from-Allocated input (from + 1) left w (omega arith)))
        ]
      ]
