-- ===== src/Bookings/Service/Submission.antt =====
-- A submission adds one booking with a fresh, well-formed reference, or changes nothing.
use mathlib.Core.List.{append_assoc}
use rac3011_api.Base.{
  ℕ, ◌<◌, ◌≤◌, ◌≡◌, refl, ◌∙◌, ap, ◌⊎◌, inl, inr, Bool, true, false, not, ◌&&◌, none, some, List,
  [], ◌∷◌, ◌++◌, map, arith, eqb, if◌then◌else◌, any, length, truthy, truthy?, Bool-cases, Result,
  ok, err, HttpError, bad_request, internal,
}
use rac3011_api.Db.{Table}
use rac3011_api.Effects.{Effect, audit, notify}
use rac3011_api.Bookings.Types.{DrrBookingRow, CreateInput, requested, same_reference}
use rac3011_api.Bookings.Reference.{alphabet, is_booking_reference}
use rac3011_api.Bookings.Reference.Laws.{is_booking_reference-build_booking_reference}
use rac3011_api.Bookings.Service.Allocation.{taken, Allocated, create_from-Allocated}
use rac3011_api.Bookings.Service.{
  Env, World, Submitted, honeypot, accepted, create_with_reference, notify_officers, submit,
  find_officers, recipient_of,
}

append_two : (es : List Effect) (a b : Effect) → (es ++ a ∷ []) ++ b ∷ [] ≡ es ++ a ∷ b ∷ []
append_two es a b = simp append_assoc

append_three :
    (es : List Effect) (a b c : Effect)
    → ((es ++ a ∷ []) ++ b ∷ []) ++ c ∷ [] ≡ es ++ a ∷ b ∷ c ∷ []
append_three es a b c = simp append_assoc

module _ {S : Type 0} (table : Table S DrrBookingRow same_reference) (env : Env S) where
  -- The calls of an accepted submission, in their order.
  abbrev pub received : DrrBookingRow → Effect
  received row =
      notify "booking-received" (record { user_id = none; email = some row.requester_email } ∷ [])

  abbrev pub to_officers : Effect
  to_officers = notify "booking-requested" (map recipient_of (find_officers table env))

  abbrev pub no_officers : Bool
  no_officers = eqb (length (find_officers table env)) 0

  abbrev pub submission_effects : DrrBookingRow → List Effect
  submission_effects row =
      audit none "drr_booking.submitted" "drr_booking" (some row.id)
        ∷ (if truthy row.requester_email then received row ∷ [] else [])
      ++ (if no_officers then [] else to_officers ∷ [])

  -- `input.clubId && !(await this.repo.clubExists(input.clubId))`
  abbrev pub unknown_club : CreateInput → Bool
  unknown_club input = elim input.club_id [
    | none ↦ false
    | some c ↦ truthy c && not (env.club_exists c)
  ]

  module _ (input : CreateInput) (w : World S) where
    submit-honeypot : truthy? input.website ≡ true → submit table env input w ≡ (ok honeypot, w)
    unfolding submit
    submit-honeypot bot = ground arith

    submit-unknown_club :
        truthy? input.website ≡ false
        → unknown_club input ≡ true
        → submit table env input w ≡ (err bad_request, w)
    unfolding submit
    submit-unknown_club human unknown = ground arith

    submit-exhausted :
        (e : HttpError)
        → truthy? input.website ≡ false
        → unknown_club input ≡ false
        → create_with_reference table env input w ≡ (err e, w)
        → submit table env input w ≡ (err e, w)
    unfolding submit
    submit-exhausted e human known failed = ground arith

    submit-accepted :
        (row : DrrBookingRow) (w' : World S)
        → truthy? input.website ≡ false
        → unknown_club input ≡ false
        → create_with_reference table env input w ≡ (ok row, w')
        → submit table env input w ≡ (
          ok (accepted row.reference row.status),
          record { bookings = w'.bookings; effects = w'.effects ++ submission_effects row },
        )
    unfolding submit notify_officers
    submit-accepted row w' human known created = ground (
      arith,
      append_two w'.effects (audit none "drr_booking.submitted" "drr_booking" (some row.id))
          (received row),
      append_two w'.effects (audit none "drr_booking.submitted" "drr_booking" (some row.id))
          to_officers,
      append_three w'.effects (audit none "drr_booking.submitted" "drr_booking" (some row.id))
          (received row) to_officers,
    )

  -- What a submission comes to.
  abbrev pub Outcome : CreateInput → World S → Result Submitted × World S → Type 0
  Outcome input w (ok honeypot, w') = (truthy? input.website ≡ true) × (w' ≡ w)
  Outcome input w (ok (accepted reference status), w') =
      (row : DrrBookingRow) × (row.reference ≡ reference)
      × (status ≡ requested)
      × (is_booking_reference reference ≡ true)
      × (any (same_reference row) (table.rows w.bookings) ≡ false)
      × (table.rows w'.bookings ≡ table.rows w.bookings ++ row ∷ [])
      × (w'.effects ≡ w.effects ++ submission_effects row)
  Outcome input w (err e, w') =
      (w' ≡ w)
      × (((e ≡ bad_request) × (unknown_club input ≡ true))
          ⊎ ((e ≡ internal)
              × ((attempt : ℕ)
                  → 1 ≤ attempt
                  → attempt < 6
                  → taken table env input attempt w.bookings ≡ true)))

  -- A submission is a bot's and changes nothing; or it is accepted, and has added one row, with a
  -- well-formed reference that no booking had, and made its calls in order; or it throws, for an
  -- unknown club or because the references of all five attempts were taken, and changes nothing.
  pub submit-Outcome :
      (input : CreateInput) (w : World S)
      → env.month < 12
      → ((attempt j : ℕ) → env.pick attempt j < length alphabet)
      → Outcome input w (submit table env input w)
  submit-Outcome input w in_year in_range = elim (Bool-cases (truthy? input.website)) [
    | inl bot ↦ rw (submit-honeypot input w bot) (bot, refl)
    | inr human ↦ elim (Bool-cases (unknown_club input)) [
      | inl unknown ↦ rw (submit-unknown_club input w human unknown) (refl, inl (refl, unknown))
      | inr known ↦ go human known (create_with_reference table env input w) refl (
          unfold create_with_reference in create_from-Allocated table env input 1 5 w (omega arith))
    ]
  ]
    where
      go :
          truthy? input.website ≡ false
          → unknown_club input ≡ false
          → (r : Result DrrBookingRow × World S) → create_with_reference table env input w ≡ r
          → Allocated table env input 1 5 w r
          → Outcome input w (submit table env input w)
      go human known (err e, w') is (same, is_internal, all_taken) =
          rw (submit-exhausted input w e human known (is ∙ ap (λ v. (err e, v)) same))
            (refl, inr (is_internal, all_taken))
      go human known (ok row, w') is (attempt, lo, hi, free, same, rows, effects) =
          rw (submit-accepted input w row w' human known is) (
            row,
            refl,
            ap DrrBookingRow.status same,
            ap (λ (r : DrrBookingRow). is_booking_reference r.reference) same
                ∙ is_booking_reference-build_booking_reference env.year env.month (env.pick attempt)
                    in_year (in_range attempt),
            rw same free,
            rows,
            ap (λ es. es ++ submission_effects row) effects,
          )
