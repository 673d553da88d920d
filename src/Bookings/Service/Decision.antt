-- ===== src/Bookings/Service/Decision.antt =====
-- What a decision does, on every branch.
use mathlib.Core.List.{append_assoc}
use rac3011_api.Base.{
  String, ◌≡◌, refl, sym, ◌∙◌, ap, ◌⊎◌, inl, inr, Bool, not, ◌&&◌, ◌||◌, true, false, none, some,
  List, [], ◌∷◌, ◌++◌, arith, ◌==◌, eqb-length-keep, any, is_some, Bool-cases, Option-cases, Result,
  ok, err, not_found, forbidden, conflict, invalid_transition,
}
use rac3011_api.Db.{Table}
use rac3011_api.Effects.{Effect, audit, notify, purge}
use rac3011_api.Access.Guard.{RequestContext}
use rac3011_api.Access.Scope.{scopes_for, has_district_scope, assert_district_scope}
use rac3011_api.Access.Types.{kind_eq, unscoped}
use rac3011_api.Bookings.Types.{
  DrrBookingRow, DecideInput, status_of, decidable_from, same_reference, BookingDecision, confirm,
  decline,
}
use rac3011_api.Bookings.Service.{
  Env, World, find_by_id, decided, may_decide, repo_decide, action_of, template_of, calendar_effect,
  decide,
}
use rac3011_api.Bookings.Service.Expected.{
  is_cancelled, expected_effects, after_decision, decision_effects, expected_rows,
  after_decision-expected, any-may_decide, decision_effects-expected,
}

-- Whether the request comes with a grant for the whole district.
abbrev pub officer : RequestContext → Bool
officer ctx =
    ctx.access.is_super_admin
    || any (λ s. kind_eq s.kind unscoped) (scopes_for ctx.access "drr_calendar:manage")

decidable_from-status_of : (d : BookingDecision) → decidable_from (status_of d) ≡ true
unfolding decidable_from
decidable_from-status_of confirm = refl
decidable_from-status_of decline = refl

append_four :
    (es : List Effect) (a b c d : Effect)
    → (((es ++ a ∷ []) ++ b ∷ []) ++ c ∷ []) ++ d ∷ [] ≡ es ++ a ∷ b ∷ c ∷ d ∷ []
append_four es a b c d = simp append_assoc

module _ {S : Type 0} (table : Table S DrrBookingRow same_reference) (env : Env S) where
  any-may_decide-after_decision :
      (id : String) (input : DecideInput) (user_id : String) (rows : List DrrBookingRow)
      → any (may_decide table env id) rows
        ≡ any (may_decide table env id) (after_decision table env id input user_id rows)
  any-may_decide-after_decision id input user_id [] = refl
  any-may_decide-after_decision id input user_id (r ∷ rows) = ground (
    arith,
    any-may_decide-after_decision id input user_id rows,
    decidable_from-status_of input.status,
  )

  any-id_of_may_decide :
      (id : String) (rows : List DrrBookingRow)
      → any (may_decide table env id) rows ≡ true
      → any (λ r. r.id == id) rows ≡ true
  any-id_of_may_decide id [] h = cc
  any-id_of_may_decide id (r ∷ rows) h = ground (arith, any-id_of_may_decide id rows)

  abbrev updated : String → DecideInput → String → S → S
  updated id input user_id =
      table.update_many (may_decide table env id) (decided table env input user_id)

  is_some-find_by_id :
      (id : String) (input : DecideInput) (user_id : String) (s : S)
      → any (may_decide table env id) (table.rows s) ≡ true
      → is_some (find_by_id table env id (updated id input user_id s)) ≡ true
  is_some-find_by_id id input user_id s h =
      table.find_first_listed (λ r. r.id == id) (updated id input user_id s)
      ∙ any-id_of_may_decide id (table.rows (updated id input user_id s)) (
          ap (any (may_decide table env id))
            (table.rows_update_many (may_decide table env id) (decided table env input user_id) s)
          ∙ sym (any-may_decide-after_decision id input user_id (table.rows s))
          ∙ h)

  -- The two outcomes of the conditional update.
  repo_decide_cases :
      (id : String) (input : DecideInput) (user_id : String) (s : S)
      → ((any (may_decide table env id) (table.rows s) ≡ false)
          × (repo_decide table env id input user_id s ≡ (none, s)))
        ⊎ ((row : DrrBookingRow) × (s' : S) × (any (may_decide table env id) (table.rows s) ≡ true)
            × (repo_decide table env id input user_id s ≡ (some row, s'))
            × (table.rows s' ≡ after_decision table env id input user_id (table.rows s))
            × (find_by_id table env id s' ≡ some row))
  unfolding repo_decide
  repo_decide_cases id input user_id s =
      elim (Bool-cases (any (may_decide table env id) (table.rows s))) [
        | inl some_row ↦
            elim (Option-cases (find_by_id table env id (updated id input user_id s))) [
              | inl lost ↦ absurd (ground (arith, is_some-find_by_id id input user_id s some_row))
              | inr (row, found) ↦ inr (
                row,
                updated id input user_id s,
                some_row,
                ground (arith, eqb-length-keep (may_decide table env id) (table.rows s)),
                table.rows_update_many (may_decide table env id) (decided table env input user_id)
                    s,
                found,
              )
            ]
        | inr no_row ↦
            inl (no_row, ground (arith, eqb-length-keep (may_decide table env id) (table.rows s)))
      ]

  -- What has happened when a decision returns `row`.
  pub record Decided (ctx : RequestContext) (id : String) (input : DecideInput) (w : World S)
      (row : DrrBookingRow) (w' : World S) : Type 0 where
    pub by_officer : officer ctx ≡ true
    pub was_decidable :
        any (λ r. r.id == id && not (is_cancelled r.status)) (table.rows w.bookings) ≡ true
    pub rows :
        table.rows w'.bookings
        ≡ expected_rows table env input.status input.decision_reason id ctx.user_id
            (table.rows w.bookings)
    pub returned : table.find_first (λ r. r.id == id) w'.bookings ≡ some row
    pub effects : w'.effects ≡ w.effects ++ expected_effects input.status id ctx.user_id row

  -- What a decision comes to: it is made, or it throws and the world is as it was.
  abbrev pub Outcome :
      RequestContext → String → DecideInput → World S → Result DrrBookingRow × World S → Type 0
  Outcome ctx id input w (ok row, w') = Decided ctx id input w row w'
  Outcome ctx id input w (err e, w') = w' ≡ w

  module _ (ctx : RequestContext) (id : String) (input : DecideInput) (w : World S) where
    decide-refused : officer ctx ≡ false → decide table env ctx id input w ≡ (err forbidden, w)
    unfolding decide assert_district_scope has_district_scope
    decide-refused refused = ground arith

    decide-missing :
        officer ctx ≡ true
        → find_by_id table env id w.bookings ≡ none
        → decide table env ctx id input w ≡ (err not_found, w)
    unfolding decide assert_district_scope has_district_scope
    decide-missing by_officer missing = ground arith

    decide-conflict :
        (before : DrrBookingRow)
        → officer ctx ≡ true
        → find_by_id table env id w.bookings ≡ some before
        → repo_decide table env id input ctx.user_id w.bookings ≡ (none, w.bookings)
        → decide table env ctx id input w ≡ (err (conflict invalid_transition), w)
    unfolding decide assert_district_scope has_district_scope
    decide-conflict before by_officer found e = ground arith

    decide-made :
        (before row : DrrBookingRow) (s' : S)
        → officer ctx ≡ true
        → find_by_id table env id w.bookings ≡ some before
        → repo_decide table env id input ctx.user_id w.bookings ≡ (some row, s')
        → decide table env ctx id input w ≡ (
          ok row,
          record {
            bookings = s';
            effects = w.effects ++ decision_effects table env id input ctx.user_id row;
          },
        )
    unfolding decide assert_district_scope has_district_scope
    decide-made before row s' by_officer found e = ground (
      arith,
      append_four w.effects
          (audit (some ctx.user_id) (action_of table env input.status) "drr_booking" (some id))
          (calendar_effect table env input.status row ctx.user_id)
          (notify (template_of table env input.status)
            (record { user_id = none; email = some row.requester_email } ∷ []))
          (purge ("drr-calendar" ∷ "events" ∷ [])),
    )

  -- Whoever decides whatever booking: either the decision is made, by an officer of the whole
  -- district, on every row of that id that is not cancelled and on no other row, which gets the
  -- decided status, the given reason, the officer and the time, and then follow the audit entry, the
  -- change of the calendar (an entry for a confirmation, its removal for a refusal), the mail to the
  -- requester and the purge, in this order; or it throws, and neither a row nor an effect has
  -- changed.
  pub decide-Outcome :
      (ctx : RequestContext) (id : String) (input : DecideInput) (w : World S)
      → Outcome ctx id input w (decide table env ctx id input w)
  decide-Outcome ctx id input w = elim (Bool-cases (officer ctx)) [
    | inr refused ↦ rw (decide-refused ctx id input w refused) refl
    | inl by_officer ↦ elim (Option-cases (find_by_id table env id w.bookings)) [
      | inl missing ↦ rw (decide-missing ctx id input w by_officer missing) refl
      | inr (before, found) ↦ elim (repo_decide_cases id input ctx.user_id w.bookings) [
        | inl (none_left, e) ↦ rw (decide-conflict ctx id input w before by_officer found e) refl
        | inr (row, s', was_decidable, e, rows, returned) ↦
            rw (decide-made ctx id input w before row s' by_officer found e) (record {
              by_officer = by_officer;
              was_decidable =
                  sym (any-may_decide table env id (table.rows w.bookings)) ∙ was_decidable;
              rows =
                  rows
                  ∙ after_decision-expected table env id input ctx.user_id (table.rows w.bookings);
              returned = returned;
              effects =
                  ap (λ es. w.effects ++ es)
                    (decision_effects-expected table env id input.status input.decision_reason
                      ctx.user_id row);
            })
      ]
    ]
  ]

  -- A booking that was decided can be decided again, either way, by any officer of the district.
  pub decide_again :
      (first second : RequestContext) (id : String) (one two : DecideInput) (w w' : World S)
      (row : DrrBookingRow)
      → decide table env first id one w ≡ (ok row, w')
      → officer second ≡ true
      → (row' : DrrBookingRow) × (w'' : World S) × (decide table env second id two w'
          ≡ (ok row', w''))
  decide_again first second id one two w w' row e by_officer =
      let made : Decided first id one w row w' = rw e at (decide-Outcome first id one w) in
      let decidable : any (may_decide table env id) (table.rows w'.bookings) ≡ true =
        ap (any (may_decide table env id)) (
          made.rows
          ∙ sym (after_decision-expected table env id one first.user_id (table.rows w.bookings)))
        ∙ sym (any-may_decide-after_decision id one first.user_id (table.rows w.bookings))
        ∙ any-may_decide table env id (table.rows w.bookings)
        ∙ made.was_decidable in
      elim (repo_decide_cases id two second.user_id w'.bookings) [
        | inl (none_left, _) ↦ absurd (ground arith)
        | inr (row', s', _, e', _, _) ↦
            (row', _, decide-made second id two w' row row' s' by_officer made.returned e')
      ]
