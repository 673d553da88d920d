-- ===== src/Bookings/Service/Expected.antt =====
-- src/drr-bookings/drr-bookings.service.ts (decide): what a decision is to come to, described without the
-- code's own functions.
use rac3011_api.Base.{
  String, ◌≡◌, refl, ap, Bool, not, ◌&&◌, Option, true, false, none, some, List, [], ◌∷◌, map, ◌==◌,
  if◌then◌else◌, any,
}
use rac3011_api.Db.{Table}
use rac3011_api.Effects.{Effect, audit, notify, purge, sync_calendar_event, remove_calendar_event}
use rac3011_api.Bookings.Types.{
  DrrBookingRow, DecideInput, status_of, decidable_from, same_reference, BookingDecision, confirm,
  decline, BookingStatus, requested, held, confirmed, declined, cancelled,
}
use rac3011_api.Bookings.Service.{Env, decided, may_decide, action_of, template_of, calendar_effect}

-- What a decision is to come to, written without the code's own functions.
abbrev pub expected_status : BookingDecision → BookingStatus
expected_status confirm = confirmed
expected_status decline = declined

abbrev pub is_cancelled : BookingStatus → Bool
is_cancelled cancelled = true
is_cancelled requested = false
is_cancelled held = false
is_cancelled confirmed = false
is_cancelled declined = false

abbrev pub expected_effects : BookingDecision → String → String → DrrBookingRow → List Effect
expected_effects confirm id user_id row =
    audit (some user_id) "drr_booking.confirmed" "drr_booking" (some id)
    ∷ sync_calendar_event row.reference user_id
    ∷ notify "booking-confirmed" (record { user_id = none; email = some row.requester_email } ∷ [])
    ∷ purge ("drr-calendar" ∷ "events" ∷ [])
    ∷ []
expected_effects decline id user_id row =
    audit (some user_id) "drr_booking.declined" "drr_booking" (some id)
    ∷ remove_calendar_event row.reference
    ∷ notify "booking-declined" (record { user_id = none; email = some row.requester_email } ∷ [])
    ∷ purge ("drr-calendar" ∷ "events" ∷ [])
    ∷ []

status_of-expected : (d : BookingDecision) → status_of d ≡ expected_status d
status_of-expected confirm = refl
status_of-expected decline = refl

decidable_from-not_cancelled :
    (status : BookingStatus) → decidable_from status ≡ not (is_cancelled status)
unfolding decidable_from
decidable_from-not_cancelled requested = refl
decidable_from-not_cancelled held = refl
decidable_from-not_cancelled confirmed = refl
decidable_from-not_cancelled declined = refl
decidable_from-not_cancelled cancelled = refl

module _ {S : Type 0} (table : Table S DrrBookingRow same_reference) (env : Env S) where
  -- The rows after a decision on `id`.
  abbrev pub after_decision :
      String → DecideInput → String → List DrrBookingRow → List DrrBookingRow
  after_decision id input user_id rows =
      map (λ r. if may_decide table env id r then decided table env input user_id r else r) rows

  -- The calls of a decision, in their order.
  abbrev pub decision_effects : String → DecideInput → String → DrrBookingRow → List Effect
  decision_effects id input user_id row =
      audit (some user_id) (action_of table env input.status) "drr_booking" (some id)
      ∷ calendar_effect table env input.status row user_id
      ∷ notify (template_of table env input.status)
          (record { user_id = none; email = some row.requester_email } ∷ [])
      ∷ purge ("drr-calendar" ∷ "events" ∷ [])
      ∷ []

  -- The rows, as a decision is to leave them.
  abbrev pub expected_rows :
      BookingDecision → Option String → String → String → List DrrBookingRow → List DrrBookingRow
  expected_rows decision reason id user_id rows =
      map
        (λ r.
          if r.id == id && not (is_cancelled r.status)
          then record r {
            status = expected_status decision;
            decision_reason = reason;
            decided_by_id = some user_id;
            decided_at = some env.now;
            updated_at = env.now;
          }
          else r)
        rows

  pub may_decide-not_cancelled :
      (id : String) (r : DrrBookingRow)
      → may_decide table env id r ≡ (r.id == id && not (is_cancelled r.status))
  may_decide-not_cancelled id r = ap (λ b. r.id == id && b) (decidable_from-not_cancelled r.status)

  pub decided-expected :
      (input : DecideInput) (user_id : String) (r : DrrBookingRow)
      → decided table env input user_id r ≡ record r {
        status = expected_status input.status;
        decision_reason = input.decision_reason;
        decided_by_id = some user_id;
        decided_at = some env.now;
        updated_at = env.now;
      }
  decided-expected input user_id r =
      ap
        (λ status. record r {
          status = status;
          decision_reason = input.decision_reason;
          decided_by_id = some user_id;
          decided_at = some env.now;
          updated_at = env.now;
        })
        (status_of-expected input.status)

  pub after_decision-expected :
      (id : String) (input : DecideInput) (user_id : String) (rows : List DrrBookingRow)
      → after_decision id input user_id rows
        ≡ expected_rows input.status input.decision_reason id user_id rows
  after_decision-expected id input user_id rows =
      ap (λ f. map f rows)
        λ i r. (if may_decide-not_cancelled id r i then decided-expected input user_id r i else r)

  pub any-may_decide :
      (id : String) (rows : List DrrBookingRow)
      → any (may_decide table env id) rows
        ≡ any (λ r. r.id == id && not (is_cancelled r.status)) rows
  any-may_decide id rows = ap (λ p. any p rows) λ i r. may_decide-not_cancelled id r i

  pub decision_effects-expected :
      (id : String) (decision : BookingDecision) (reason : Option String) (user_id : String)
      (row : DrrBookingRow)
      → decision_effects id record { status = decision; decision_reason = reason } user_id row
        ≡ expected_effects decision id user_id row
  decision_effects-expected id confirm reason user_id row = refl
  decision_effects-expected id decline reason user_id row = refl
