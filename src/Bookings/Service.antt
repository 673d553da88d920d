-- ===== src/Bookings/Service.antt =====
-- src/drr-bookings/drr-bookings.service.ts and the queries of drr-bookings.repository.ts that it
-- makes: submitting, looking up and deciding a booking. A call in a `try` whose `catch` only logs is
-- recorded as made, whether it throws or not.
pub mod Allocation
pub mod Submission
pub mod Expected
pub mod Decision
use rac3011_api.Base.{
  ℕ, zero, suc, ◌+◌, String, Bool, true, false, not, ◌&&◌, ◌||◌, Option, none, some, List, [], ◌∷◌,
  ◌++◌, map, ◌==◌, eqb, if◌then◌else◌, truthy, truthy?, is_some, length, Result, ok, err,
  bad_request, not_found, internal, conflict, invalid_transition, text_eq,
}
use rac3011_api.Action.{Action, pure, raise, raise_if, lift, gets, or_raise, modify, ◌>>=◌, ◌>>◌}
use rac3011_api.Db.{Table, count}
use rac3011_api.Effects.{
  Effect, Recipient, audit, notify, purge, sync_calendar_event, remove_calendar_event,
}
use rac3011_api.Access.Guard.{RequestContext}
use rac3011_api.Access.Scope.{assert_district_scope}
use rac3011_api.Bookings.Types.{
  DrrBookingRow, CreateInput, DecideInput, BookingDecision, confirm, decline, status_of,
  BookingStatus, requested, decidable_from, same_reference,
}
use rac3011_api.Bookings.Reference.{build_booking_reference}

-- What a request meets outside the service: the time, the random letters of each attempt, the id
-- of the next row, and the tables that are only read here.
pub record Env (S : Type 0) : Type 0 where
  pub now : ℕ
  pub year : ℕ
  pub month : ℕ
  pub pick : ℕ → ℕ → ℕ
  pub new_id : S → String
  pub club_exists : String → Bool
  -- `findOfficers`: user id and email of the DRR's role, of super_admin, and of the listed emails.
  pub drr_rows : List (String × Option String)
  pub admin_rows : List (String × Option String)
  pub specific_email_users : List (String × Option String)

pub record World (S : Type 0) : Type 0 where
  pub bookings : S
  pub effects : List Effect

abbrev pub reference_attempts : ℕ
reference_attempts = 5

pub data Submitted : Type 0 where
  honeypot : Submitted
  accepted : List ℕ → BookingStatus → Submitted

-- `byUser.set(id, { userId: id, email })`: a Map keeps the place of the first insertion.
abbrev pub map_set : String → String → List (String × String) → List (String × String)
map_set id email [] = (id, email) ∷ []
map_set id email ((j, e) ∷ m) = if j == id then (j, email) ∷ m else (j, e) ∷ map_set id email m

-- One of the three loops of `findOfficers`.
unfoldable pub add_officers :
    List (String × Option String) → List (String × String) → List (String × String)
add_officers [] m = m
add_officers ((id, none) ∷ rows) m = add_officers rows m
add_officers ((id, some email) ∷ rows) m =
    add_officers rows (if truthy email then map_set id email m else m)

abbrev pub recipient_of : String × String → Recipient
recipient_of (id, email) = record { user_id = some id; email = some email }

module _ {S : Type 0} (table : Table S DrrBookingRow same_reference) (env : Env S) where
  abbrev pub log : Effect → Action (World S) (Unit {0})
  log e = modify (λ w. record w { effects = w.effects ++ e ∷ [] })

  unfoldable pub find_officers : List (String × String)
  find_officers =
      add_officers env.specific_email_users
        (add_officers env.admin_rows (add_officers env.drr_rows []))

  -- The row that the attempt would insert; the columns the input does not give have their defaults.
  abbrev pub new_row : CreateInput → ℕ → S → DrrBookingRow
  new_row input attempt s = record {
    id = env.new_id s;
    reference = build_booking_reference env.year env.month (env.pick attempt);
    purpose = input.purpose;
    club_id = input.club_id;
    requester_name = input.requester_name;
    requester_email = input.requester_email;
    requester_phone = input.requester_phone;
    starts_at = input.starts_at;
    ends_at = input.ends_at;
    notes = input.notes;
    status = requested;
    decision_reason = none;
    decided_by_id = none;
    decided_at = none;
    created_at = env.now;
    updated_at = env.now;
  }

  -- The loop of `createWithReference`, with the attempts that are left.
  unfoldable pub create_from : CreateInput → ℕ → ℕ → Action (World S) DrrBookingRow
  create_from input attempt zero w = (err internal, w)
  create_from input attempt (suc left) w =
      let again = create_from input (attempt + 1) left w in
      elim (table.create (new_row input attempt w.bookings) w.bookings) [
        | some s ↦ (ok (new_row input attempt w.bookings), record w { bookings = s })
        | none ↦ if eqb attempt reference_attempts then (err internal, w) else again
      ]

  unfoldable pub create_with_reference : CreateInput → Action (World S) DrrBookingRow
  create_with_reference input = create_from input 1 reference_attempts

  unfoldable pub notify_officers : DrrBookingRow → Action (World S) (Unit {0})
  notify_officers row =
      if eqb (length find_officers) 0
      then pure tt
      else log (notify "booking-requested" (map recipient_of find_officers))

  unfoldable pub submit : CreateInput → Action (World S) Submitted
  submit input = if truthy? input.website then pure honeypot else do
    raise_if (elim input.club_id [ none ↦ false | some c ↦ truthy c && not (env.club_exists c) ])
        bad_request
    row ← create_with_reference input
    log (audit none "drr_booking.submitted" "drr_booking" (some row.id))
    (if truthy row.requester_email
        then log (
            notify "booking-received"
              (record { user_id = none; email = some row.requester_email } ∷ []))
        else pure tt)
    notify_officers row
    pure (accepted row.reference row.status)

  abbrev pub find_by_id : String → S → Option DrrBookingRow
  find_by_id id = table.find_first (λ r. r.id == id)

  unfoldable pub by_reference : List ℕ → Action (World S) DrrBookingRow
  by_reference reference = do
    row ← gets (λ w. table.find_first (λ r. text_eq r.reference reference) w.bookings)
    or_raise row not_found

  abbrev pub assert_officer : RequestContext → Action (World S) (Unit {0})
  assert_officer ctx = lift (assert_district_scope ctx.access "drr_calendar:manage")

  abbrev pub find_or_throw : String → Action (World S) DrrBookingRow
  find_or_throw id = do row ← gets (λ w. find_by_id id w.bookings); or_raise row not_found

  unfoldable pub get : RequestContext → String → Action (World S) DrrBookingRow
  get ctx id = do assert_officer ctx; find_or_throw id

  -- The `data` of the update.
  abbrev pub decided : DecideInput → String → DrrBookingRow → DrrBookingRow
  decided input user_id r = record r {
    status = status_of input.status;
    decision_reason = input.decision_reason;
    decided_by_id = some user_id;
    decided_at = some env.now;
    updated_at = env.now;
  }

  -- The `where` of the update.
  abbrev pub may_decide : String → DrrBookingRow → Bool
  may_decide id r = r.id == id && decidable_from r.status

  -- `DrrBookingsRepository.decide`
  unfoldable pub repo_decide : String → DecideInput → String → S → Option DrrBookingRow × S
  repo_decide id input user_id s =
      let s' = table.update_many (may_decide id) (decided input user_id) s in
      if eqb (count table (may_decide id) s) 0 then (none, s) else (find_by_id id s', s')

  abbrev pub decide_in_table :
      String → DecideInput → String → Action (World S) (Option DrrBookingRow)
  decide_in_table id input user_id w =
      let (row, s) = repo_decide id input user_id w.bookings in (ok row, record w { bookings = s })

  abbrev pub action_of : BookingDecision → String
  action_of confirm = "drr_booking.confirmed"
  action_of decline = "drr_booking.declined"

  abbrev pub template_of : BookingDecision → String
  template_of confirm = "booking-confirmed"
  template_of decline = "booking-declined"

  abbrev pub calendar_effect : BookingDecision → DrrBookingRow → String → Effect
  calendar_effect confirm row user_id = sync_calendar_event row.reference user_id
  calendar_effect decline row user_id = remove_calendar_event row.reference

  unfoldable pub decide : RequestContext → String → DecideInput → Action (World S) DrrBookingRow
  decide ctx id input = do
    assert_officer ctx
    before ← find_or_throw id
    updated ← decide_in_table id input ctx.user_id
    row ← or_raise updated (conflict invalid_transition)
    log (audit (some ctx.user_id) (action_of input.status) "drr_booking" (some id))
    log (calendar_effect input.status row ctx.user_id)
    log (
        notify (template_of input.status)
          (record { user_id = none; email = some row.requester_email } ∷ []))
    log (purge ("drr-calendar" ∷ "events" ∷ []))
    pure row
