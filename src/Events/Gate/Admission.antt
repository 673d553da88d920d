-- ===== src/Events/Gate/Admission.antt =====
-- src/events/events-admin.service.ts (checkin): what a check-in comes to.
use mathlib.Core.List.{append-nil}
use mathlib.Core.Path.{subst}
use rac3011_api.Base.{
  ℕ, String, ◌≡◌, refl, ap, ◌∙◌, Bool, true, false, Option, none, some, List, [], ◌∷◌, ◌++◌, arith,
  if◌then◌else◌, Result, Result-cases, ok, err, HttpError, not_found, internal, conflict,
  capacity_full, Bool-cases, Option-cases, inl, inr,
}
use rac3011_api.Effects.{Effect, schedule_attendance}
use rac3011_api.Access.Guard.{RequestContext}
use rac3011_api.Access.Scope.{ClubClient}
use rac3011_api.Events.Types.{EventRow, CheckinRow, CheckinMethod, CheckinInput, Stores, World}
use rac3011_api.Events.Gate.{
  GateEnv, Visitor, already_in, visitor, find_event, find_checkin, resolve_visitor, gate_check,
  new_checkin, find_member_checkin, is_full, enter, admit, check_in,
}
use rac3011_api.Events.Gate.Visitors.{SameRows, Resolved, resolve_visitor-Resolved}

abbrev pub attendance_effects : EventRow → String → String → List Effect
attendance_effects event event_id club_id =
    if event.is_district_event then schedule_attendance event_id club_id ∷ [] else []

module _ {E C V R : Type 0} (stores : Stores E C V R) (db : ClubClient) (env : GateEnv C)
    (ctx : RequestContext) (event_id : String) where
  -- What has happened when a new check-in `row` is returned.
  pub record CheckedIn (w : World E C V R) (row : CheckinRow) (w' : World E C V R) : Type 0 where
    pub event : EventRow
    pub found : find_event stores db env event_id w ≡ some event
    pub allowed : gate_check stores db env ctx.access event ≡ ok tt
    pub absent : find_member_checkin stores db env event_id row.member_id w ≡ none
    pub room : is_full stores db env event_id event w ≡ false
    pub at_event : row.event_id ≡ event_id
    pub by_caller : row.checked_in_by_id ≡ ctx.user_id
    pub rows : stores.checkins.rows w'.checkins ≡ stores.checkins.rows w.checkins ++ row ∷ []
    pub events : w'.events ≡ w.events
    pub effects : w'.effects ≡ w.effects ++ attendance_effects event event_id row.club_id

  -- What a check-in comes to: a new row; the row that was there before, and nothing has changed; or
  -- it throws, and nothing has changed but that a pass may be used up.
  abbrev pub Outcome : World E C V R → Result (CheckinRow × Bool) → World E C V R → Type 0
  Outcome w (ok (row, false)) w' = CheckedIn w row w'
  Outcome w (ok (row, true)) w' =
      SameRows stores db env w w'
      × ((member_id : String) × (find_checkin stores db env event_id member_id w ≡ some row))
  Outcome w (err e) w' = SameRows stores db env w w'

  of_result :
      (w w' : World E C V R) (result : Result (CheckinRow × Bool))
      (r : Result (CheckinRow × Bool) × World E C V R)
      → r ≡ (result, w')
      → Outcome w result w'
      → Outcome w r.0 r.1
  of_result w w' result r e h = rw e h

  passes_aside :
      (w : World E C V R) (p : R) (member_id : Option String)
      → find_member_checkin stores db env event_id member_id w
        ≡ find_member_checkin stores db env event_id member_id (record w { passes = p })
  passes_aside w p none = refl
  passes_aside w p (some m) = refl

  retract :
      (w : World E C V R) (p : R) (w' : World E C V R) (result : Result (CheckinRow × Bool))
      → Outcome (record w { passes = p }) result w'
      → Outcome w result w'
  retract w p w' (err e) h = h
  retract w p w' (ok (row, true)) h = h
  retract w p w' (ok (row, false)) h = record {
    event = h.event;
    found = h.found;
    allowed = h.allowed;
    absent = passes_aside w p row.member_id ∙ h.absent;
    room = h.room;
    at_event = h.at_event;
    by_caller = h.by_caller;
    rows = h.rows;
    events = h.events;
    effects = h.effects;
  }

  module _ (event : EventRow) (m : Option String) (name : Option (List ℕ)) (club_id : String)
      (method : CheckinMethod) (w : World E C V R) where
    abbrev pub row : CheckinRow
    row = new_checkin stores db env ctx.user_id event_id m name club_id method w.checkins

    abbrev pub admitted : Result (CheckinRow × Bool) × World E C V R
    admitted = admit stores db env ctx event_id event m name club_id method w

    pub admit-refused :
        (e : HttpError) → gate_check stores db env ctx.access event ≡ err e → admitted ≡ (err e, w)
    unfolding admit
    admit-refused e refused = ground (arith, refused)

    module _ (allowed : gate_check stores db env ctx.access event ≡ ok tt) where
      pub admit-there :
          (old : CheckinRow)
          → find_member_checkin stores db env event_id m w ≡ some old
          → admitted ≡ (ok (old, true), w)
      unfolding admit
      admit-there old there = ground (arith, allowed)

      module _ (absent : find_member_checkin stores db env event_id m w ≡ none) where
        pub admit-full :
            is_full stores db env event_id event w ≡ true
            → admitted ≡ (err (conflict capacity_full), w)
        unfolding admit
        admit-full full = ground (arith, allowed, absent, full)

        pub admit-clash :
            is_full stores db env event_id event w ≡ false
            → stores.checkins.create row w.checkins ≡ none
            → admitted ≡ (err internal, w)
        unfolding admit enter
        admit-clash room clash = ground (arith, allowed, absent, room)

        pub admit-entered :
            (s : C)
            → is_full stores db env event_id event w ≡ false
            → stores.checkins.create row w.checkins ≡ some s
            → admitted ≡ (
              ok (row, false),
              record w {
                checkins = s;
                effects =
                    if event.is_district_event
                    then w.effects ++ schedule_attendance event_id club_id ∷ []
                    else w.effects;
              },
            )
        unfolding admit enter
        admit-entered s room made = ground (arith, allowed, absent, room)

        effects_entered :
            (if event.is_district_event
              then w.effects ++ schedule_attendance event_id club_id ∷ []
              else w.effects)
            ≡ w.effects ++ attendance_effects event event_id club_id
        effects_entered = elim (Bool-cases event.is_district_event) [
          | inl district ↦ ground (arith, district)
          | inr club ↦ ground (arith, club, append-nil w.effects)
        ]

        admit-new :
            find_event stores db env event_id w ≡ some event → Outcome w admitted.0 admitted.1
        admit-new found = elim (Bool-cases (is_full stores db env event_id event w)) [
          | inl full ↦ of_result w w (err (conflict capacity_full)) _ (admit-full full) refl
          | inr room ↦ elim (Option-cases (stores.checkins.create row w.checkins)) [
            | inl clash ↦ of_result w w (err internal) _ (admit-clash room clash) refl
            | inr (s, made) ↦ of_result w _ (ok (row, false)) _ (admit-entered s room made) record {
              event = event;
              found = found;
              allowed = allowed;
              absent = absent;
              room = room;
              at_event = refl;
              by_caller = refl;
              rows = stores.checkins.rows_create row w.checkins s made;
              events = refl;
              effects = effects_entered;
            }
          ]
        ]

    member_found :
        (o : Option String) (old : CheckinRow)
        → find_member_checkin stores db env event_id o w ≡ some old
        → (member_id : String) × (find_checkin stores db env event_id member_id w ≡ some old)
    member_found none old h = absurd (cc)
    member_found (some member_id) old h = (member_id, ground arith)

    admit-Outcome :
        find_event stores db env event_id w ≡ some event → Outcome w admitted.0 admitted.1
    admit-Outcome found = elim (Result-cases (gate_check stores db env ctx.access event)) [
      | inl (e, refused) ↦ of_result w w (err e) _ (admit-refused e refused) refl
      | inr (_, allowed) ↦ elim (Option-cases (find_member_checkin stores db env event_id m w)) [
        | inl absent ↦ admit-new allowed absent found
        | inr (old, there) ↦
            of_result w w (ok (old, true)) _ (admit-there allowed old there)
              (refl, member_found m old there)
      ]
    ]

  -- A visitor was found out before, which may have used up a pass.
  after_pass :
      (w w1 w' : World E C V R) (result : Result (CheckinRow × Bool))
      → SameRows stores db env w w1
      → Outcome w1 result w'
      → Outcome w result w'
  after_pass w w1 w' result same h =
      retract w w1.passes w' result (subst (λ x. Outcome x result w') same h)

  unfoldable pub finish :
      (event : EventRow)
      → Result Visitor × World E C V R
      → Result (CheckinRow × Bool) × World E C V R
  finish event (err e, w1) = (err e, w1)
  finish event (ok (already_in old), w1) = (ok (old, true), w1)
  finish event (ok (visitor m name club_id method), w1) =
      admit stores db env ctx event_id event m name club_id method w1

  finish-Outcome :
      (event : EventRow) (w : World E C V R) (r : Result Visitor) (w1 : World E C V R)
      → find_event stores db env event_id w ≡ some event
      → Resolved stores db env event_id w r w1
      → Outcome w (finish event (r, w1)).0 (finish event (r, w1)).1
  unfolding finish
  finish-Outcome event w (err e) w1 found resolved = resolved
  finish-Outcome event w (ok (already_in old)) w1 found (same, (m, there)) =
      after_pass w w1 w1 (ok (old, true)) same (refl, (m, there))
  finish-Outcome event w (ok (visitor m name club_id method)) w1 found same =
      after_pass w w1 _ _ same (
        admit-Outcome event m name club_id method w1
          (ap (find_event stores db env event_id) same ∙ found))

  module _ (input : CheckinInput) (w : World E C V R) where
    pub check_in-missing :
        find_event stores db env event_id w ≡ none
        → check_in stores db env ctx event_id input w ≡ (err not_found, w)
    unfolding check_in
    check_in-missing missing = ground (arith, missing)

    pub check_in-finish :
        (event : EventRow)
        → find_event stores db env event_id w ≡ some event
        → check_in stores db env ctx event_id input w
          ≡ finish event (resolve_visitor stores db env event_id event input w)
    unfolding check_in finish
    check_in-finish event found = ground (arith, found)

    pub check_in-Outcome :
        let (result, w') = check_in stores db env ctx event_id input w in Outcome w result w'
    check_in-Outcome = elim (Option-cases (find_event stores db env event_id w)) [
      | inl missing ↦ of_result w w (err not_found) _ (check_in-missing missing) refl
      | inr (event, found) ↦ rw (check_in-finish event found) (
          finish-Outcome event w _ _ found
            (resolve_visitor-Resolved stores db env event_id event input w))
    ]
