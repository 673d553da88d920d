-- ===== src/Events/Gate/Capacity.antt =====
-- src/events/events-admin.service.ts (checkin): the capacity of an event.
use rac3011_api.Base.{
  ℕ, ◌+◌, ◌≤◌, max, String, ◌≡◌, sym, ap, ◌∙◌, Bool, true, false, some, List, [], ◌∷◌, ◌++◌, ◌==◌,
  arith, if◌then◌else◌, keep, length, leb, Result, ok, err, Bool-cases, inl, inr, eq_iff,
}
use rac3011_api.Access.Guard.{RequestContext}
use rac3011_api.Access.Scope.{ClubClient}
use rac3011_api.Events.Types.{EventRow, CheckinRow, CheckinInput, Stores, World}
use rac3011_api.Events.Gate.{GateEnv, find_event, count_checkins, at_event, is_full, check_in}
use rac3011_api.Events.Gate.Admission.{Outcome, check_in-Outcome}

module _ {E C V R : Type 0} (stores : Stores E C V R) (db : ClubClient) (env : GateEnv C)
    (ctx : RequestContext) (event_id : String) where
  length-keep-append :
      (p : CheckinRow → Bool) (rows : List CheckinRow) (row : CheckinRow)
      → length (keep p (rows ++ row ∷ [])) ≡ length (keep p rows) + (if p row then 1 else 0)
  length-keep-append p [] row = ground arith
  length-keep-append p (r ∷ rows) row = ground (arith, length-keep-append p rows row)

  module _ (id : String) (event : EventRow) (capacity : ℕ) (w : World E C V R)
      (listed : find_event stores db env id w ≡ some event)
      (limit : event.capacity ≡ some capacity) where
    room_left :
        (there : EventRow)
        → some event ≡ some there
        → is_full stores db env id there w ≡ false
        → leb capacity (count_checkins stores db env id w) ≡ false
    room_left there same room =
        let e : event ≡ there = ground arith in
        let c : there.capacity ≡ some capacity = ap EventRow.capacity (sym e) ∙ limit in
        ground (arith, c, room)

    bound_of :
        (result : Result (CheckinRow × Bool)) (w' : World E C V R)
        → Outcome stores db env ctx event_id w result w'
        → count_checkins stores db env id w' ≤ max capacity (count_checkins stores db env id w)
    bound_of (err e) w' same =
        let kept = ap (count_checkins stores db env id) same in ground (arith, kept)
    bound_of (ok (row, true)) w' (same, there) =
        let kept = ap (count_checkins stores db env id) same in ground (arith, kept)
    bound_of (ok (row, false)) w' new =
        let counted = ap (λ rows. length (keep (at_event stores db env id) rows)) new.rows in
        let one =
          length-keep-append (at_event stores db env id) (stores.checkins.rows w.checkins) row in
        elim (Bool-cases (row.event_id == id)) [
          | inr elsewhere ↦ ground (arith, counted, one, elsewhere)
          | inl here ↦
              let e : id ≡ event_id = ground (arith, here, new.at_event, eq_iff row.event_id id) in
              let room =
                room_left new.event
                  (sym listed ∙ ap (λ i. find_event stores db env i w) e ∙ new.found)
                  (ap (λ i. is_full stores db env i new.event w) e ∙ new.room) in
              ground (arith, counted, one, here, room)
        ]

    -- A check-in, at whatever event, leaves an event with a capacity with as many check-ins as its
    -- capacity at most, or as many as it had if it had more.
    pub check_in-capacity :
        (input : CheckinInput)
        → count_checkins stores db env id (check_in stores db env ctx event_id input w).1
          ≤ max capacity (count_checkins stores db env id w)
    check_in-capacity input = bound_of _ _ (check_in-Outcome stores db env ctx event_id input w)
