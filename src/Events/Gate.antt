-- ===== src/Events/Gate.antt =====
-- src/events/events-admin.service.ts (checkin, removeCheckin) and the queries of
-- events-admin.repository.ts that they make.
pub mod Visitors
pub mod Admission
pub mod Capacity
pub mod Replay
use rac3011_api.Base.{
  ℕ, String, Bool, true, false, not, ◌&&◌, ◌||◌, Option, none, some, List, [], ◌∷◌, ◌++◌, ◌==◌, any,
  leb, if◌then◌else◌, truthy?, is_some, is_text, get_or, Result, ok, err, HttpError, bad_request,
  forbidden, not_found, internal, conflict, capacity_full, token_replayed,
}
use rac3011_api.Action.{Action, pure, raise, raise_if, lift, gets, or_raise, modify, ◌>>=◌, ◌>>◌}
use rac3011_api.Db.{Table, count}
use rac3011_api.Effects.{Effect, schedule_attendance}
use rac3011_api.Access.Types.{ResolvedAccess}
use rac3011_api.Access.Guard.{RequestContext, granted}
use rac3011_api.Access.Scope.{ClubClient, assert_can_access_club}
use rac3011_api.Events.Slug.{trim, is_space}
use rac3011_api.Events.Types.{
  EventRow, CheckinRow, CheckinMethod, qr, manual, walk_in, CheckinInput, Member, Payload,
  PassStore, Stores, World,
}

-- What the gate reads outside its own tables: the time, the id of the next check-in, the payload of a
-- valid pass, the members, and the clubs (by id, by a name, and the first one).
pub record GateEnv (C : Type 0) : Type 0 where
  pub now : ℕ
  pub new_checkin_id : C → String
  pub verify : List ℕ → Option Payload
  pub find_member_by_qr_token : List ℕ → Option Member
  pub find_member_by_id : String → Option Member
  pub find_club_id_by_id : String → Option String
  pub find_club_id_by_name : String → Option String
  pub first_club_id : Option String

abbrev pub has_grant : ResolvedAccess → String → Bool
has_grant access permission = access.is_super_admin || granted access permission

-- Who stands at the gate, or the check-in that a pass has already made.
pub data Visitor : Type 0 where
  already_in : CheckinRow → Visitor
  visitor : Option String → Option (List ℕ) → String → CheckinMethod → Visitor

-- `a || b` on the ids of clubs
abbrev pub or_else : Option String → Option String → Option String
or_else a b = if truthy? a then a else b

module _ {E C V R : Type 0} (stores : Stores E C V R) (db : ClubClient) (env : GateEnv C) where
  abbrev pub log : Effect → Action (World E C V R) (Unit {0})
  log e = modify (λ w. record w { effects = w.effects ++ e ∷ [] })

  abbrev pub event_has_id : String → EventRow → Bool
  event_has_id id r = r.id == id

  abbrev pub find_event : String → World E C V R → Option EventRow
  find_event id w = stores.events.find_first (event_has_id id) w.events

  abbrev pub must_find : String → Action (World E C V R) EventRow
  must_find id = do row ← gets (find_event id); or_raise row not_found

  -- `{ eventId_memberId: { eventId, memberId } }`
  abbrev pub of_member : String → String → CheckinRow → Bool
  of_member event_id member_id r = r.event_id == event_id && is_text r.member_id member_id

  abbrev pub find_checkin : String → String → World E C V R → Option CheckinRow
  find_checkin event_id member_id w =
      stores.checkins.find_first (of_member event_id member_id) w.checkins

  abbrev pub at_event : String → CheckinRow → Bool
  at_event event_id r = r.event_id == event_id

  abbrev pub count_checkins : String → World E C V R → ℕ
  count_checkins event_id w = count stores.checkins (at_event event_id) w.checkins

  -- `redis.set(key, '1', 'EX', ttl, 'NX')`; with no Redis every pass is taken for fresh.
  unfoldable pub set_nx : Option (PassStore R) → String → Action (World E C V R) Bool
  set_nx none jti w = (ok true, w)
  set_nx (some passes) jti w = elim (passes.set_nx jti w.passes) [
    | none ↦ (ok false, w)
    | some r ↦ (ok true, record w { passes = r })
  ]

  abbrev pub member_or_throw : Option Member → CheckinMethod → Action (World E C V R) Visitor
  member_or_throw member method = do
    m ← or_raise member not_found
    pure (visitor (some m.id) none m.club_id method)

  -- A signed pass.
  unfoldable pub scan_pass : String → Payload → Action (World E C V R) Visitor
  unfolding set_nx
  scan_pass event_id payload = do
    raise_if (not (payload.eid == event_id)) bad_request
    fresh ← set_nx stores.passes payload.jti
    if fresh then member_or_throw (env.find_member_by_id payload.mid) qr else do
      existing ← gets (find_checkin event_id payload.mid)
      row ← or_raise existing (conflict token_replayed)
      pure (already_in row)

  -- The club of a visitor with no profile.
  unfoldable pub resolve_club : EventRow → String → Option String
  resolve_club event club_id =
      or_else (or_else (env.find_club_id_by_id club_id) (env.find_club_id_by_name club_id))
        (if truthy? event.club_id then event.club_id else env.first_club_id)

  unfoldable pub register_walk_in : EventRow → List ℕ → String → Action (World E C V R) Visitor
  register_walk_in event name club_id =
      let club = resolve_club event club_id in
      if truthy? club
      then pure (visitor none (some (trim is_space name)) (get_or club "") walk_in)
      else raise bad_request

  unfoldable pub resolve_token : String → List ℕ → Action (World E C V R) Visitor
  unfolding scan_pass
  resolve_token event_id token = elim (env.verify token) [
    | some payload ↦ scan_pass event_id payload
    | none ↦ member_or_throw (env.find_member_by_qr_token token) qr
  ]

  -- The chain of branches at the head of `checkin`.
  unfoldable pub resolve_visitor : String → EventRow → CheckinInput → Action (World E C V R) Visitor
  resolve_visitor event_id event input = elim input.qr_token [
    | some token ↦ resolve_token event_id token
    | none ↦ elim input.member_id [
      | some id ↦ member_or_throw (env.find_member_by_id id) manual
      | none ↦ elim input.walk_in_name [
        | none ↦ raise bad_request
        | some name ↦ elim input.club_id [
          | none ↦ raise bad_request
          | some club_id ↦ register_walk_in event name club_id
        ]
      ]
    ]
  ]

  -- Whether the caller may check people in at the event, and with which error not.
  unfoldable pub gate_check : ResolvedAccess → EventRow → Result (Unit {0})
  gate_check access event =
      if event.is_district_event
      then if not (has_grant access "events:checkin") && not (has_grant access "events:manage")
        then err forbidden
        else ok tt
      else if truthy? event.club_id
      then assert_can_access_club db access "events:checkin" (get_or event.club_id "")
      else ok tt

  abbrev pub new_checkin :
      String → String → Option String → Option (List ℕ) → String → CheckinMethod → C → CheckinRow
  new_checkin user_id event_id member_id walk_in_name club_id method s = record {
    id = env.new_checkin_id s;
    event_id = event_id;
    member_id = member_id;
    walk_in_name = walk_in_name;
    club_id = club_id;
    method = method;
    checked_in_at = env.now;
    checked_in_by_id = user_id;
  }

  -- `repo.createCheckin`, whose error for a taken key nobody catches.
  abbrev pub create_checkin : (C → CheckinRow) → Action (World E C V R) CheckinRow
  create_checkin row w = elim (stores.checkins.create (row w.checkins) w.checkins) [
    | none ↦ (err internal, w)
    | some s ↦ (ok (row w.checkins), record w { checkins = s })
  ]

  abbrev pub find_member_checkin : String → Option String → World E C V R → Option CheckinRow
  find_member_checkin event_id none w = none
  find_member_checkin event_id (some m) w =
      if truthy? (some m) then find_checkin event_id m w else none

  abbrev pub is_full : String → EventRow → World E C V R → Bool
  is_full event_id event w = elim event.capacity [
    | none ↦ false
    | some capacity ↦ leb capacity (count_checkins event_id w)
  ]

  -- From the creation of the row on.
  unfoldable pub enter :
      String
      → String
      → EventRow
      → Option String
      → Option (List ℕ)
      → String
      → CheckinMethod
      → Action (World E C V R) (CheckinRow × Bool)
  enter user_id event_id event member_id walk_in_name club_id method = do
    row ← create_checkin (new_checkin user_id event_id member_id walk_in_name club_id method)
    (if event.is_district_event then log (schedule_attendance event_id club_id) else pure tt)
    pure (row, false)

  -- `checkin` from the check of the permission on; the flag says that the row was there before.
  unfoldable pub admit :
      RequestContext
      → String
      → EventRow
      → Option String
      → Option (List ℕ)
      → String
      → CheckinMethod
      → Action (World E C V R) (CheckinRow × Bool)
  unfolding gate_check enter
  admit ctx event_id event member_id walk_in_name club_id method = do
    lift (gate_check ctx.access event)
    existing ← gets (find_member_checkin event_id member_id)
    elim existing [
      | some row ↦ pure (row, true)
      | none ↦ do
        full ← gets (is_full event_id event)
        raise_if full (conflict capacity_full)
        enter ctx.user_id event_id event member_id walk_in_name club_id method
    ]

  unfoldable pub check_in :
      RequestContext → String → CheckinInput → Action (World E C V R) (CheckinRow × Bool)
  check_in ctx event_id input = do
    event ← must_find event_id
    someone ← resolve_visitor event_id event input
    elim someone [
      | already_in row ↦ pure (row, true)
      | visitor member_id walk_in_name club_id method ↦
          admit ctx event_id event member_id walk_in_name club_id method
    ]

  abbrev pub checkin_has_id : String → CheckinRow → Bool
  checkin_has_id id r = r.id == id

  unfoldable pub remove_checkin : RequestContext → String → String → Action (World E C V R) String
  remove_checkin ctx event_id checkin_id = do
    event ← must_find event_id
    found ← gets (λ w. stores.checkins.find_first (checkin_has_id checkin_id) w.checkins)
    checkin ← or_raise found not_found
    raise_if (not (checkin.event_id == event_id)) not_found
    lift (gate_check ctx.access event)
    modify (λ w. record w {
      checkins = stores.checkins.delete_many (checkin_has_id checkin_id) w.checkins;
    })
    (if event.is_district_event && truthy? (some checkin.club_id)
        then log (schedule_attendance event_id checkin.club_id)
        else pure tt)
    pure checkin_id
