-- ===== src/Events/Tests.antt =====
-- Runs of the gate on concrete tables, and instances of its theorems.
pub mod Texts
pub mod Changes
use rac3011_api.Base.{
  ℕ, ◌≤◌, max, String, ◌≡◌, refl, true, false, not, ◌||◌, ◌==◌, Option, none, some, List, [], ◌∷◌,
  any, map, arith, includes, is_some, is_text, if◌then◌else◌, ok, err, forbidden, not_found,
  conflict, capacity_full, token_replayed, codes, decimal, decimal_from, split_dots,
}
use rac3011_api.Db.ListTable.{list_table}
use rac3011_api.Access.Types.{club}
use rac3011_api.Access.Guard.{RequestContext}
use rac3011_api.Access.Scope.{
  ClubClient, can_access_club, assert_can_access_club, can_access_club_any,
}
use rac3011_api.Events.Slug.{lower, to_lower_case, slugify, free_slug}
use rac3011_api.Events.Slug.Laws.{candidate, ends, earlier, free_slug-ends}
use rac3011_api.Events.Types.{
  EventRow, CheckinRow, RsvpRow, CheckinInput, CreateEventInput, UpdateEventInput, PassStore,
  Stores, World, same_event, same_checkin, same_rsvp, qr,
}
use rac3011_api.Events.Token.{
  Crypto, check_payload, sign_checkin_token, verify_parts, verify_checkin_token,
}
use rac3011_api.Events.Token.RoundTrip.{IsEncoding, signed_payload, verify-sign_checkin_token}
use rac3011_api.Events.Gate.{
  GateEnv, set_nx, scan_pass, resolve_club, register_walk_in, resolve_token, resolve_visitor,
  gate_check, enter, admit, check_in, remove_checkin, count_checkins, find_checkin,
}
use rac3011_api.Events.Gate
use rac3011_api.Events.Gate.Admission
use rac3011_api.Events.Gate.Capacity.{check_in-capacity}
use rac3011_api.Events.Gate.Replay
use rac3011_api.Events.Gate.Replay.{check_in-twice}
use rac3011_api.Events.Service.{
  EventEnv, unique_slug, owner_by_manager, owner_by_club, owner_of, create, may_change,
  changes_owner, updated, next_slug, update, remove, upsert_rsvp, rsvp,
}
use rac3011_api.Events.Service.Creation
use rac3011_api.Events.Service.Ownership
use rac3011_api.Events.Service.Ownership.{owner_columns, update-Outcome, update-owners}

run : Unit {0}
unfolding split_dots check_payload sign_checkin_token verify_parts verify_checkin_token set_nx
    scan_pass resolve_club register_walk_in resolve_token resolve_visitor gate_check enter admit
    check_in remove_checkin can_access_club assert_can_access_club can_access_club_any
run = tt

abbrev crypto : Crypto
crypto = record {
  header = codes "h";
  encode = λ p. codes "body";
  decode = λ s.
      some record {
        jti = some "j1";
        eid = some "e1";
        mid = some "m1";
        iat = some 100;
        exp = some 150;
      };
  digest = λ s. codes "s";
}

abbrev add_pass : String → List String → Option (List String)
add_pass jti used = if includes jti used then none else some (jti ∷ used)

set_nx_used :
    (jti : String) (used : List String) → is_some (add_pass jti used) ≡ not (includes jti used)
set_nx_used jti used = ground arith

used_after :
    (jti : String) (r r' : List String) (other : String)
    → add_pass jti r ≡ some r'
    → includes other r' ≡ (jti == other || includes other r)
used_after jti r r' other h = ground arith

abbrev redis : PassStore (List String)
redis = record {
  used = λ r jti. includes jti r;
  set_nx = add_pass;
  set_nx_used = set_nx_used;
  used_after = used_after;
}

abbrev stores : Stores (List EventRow) (List CheckinRow) (List RsvpRow) (List String)
stores = record {
  events = list_table same_event;
  checkins = list_table same_checkin;
  rsvps = list_table same_rsvp;
  passes = some redis;
}

abbrev db : ClubClient
db = record { find_unique = λ id. none; find_many = λ ids. []; find_many_iff = λ id ids. refl }

abbrev gate_env : GateEnv (List CheckinRow)
gate_env = record {
  now = 120;
  new_checkin_id = λ s. "k";
  verify = verify_checkin_token crypto 120;
  find_member_by_qr_token = λ token. none;
  find_member_by_id = λ id. if id == "m1" then some record { id = "m1"; club_id = "c1" } else none;
  find_club_id_by_id = λ id. none;
  find_club_id_by_name = λ name. none;
  first_club_id = none;
}

abbrev event_env : EventEnv (List EventRow)
event_env = record {
  now = 120;
  new_event_id = λ s. "e2";
  get_profile = λ id. some record { id = "m1"; club_id = "c1" };
  fits = λ r. not (is_text r.club_id "c0");
}

abbrev officer : RequestContext
officer = record {
  user_id = "u1";
  session_id = "s1";
  session_expires_at = none;
  access = record {
    user_id = "u1";
    is_super_admin = false;
    roles = [];
    grants =
        ("events:checkin", record { kind = club; id = some "c1" } ∷ [])
        ∷ ("club_events:log", record { kind = club; id = some "c1" } ∷ [])
        ∷ [];
  };
}

abbrev stranger : RequestContext
stranger = record officer {
  access = record { user_id = "u2"; is_super_admin = false; roles = []; grants = [] };
}

abbrev event : EventRow
event = record {
  id = "e1";
  title = codes "Day";
  slug = codes "day";
  starts_at = 130;
  ends_at = none;
  location = none;
  description = none;
  cover_url = none;
  is_district_event = false;
  club_id = some "c1";
  project_key = none;
  rsvp_open = true;
  capacity = some 1;
  photos = [];
  created_by_id = "u1";
  created_at = 1;
  updated_at = 1;
}

abbrev world : World (List EventRow) (List CheckinRow) (List RsvpRow) (List String)
world = record { events = event ∷ []; checkins = []; rsvps = []; passes = []; effects = [] }

abbrev pass : CheckinInput
pass = record {
  qr_token = some (codes "h.body.s");
  member_id = none;
  walk_in_name = none;
  club_id = none;
}

abbrev checked_in : CheckinRow
checked_in = record {
  id = "k";
  event_id = "e1";
  member_id = some "m1";
  walk_in_name = none;
  club_id = "c1";
  method = qr;
  checked_in_at = 120;
  checked_in_by_id = "u1";
}

-- The first scan of a pass checks its member in; a second one finds the row; a scan that a stranger
-- is refused uses the pass up for the officer too.
scans :
    let (first, w1) = check_in stores db gate_env officer "e1" pass world in
    let (second, w2) = check_in stores db gate_env officer "e1" pass w1 in
    let (refused, w3) = check_in stores db gate_env stranger "e1" pass world in
    (first ≡ ok (checked_in, false))
    × (second ≡ ok (checked_in, true))
    × (w2 ≡ w1)
    × (refused ≡ err not_found)
    × ((check_in stores db gate_env officer "e1" pass w3).0 ≡ err (conflict token_replayed))
unfolding run
scans = (refl, refl, refl, refl, refl)

abbrev guest : CheckinRow
guest = record checked_in { id = "k0"; member_id = none; walk_in_name = some (codes "Ann") }

-- The event has room for one.
full :
    (check_in stores db gate_env officer "e1" pass (record world { checkins = guest ∷ [] })).0
    ≡ err (conflict capacity_full)
unfolding run
full = refl

event_found : Gate.find_event stores db gate_env "e1" world ≡ some event
event_found = refl

check_in-capacity_example :
    count_checkins stores db gate_env "e1" (check_in stores db gate_env officer "e1" pass world).1
    ≤ max 1 (count_checkins stores db gate_env "e1" world)
check_in-capacity_example =
    check_in-capacity stores db gate_env officer "e1" "e1" event 1 world event_found refl pass

signed : gate_env.verify (codes "h.body.s") ≡ some (signed_payload 100 "j1" "e1" "m1" 50)
unfolding run
signed = refl

check_in-twice_example :
    let w' = (check_in stores db gate_env stranger "e1" pass world).1 in
    check_in stores db gate_env officer "e1" pass w' ≡ (
      Replay.replayed stores db gate_env "e1" redis refl
          (signed_payload 100 "j1" "e1" "m1" 50)
          refl
          (find_checkin stores db gate_env "e1" "m1" w'),
      w',
    )
check_in-twice_example =
    check_in-twice stores db gate_env "e1" redis refl (signed_payload 100 "j1" "e1" "m1" 50) refl
      (codes "h.body.s") signed pass refl event stranger officer world event_found
