-- ===== src/Events/Tests/Changes.antt =====
-- Runs of the creation and the change of events, and instances of the theorems about them.
use rac3011_api.Base.{
  ◌≡◌, refl, true, false, none, some, [], ◌∷◌, ok, err, forbidden, not_found, codes, decimal,
  decimal_from,
}
use rac3011_api.Access.Types.{club}
use rac3011_api.Access.Guard.{RequestContext}
use rac3011_api.Access.Scope.{can_access_club, assert_can_access_club, can_access_club_any}
use rac3011_api.Events.Slug.{lower, to_lower_case, slugify, free_slug}
use rac3011_api.Events.Types.{EventRow, CreateEventInput, UpdateEventInput}
use rac3011_api.Events.Service.{
  unique_slug, owner_by_manager, owner_by_club, owner_of, create, may_change, changes_owner,
  updated, next_slug, update, remove, upsert_rsvp, rsvp,
}
use rac3011_api.Events.Service.Creation
use rac3011_api.Events.Service.Ownership
use rac3011_api.Events.Service.Ownership.{owner_columns, update-Outcome, update-owners}
use rac3011_api.Events.Tests.{stores, db, event_env, officer, stranger, event, world}

run : Unit {0}
unfolding decimal decimal_from lower to_lower_case slugify free_slug unique_slug owner_by_manager
    owner_by_club owner_of create may_change changes_owner updated next_slug update remove
    upsert_rsvp rsvp can_access_club assert_can_access_club can_access_club_any
run = tt

abbrev input : CreateEventInput
input = record {
  title = codes "Day";
  slug = none;
  starts_at = 140;
  ends_at = none;
  location = none;
  description = none;
  cover_url = none;
  is_district_event = none;
  club_id = none;
  project_key = some "drishti";
  rsvp_open = none;
  capacity = none;
  photos = none;
}

abbrev second_event : EventRow
second_event = record {
  id = "e2";
  title = codes "Day";
  slug = codes "day-2";
  starts_at = 140;
  ends_at = none;
  location = none;
  description = none;
  cover_url = none;
  is_district_event = false;
  club_id = some "c1";
  project_key = none;
  rsvp_open = true;
  capacity = none;
  photos = [];
  created_by_id = "u1";
  created_at = 120;
  updated_at = 120;
}

creations :
    (create stores db event_env officer input world
      ≡ (ok second_event, record world { events = event ∷ second_event ∷ [] }))
    × ((create stores db event_env officer (record input { is_district_event = some true }) world).0
        ≡ err forbidden)
    × ((create stores db event_env stranger input world).0 ≡ err forbidden)
unfolding run
creations = (refl, refl, refl)

-- A manager of the events of one club creates an event of another one.
abbrev club_manager : RequestContext
club_manager = record officer {
  access = record {
    user_id = "u3";
    is_super_admin = false;
    roles = [];
    grants = ("events:manage", record { kind = club; id = some "c1" } ∷ []) ∷ [];
  };
}

foreign_club :
    (create stores db event_env club_manager
      (record input { is_district_event = some false; club_id = some "c9" })
      world).0
    ≡ ok (record second_event { club_id = some "c9"; project_key = some "drishti" })
unfolding run
foreign_club = refl

abbrev renaming : UpdateEventInput
renaming = record {
  title = some (codes "Night");
  slug = some (codes "Day");
  starts_at = none;
  ends_at = none;
  location = none;
  description = none;
  cover_url = none;
  is_district_event = none;
  club_id = none;
  project_key = none;
  rsvp_open = none;
  capacity = some (some 5);
  photos = none;
}

renamed :
    ((update stores db event_env officer "e1" renaming world).0
      ≡ ok (record event { title = codes "Night"; capacity = some 5; updated_at = 120 }))
    × ((update stores db event_env officer "e1"
          (record renaming { club_id = some (some "c2") })
          world).0
        ≡ err forbidden)
    × ((update stores db event_env stranger "e1" renaming world).0 ≡ err not_found)
unfolding run
renamed = (refl, refl, refl)

update-Outcome_example :
    let (result, w') = update stores db event_env officer "e1" renaming world in
    Ownership.Outcome stores db event_env officer "e1" renaming world result w'
update-Outcome_example = update-Outcome stores db event_env officer "e1" renaming world
