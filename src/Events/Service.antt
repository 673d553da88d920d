-- ===== src/Events/Service.antt =====
-- src/events/events-admin.service.ts and the queries of events-admin.repository.ts that it makes:
-- creating, changing and removing events, and answering an invitation.
pub mod Authority
pub mod Creation
pub mod Changes
pub mod Ownership
use rac3011_api.Base.{
  ℕ, suc, String, Bool, true, false, not, ◌&&◌, ◌||◌, Option, none, some, List, [], ◌∷◌, ◌++◌, ◌==◌,
  map, keep, includes, length, if◌then◌else◌, truthy?, is_some, is_text, get_or, opt_eq, Result, ok,
  err, bad_request, forbidden, not_found, internal, conflict, invalid_transition, is_empty,
}
use rac3011_api.Action.{Action, pure, raise, raise_if, lift, gets, or_raise, modify, ◌>>=◌, ◌>>◌}
use rac3011_api.Db.{Table}
use rac3011_api.Effects.{Effect, purge_asset}
use rac3011_api.Access.Types.{ResolvedAccess}
use rac3011_api.Access.Guard.{RequestContext}
use rac3011_api.Access.Scope.{ClubClient, assert_can_access_club, can_access_club_any}
use rac3011_api.Events.Slug.{slugify, free_slug}
use rac3011_api.Events.Types.{
  EventRow, CheckinRow, RsvpRow, RsvpStatus, CreateEventInput, UpdateEventInput, Member, Stores,
  World,
}
use rac3011_api.Events.Gate.{has_grant}

-- The time, the id of the next event, the profile of an account, and whether the database takes the
-- columns of a row: its club exists (a foreign key), and its numbers and times fit their columns.
pub record EventEnv (E : Type 0) : Type 0 where
  pub now : ℕ
  pub new_event_id : E → String
  pub get_profile : String → Option Member
  pub fits : EventRow → Bool

-- `isDistrictEvent`, `clubId` and `projectKey`.
pub record Owner : Type 0 where
  pub is_district_event : Bool
  pub club_id : Option String
  pub project_key : Option String

abbrev pub manage_or_log : List String
manage_or_log = "events:manage" ∷ "club_events:log" ∷ []

abbrev pub bool_eq : Bool → Bool → Bool
bool_eq true b = b
bool_eq false b = not b

-- `input !== undefined && input !== old`
abbrev pub changes : Option (Option String) → Option String → Bool
changes none old = false
changes (some new) old = not (opt_eq new old)

-- `clubId && clubId !== profile.clubId`
abbrev pub other_club : Option String → String → Bool
other_club none mine = false
other_club (some club_id) mine = truthy? (some club_id) && not (club_id == mine)

module _ {E C V R : Type 0} (stores : Stores E C V R) (db : ClubClient) (env : EventEnv E) where
  abbrev pub has_id : String → EventRow → Bool
  has_id id r = r.id == id

  abbrev pub find_event : String → World E C V R → Option EventRow
  find_event id w = stores.events.find_first (has_id id) w.events

  abbrev pub must_find : String → Action (World E C V R) EventRow
  must_find id = do row ← gets (find_event id); or_raise row not_found

  -- The slugs in the table: `slugExists` is a lookup by that key.
  abbrev pub slugs_of : World E C V R → List (List ℕ)
  slugs_of w = map EventRow.slug (stores.events.rows w.events)

  abbrev pub slug_of : Option EventRow → Option (List ℕ)
  slug_of none = none
  slug_of (some r) = some r.slug

  -- `uniqueSlug(seed, excludeId)`
  unfoldable pub unique_slug : List ℕ → Option String → Action (World E C V R) (List ℕ)
  unique_slug seed exclude_id = do
    own ← gets (λ w. elim exclude_id [ none ↦ none | some id ↦ slug_of (find_event id w) ])
    slugs ← gets slugs_of
    or_raise (free_slug (suc (length slugs)) slugs own (slugify seed) (slugify seed) 2) internal

  -- Who owns a new event: `create` up to the check of the club of a club event.
  unfoldable pub owner_by_manager : ResolvedAccess → CreateEventInput → Action (World E C V R) Owner
  owner_by_manager access input = do
    (if get_or input.is_district_event true && truthy? input.club_id
        then lift (assert_can_access_club db access "events:manage" (get_or input.club_id ""))
        else pure tt)
    pure record {
      is_district_event = get_or input.is_district_event true;
      club_id = input.club_id;
      project_key = input.project_key;
    }

  unfoldable pub owner_by_club : RequestContext → CreateEventInput → Action (World E C V R) Owner
  owner_by_club ctx input = do
    raise_if (not (has_grant ctx.access "club_events:log")) forbidden
    raise_if (get_or input.is_district_event false) forbidden
    profile ← or_raise (env.get_profile ctx.user_id) bad_request
    raise_if (other_club input.club_id profile.club_id) not_found
    lift (assert_can_access_club db ctx.access "club_events:log" profile.club_id)
    pure record { is_district_event = false; club_id = some profile.club_id; project_key = none }

  unfoldable pub owner_of : RequestContext → CreateEventInput → Action (World E C V R) Owner
  unfolding owner_by_manager owner_by_club
  owner_of ctx input =
      if has_grant ctx.access "events:manage"
      then owner_by_manager ctx.access input
      else owner_by_club ctx input

  abbrev pub new_event : String → CreateEventInput → Owner → List ℕ → E → EventRow
  new_event user_id input owner slug s = record {
    id = env.new_event_id s;
    title = input.title;
    slug = slug;
    starts_at = input.starts_at;
    ends_at = input.ends_at;
    location = input.location;
    description = input.description;
    cover_url = input.cover_url;
    is_district_event = owner.is_district_event;
    club_id = owner.club_id;
    project_key = owner.project_key;
    rsvp_open = get_or input.rsvp_open true;
    capacity = input.capacity;
    photos = get_or input.photos [];
    created_by_id = user_id;
    created_at = env.now;
    updated_at = env.now;
  }

  -- `repo.create`, whose errors for a taken key, an unknown club and an overflow nobody catches.
  abbrev pub create_event : (E → EventRow) → Action (World E C V R) EventRow
  create_event row w = elim (stores.events.create (row w.events) w.events) [
    | none ↦ (err internal, w)
    | some s ↦
        if env.fits (row w.events)
        then (ok (row w.events), record w { events = s })
        else (err internal, w)
  ]

  -- `input.slug ? input.slug : input.title`
  abbrev pub slug_seed : CreateEventInput → List ℕ
  slug_seed input = let slug = get_or input.slug [] in if is_empty slug then input.title else slug

  unfoldable pub create : RequestContext → CreateEventInput → Action (World E C V R) EventRow
  unfolding owner_of unique_slug
  create ctx input = do
    owner ← owner_of ctx input
    raise_if (not owner.is_district_event && not (truthy? owner.club_id)) bad_request
    slug ← unique_slug (slug_seed input) none
    create_event (new_event ctx.user_id input owner slug)

  abbrev pub log : Effect → Action (World E C V R) (Unit {0})
  log e = modify (λ w. record w { effects = w.effects ++ e ∷ [] })

  -- Whether the caller may change an event, which hides it if not.
  unfoldable pub may_change : ResolvedAccess → EventRow → Bool
  may_change access existing =
      if existing.is_district_event
      then has_grant access "events:manage"
      else can_access_club_any db access manage_or_log (get_or existing.club_id "")

  unfoldable pub changes_owner : UpdateEventInput → EventRow → Bool
  changes_owner input existing =
      elim input.is_district_event [
        | none ↦ false
        | some d ↦ not (bool_eq d existing.is_district_event)
      ]
      || changes input.club_id existing.club_id
      || changes input.project_key existing.project_key

  -- `input.coverUrl !== undefined && input.coverUrl !== existing.coverUrl && existing.coverUrl`
  abbrev pub dropped_cover : UpdateEventInput → EventRow → List String
  dropped_cover input existing =
      if changes input.cover_url existing.cover_url && truthy? existing.cover_url
      then get_or existing.cover_url "" ∷ []
      else []

  abbrev pub dropped_photos : UpdateEventInput → EventRow → List String
  dropped_photos input existing = elim input.photos [
    | none ↦ []
    | some photos ↦ keep (λ p. not (includes p photos)) existing.photos
  ]

  -- `storage.purgeAssetByUrl(p).catch(() => {})` for each
  abbrev pub purge_assets : List String → Action (World E C V R) (Unit {0})
  purge_assets urls = modify (λ w. record w { effects = w.effects ++ map purge_asset urls })

  -- The `data` of the update; what is `undefined` stays as it is.
  unfoldable pub updated : Bool → UpdateEventInput → Option (List ℕ) → EventRow → EventRow
  updated can_manage input slug r = record r {
    title = get_or input.title r.title;
    slug = get_or slug r.slug;
    starts_at = get_or input.starts_at r.starts_at;
    ends_at = get_or input.ends_at r.ends_at;
    location = get_or input.location r.location;
    description = get_or input.description r.description;
    cover_url = get_or input.cover_url r.cover_url;
    is_district_event =
        if can_manage
        then get_or input.is_district_event r.is_district_event
        else r.is_district_event;
    club_id = if can_manage then get_or input.club_id r.club_id else r.club_id;
    project_key = if can_manage then get_or input.project_key r.project_key else r.project_key;
    rsvp_open = get_or input.rsvp_open r.rsvp_open;
    capacity = get_or input.capacity r.capacity;
    photos = get_or input.photos r.photos;
    updated_at = env.now;
  }

  -- `input.slug ? await this.uniqueSlug(input.slug, existing.id) : undefined`
  unfoldable pub next_slug : UpdateEventInput → EventRow → Action (World E C V R) (Option (List ℕ))
  unfolding unique_slug
  next_slug input existing =
      if is_empty (get_or input.slug [])
      then pure none
      else do slug ← unique_slug (get_or input.slug []) (some existing.id); pure (some slug)

  unfoldable pub update :
      RequestContext → String → UpdateEventInput → Action (World E C V R) EventRow
  unfolding next_slug may_change changes_owner updated
  update ctx id input = do
    existing ← must_find id
    raise_if (not (may_change ctx.access existing)) not_found
    raise_if (not (has_grant ctx.access "events:manage") && changes_owner input existing) forbidden
    slug ← next_slug input existing
    purge_assets (dropped_cover input existing ++ dropped_photos input existing)
    raise_if (not (env.fits (updated (has_grant ctx.access "events:manage") input slug existing)))
        internal
    modify (λ w. record w {
      events =
          stores.events.update_many (has_id id)
            (updated (has_grant ctx.access "events:manage") input slug) w.events;
    })
    must_find id

  abbrev pub all_assets : EventRow → List String
  all_assets existing =
      (if truthy? existing.cover_url then get_or existing.cover_url "" ∷ [] else [])
      ++ existing.photos

  -- The check-ins and answers of an event go with its row (`onDelete: Cascade`).
  unfoldable pub remove : RequestContext → String → Action (World E C V R) (Unit {0})
  unfolding may_change
  remove ctx id = do
    existing ← must_find id
    raise_if (not (may_change ctx.access existing)) not_found
    modify (λ w. record w {
      events = stores.events.delete_many (has_id id) w.events;
      checkins = stores.checkins.delete_many (λ r. r.event_id == id) w.checkins;
      rsvps = stores.rsvps.delete_many (λ r. r.event_id == id) w.rsvps;
    })
    purge_assets (all_assets existing)

  abbrev pub of_answer : String → String → RsvpRow → Bool
  of_answer event_id member_id r = r.event_id == event_id && r.member_id == member_id

  abbrev pub answer : String → String → RsvpStatus → RsvpRow
  answer event_id member_id status = record {
    event_id = event_id;
    member_id = member_id;
    status = status;
  }

  -- `repo.upsertRsvp`
  unfoldable pub upsert_rsvp : String → String → RsvpStatus → Action (World E C V R) RsvpRow
  upsert_rsvp event_id member_id status w =
      elim (stores.rsvps.find_first (of_answer event_id member_id) w.rsvps) [
        | some old ↦ (
          ok (record old { status = status }),
          record w {
            rsvps =
                stores.rsvps.update_many (of_answer event_id member_id)
                  (λ r. record r { status = status }) w.rsvps;
          },
        )
        | none ↦ elim (stores.rsvps.create (answer event_id member_id status) w.rsvps) [
          | none ↦ (err internal, w)
          | some s ↦ (ok (answer event_id member_id status), record w { rsvps = s })
        ]
      ]

  unfoldable pub rsvp : RequestContext → String → RsvpStatus → Action (World E C V R) RsvpRow
  rsvp ctx event_id status = do
    event ← must_find event_id
    raise_if (not event.rsvp_open) (conflict invalid_transition)
    profile ← or_raise (env.get_profile ctx.user_id) bad_request
    upsert_rsvp event_id profile.id status
