-- ===== src/Events/Service/Changes.antt =====
-- src/events/events-admin.service.ts (update): the change of an event as it is to be, described without
-- the code's own functions.
use rac3011_api.Base.{
  ℕ, String, ◌≡◌, refl, inl, inr, Bool, true, false, not, ◌&&◌, Option, none, some, List, [], ◌∷◌,
  ◌++◌, arith, if◌then◌else◌, get_or, Bool-cases, ◌⊎◌, ◌||◌, truthy, truthy?, opt_eq, opt_eq_iff,
  includes, keep,
}
use rac3011_api.Access.Guard.{RequestContext, granted}
use rac3011_api.Access.Scope.{ClubClient, can_access_club, can_access_club_any}
use rac3011_api.Events.Types.{EventRow, UpdateEventInput, Stores}
use rac3011_api.Events.Service.{
  EventEnv, bool_eq, changes, may_change, changes_owner, dropped_cover, dropped_photos, updated,
}

-- The old cover, if another one or none is given.
abbrev pub old_cover : Option (Option String) → Option String → List String
old_cover none old = []
old_cover (some new) none = []
old_cover (some new) (some old) = if truthy old && not (opt_eq new (some old)) then old ∷ [] else []

abbrev pub old_photos : Option (List String) → List String → List String
old_photos none old = []
old_photos (some kept) old = keep (λ p. not (includes p kept)) old

cover-old_cover :
    (given : Option (Option String)) (old : Option String)
    → (if changes given old && truthy? old then get_or old "" ∷ [] else []) ≡ old_cover given old
cover-old_cover none old = refl
cover-old_cover (some none) none = refl
cover-old_cover (some (some new)) none = refl
cover-old_cover (some new) (some old) = ground arith

photos-old_photos :
    (given : Option (List String)) (old : List String)
    → elim given [ none ↦ [] | some photos ↦ keep (λ p. not (includes p photos)) old ]
      ≡ old_photos given old
photos-old_photos none old = refl
photos-old_photos (some kept) old = refl

-- Nothing is asked for, or what there is.
abbrev pub Asks : {A : Type 0} → Option A → A → Type 0
Asks none old = Unit
Asks (some new) old = new ≡ old

changes-Asks :
    (given : Option (Option String)) (old : Option String)
    → changes given old ≡ false
    → Asks given old
changes-Asks none old h = tt
changes-Asks (some new) old h = ground (arith, opt_eq_iff new old)

flag-Asks :
    (given : Option Bool) (old : Bool)
    → elim given [ none ↦ false | some d ↦ not (bool_eq d old) ] ≡ false
    → Asks given old
flag-Asks none old h = tt
flag-Asks (some true) true h = refl
flag-Asks (some false) false h = refl
flag-Asks (some true) false h = absurd (ground arith)
flag-Asks (some false) true h = absurd (ground arith)

module _ {E C V R : Type 0} (stores : Stores E C V R) (db : ClubClient) (env : EventEnv E)
    (ctx : RequestContext) (input : UpdateEventInput) where
  abbrev pub may_manage : Bool
  may_manage = ctx.access.is_super_admin || granted ctx.access "events:manage"

  abbrev pub change : Option (List ℕ) → EventRow → EventRow
  change slug = updated stores db env may_manage input slug

  -- The row as it is to be after the change, written without the code's own functions.
  abbrev pub changed : Option (List ℕ) → EventRow → EventRow
  changed slug r = record r {
    title = get_or input.title r.title;
    slug = get_or slug r.slug;
    starts_at = get_or input.starts_at r.starts_at;
    ends_at = get_or input.ends_at r.ends_at;
    location = get_or input.location r.location;
    description = get_or input.description r.description;
    cover_url = get_or input.cover_url r.cover_url;
    is_district_event =
        if may_manage
        then get_or input.is_district_event r.is_district_event
        else r.is_district_event;
    club_id = if may_manage then get_or input.club_id r.club_id else r.club_id;
    project_key = if may_manage then get_or input.project_key r.project_key else r.project_key;
    rsvp_open = get_or input.rsvp_open r.rsvp_open;
    capacity = get_or input.capacity r.capacity;
    photos = get_or input.photos r.photos;
    updated_at = env.now;
  }

  pub updated-changed :
      (slug : Option (List ℕ)) (r : EventRow)
      → updated stores db env may_manage input slug r ≡ changed slug r
  unfolding updated
  updated-changed slug r = refl

  -- The old cover if another one or none is to take its place, and the old photos that are not kept.
  abbrev pub purged : EventRow → List String
  purged existing =
      old_cover input.cover_url existing.cover_url ++ old_photos input.photos existing.photos

  pub dropped-purged :
      (existing : EventRow)
      → dropped_cover stores db env input existing ++ dropped_photos stores db env input existing
        ≡ purged existing
  dropped-purged existing = λ i.
      cover-old_cover input.cover_url existing.cover_url i
      ++ photos-old_photos input.photos existing.photos i

  -- An event of the district is changed by a manager, one of a club by whoever may manage events or
  -- log them for that club.
  abbrev pub Allowed : EventRow → Type 0
  Allowed existing =
      ((existing.is_district_event ≡ true) × (may_manage ≡ true))
      ⊎ ((existing.is_district_event ≡ false)
          × ((can_access_club db ctx.access "events:manage" (get_or existing.club_id "")
                || can_access_club db ctx.access "club_events:log" (get_or existing.club_id ""))
              ≡ true))

  pub may_change-Allowed :
      (existing : EventRow) → may_change stores db env ctx.access existing ≡ true → Allowed existing
  unfolding may_change can_access_club_any
  may_change-Allowed existing h = elim (Bool-cases existing.is_district_event) [
    | inl district ↦ inl (district, ground (arith, district, h))
    | inr club ↦ inr (club, ground (arith, club, h))
  ]

  abbrev pub KeepsOwner : EventRow → Type 0
  KeepsOwner existing =
      Asks input.is_district_event existing.is_district_event
      × Asks input.club_id existing.club_id
      × Asks input.project_key existing.project_key

  pub changes_owner-KeepsOwner :
      (existing : EventRow)
      → (not may_manage && changes_owner stores db env input existing) ≡ false
      → (may_manage ≡ true) ⊎ KeepsOwner existing
  unfolding changes_owner
  changes_owner-KeepsOwner existing h = elim (Bool-cases may_manage) [
    | inl manage ↦ inl manage
    | inr not_manage ↦ inr (
      flag-Asks input.is_district_event existing.is_district_event (ground (arith, not_manage, h)),
      changes-Asks input.club_id existing.club_id (ground (arith, not_manage, h)),
      changes-Asks input.project_key existing.project_key (ground (arith, not_manage, h)),
    )
  ]
