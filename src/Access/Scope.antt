-- ===== src/Access/Scope.antt =====
-- src/common/scope: which clubs and projects a user's grants reach.
pub mod Laws
use rac3011_api.Base.{
  String, ◌≡◌, Bool, true, false, not, ◌&&◌, ◌||◌, Option, none, some, List, [], ◌∷◌, map, ◌==◌,
  if◌then◌else◌, any, keep, get_or, is_text, truthy, truthy?, includes, set_add_all, Result, assert,
  forbidden, not_found,
}
use rac3011_api.Access.Types.{
  ScopeKind, unscoped, club, zone, project, kind_eq, Scope, lookup, ResolvedAccess,
}

-- A row of the `club` table, in the columns that `ScopeRepository` selects.
pub record ClubRow : Type 0 where
  pub id : String
  pub zone_id : Option String

-- Whether a row's zone is one of `zones`.
abbrev pub in_zones : List String → Option ClubRow → Bool
in_zones zones none = false
in_zones zones (some row) = elim row.zone_id [ none ↦ false | some z ↦ includes z zones ]

-- The client of the database, as far as `ScopeRepository` calls it: `club.findUnique` by id, and
-- `club.findMany` by `zoneId: { in: zones }`. The law is what it documents: `findMany` returns
-- exactly the rows that match, and the id of a club is its key.
pub record ClubClient : Type 0 where
  pub find_unique : String → Option ClubRow
  pub find_many : List String → List ClubRow
  pub find_many_iff :
      (id : String) (zones : List String)
      → includes id (map ClubRow.id (find_many zones)) ≡ in_zones zones (find_unique id)

-- `ClubScopeFilter`: `{ all: true }` or `{ clubIds }`.
pub data ClubScopeFilter : Type 0 where
  all_clubs : ClubScopeFilter
  club_ids : List String → ClubScopeFilter

-- `{ all: true } | { projectKeys }`
pub data ProjectFilter : Type 0 where
  all_projects : ProjectFilter
  project_keys : List String → ProjectFilter

abbrev pub scopes_for : ResolvedAccess → String → List Scope
scopes_for access permission = get_or (lookup permission access.grants) []

-- `s.type === kind && s.id`
abbrev pub has_kind_id : ScopeKind → Scope → Bool
has_kind_id kind s = kind_eq s.kind kind && truthy? s.id

-- `.filter((s) => s.type === kind && s.id).map((s) => s.id)`
unfoldable pub ids_of : ScopeKind → List Scope → List String
ids_of kind scopes = map (λ s. get_or s.id "") (keep (has_kind_id kind) scopes)

abbrev pub is_unscoped : Scope → Bool
is_unscoped s = kind_eq s.kind unscoped

unfoldable pub has_district_scope : ResolvedAccess → String → Bool
has_district_scope access permission =
    access.is_super_admin || any is_unscoped (scopes_for access permission)

unfoldable pub assert_district_scope : ResolvedAccess → String → Result (Unit {0})
assert_district_scope access permission = assert (has_district_scope access permission) forbidden

unfoldable pub can_access_project : ResolvedAccess → String → String → Bool
can_access_project access permission key =
    access.is_super_admin
    || any (λ s. is_unscoped s || (kind_eq s.kind project && is_text s.id key))
        (scopes_for access permission)

unfoldable pub assert_can_access_project : ResolvedAccess → String → String → Result (Unit {0})
assert_can_access_project access permission key =
    assert (can_access_project access permission key) not_found

unfoldable pub project_filter : ResolvedAccess → String → ProjectFilter
unfolding ids_of
project_filter access permission =
    if access.is_super_admin
    then all_projects
    else let scopes = scopes_for access permission in
      (if any is_unscoped scopes then all_projects else project_keys (ids_of project scopes))

-- `!requestedClubId` is true of `undefined` and of `""`.
unfoldable pub narrow_clubs : ClubScopeFilter → Option String → ClubScopeFilter
narrow_clubs filter none = filter
narrow_clubs all_clubs (some requested) =
    if truthy requested then club_ids (requested ∷ []) else all_clubs
narrow_clubs (club_ids ids) (some requested) =
    if truthy requested
    then club_ids (if includes requested ids then requested ∷ [] else [])
    else club_ids ids

-- `!!zoneId && zoneIds.includes(zoneId)`
abbrev pub zone_listed : List String → Option (Option String) → Bool
zone_listed zones (some (some z)) = truthy z && includes z zones
zone_listed zones _ = false

-- The last two lines of `canAccessClub`: no lookup without a zone grant.
abbrev pub zone_granted : List String → Option (Option String) → Bool
zone_granted [] found = false
zone_granted (z ∷ zones) found = zone_listed (z ∷ zones) found

-- `'all' in f`
abbrev pub is_all : ClubScopeFilter → Bool
is_all all_clubs = true
is_all (club_ids _) = false

-- `for (const f of filters) if ('clubIds' in f) for (const id of f.clubIds) clubIds.add(id)`
unfoldable pub union_ids : List ClubScopeFilter → List String → List String
union_ids [] ids = ids
union_ids (all_clubs ∷ fs) ids = union_ids fs ids
union_ids (club_ids more ∷ fs) ids = union_ids fs (set_add_all more ids)

-- `scope.repository.ts` over the client, and the methods of `ScopeService` that use it.
module _ (db : ClubClient) where
  -- `none` is `undefined` (no such club), `some none` is a club with no zone.
  unfoldable pub find_zone_id_of_club : String → Option (Option String)
  find_zone_id_of_club club_id = elim (db.find_unique club_id) [
    | none ↦ none
    | some row ↦ some row.zone_id
  ]

  unfoldable pub find_club_ids_in_zones : List String → List String
  find_club_ids_in_zones [] = []
  find_club_ids_in_zones (z ∷ zones) = map ClubRow.id (db.find_many (z ∷ zones))

  unfoldable pub can_access_club : ResolvedAccess → String → String → Bool
  unfolding ids_of find_zone_id_of_club
  can_access_club access permission club_id =
      if access.is_super_admin
      then true
      else let scopes = scopes_for access permission in
        (if any is_unscoped scopes
          then true
          else if any (λ s. kind_eq s.kind club && is_text s.id club_id) scopes
          then true
          else zone_granted (ids_of zone scopes) (find_zone_id_of_club club_id))

  unfoldable pub assert_can_access_club : ResolvedAccess → String → String → Result (Unit {0})
  assert_can_access_club access permission club_id =
      assert (can_access_club access permission club_id) not_found

  unfoldable pub club_filter : ResolvedAccess → String → ClubScopeFilter
  unfolding ids_of find_club_ids_in_zones
  club_filter access permission =
      if access.is_super_admin
      then all_clubs
      else let scopes = scopes_for access permission in
        (if any is_unscoped scopes
          then all_clubs
          else club_ids (
              set_add_all (find_club_ids_in_zones (ids_of zone scopes))
                (set_add_all (ids_of club scopes) [])))

  unfoldable pub club_filter_any : ResolvedAccess → List String → ClubScopeFilter
  unfolding union_ids
  club_filter_any access permissions =
      if access.is_super_admin
      then all_clubs
      else let filters = map (club_filter access) permissions in
        (if any is_all filters then all_clubs else club_ids (union_ids filters []))

  unfoldable pub can_access_club_any : ResolvedAccess → List String → String → Bool
  can_access_club_any access [] club_id = false
  can_access_club_any access (p ∷ permissions) club_id =
      can_access_club access p club_id || can_access_club_any access permissions club_id

  unfoldable pub assert_can_access_club_any :
      ResolvedAccess → List String → String → Result (Unit {0})
  assert_can_access_club_any access permissions club_id =
      assert (can_access_club_any access permissions club_id) not_found
