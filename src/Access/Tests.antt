-- ===== src/Access/Tests.antt =====
-- Runs of the access code on concrete roles and clubs, and instances of its theorems.
use rac3011_api.Base.{
  String, ◌≡◌, refl, ◌≢◌, true, false, not, ◌&&◌, ◌||◌, Option, none, some, List, [], ◌∷◌, map,
  arith, ◌==◌, if◌then◌else◌, any, keep, find, includes, ok, err, forbidden, unauthorized,
  not_found, eq_iff,
}
use rac3011_api.Access.Types.{unscoped, club, zone, project, ResolvedAccess, is_permission_key}
use rac3011_api.Access.Resolver.{
  UserRoleGrant, from_grants, to_scope, push_scope, grant_key, grant_keys, grant_rows, grant_all,
  is_super_role,
}
use rac3011_api.Access.Scope.{
  ClubRow, ClubClient, in_zones, club_ids, can_access_club, club_filter, can_access_club_any,
  club_filter_any, can_access_project, project_filter, assert_can_access_club,
}
use rac3011_api.Access.Scope.Laws.{allows, can_access_club-club_filter}
use rac3011_api.Access.Guard.{
  RouteMeta, Session, signed_in, context_of, resolve, check_permissions, can_activate,
}
use rac3011_api.Access.Guard.Laws.{row_lists, can_activate-permissions, can_activate-session}

run : Unit {0}
unfolding from_grants to_scope push_scope grant_key grant_keys grant_rows grant_all
    is_permission_key can_access_club club_filter can_access_club_any club_filter_any
    assert_can_access_club can_activate check_permissions project_filter can_access_project
run = tt

-- An officer of the club c1 and of the zone z2, in a role with one unknown permission.
abbrev officer : List UserRoleGrant
officer =
    record {
      role_key = "club_secretary";
      scope_type = club;
      scope_id = some "c1";
      permission_keys = "reports:submit" ∷ "no:such" ∷ [];
    }
    ∷ record {
      role_key = "zrr";
      scope_type = zone;
      scope_id = some "z2";
      permission_keys = "reports:submit" ∷ "reports:review" ∷ [];
    }
    ∷ record {
      role_key = "rcl_lead";
      scope_type = project;
      scope_id = some "rcl";
      permission_keys = "subdomain:rcl:manage" ∷ [];
    }
    ∷ []

abbrev admin : List UserRoleGrant
admin =
    record {
      role_key = "super_admin";
      scope_type = unscoped;
      scope_id = none;
      permission_keys = [];
    }
    ∷ []

abbrev access : ResolvedAccess
access = from_grants "u1" officer

-- The table of three clubs behind the client.
abbrev clubs : List ClubRow
clubs =
    record { id = "c1"; zone_id = some "z1" }
    ∷ record { id = "c2"; zone_id = some "z2" }
    ∷ record { id = "c3"; zone_id = none }
    ∷ []

abbrev find_unique : String → Option ClubRow
find_unique id = find (λ r. r.id == id) clubs

abbrev find_many : List String → List ClubRow
find_many zones = keep (λ r. in_zones zones (some r)) clubs

find_many_iff :
    (id : String) (zones : List String)
    → includes id (map ClubRow.id (find_many zones)) ≡ in_zones zones (find_unique id)
find_many_iff id zones = ground (
  arith,
  eq_iff "c1" id,
  eq_iff "c2" id,
  eq_iff "c3" id,
  eq_iff "c1" "c2",
  eq_iff "c1" "c3",
  eq_iff "c2" "c3",
)

abbrev client : ClubClient
client = record { find_unique = find_unique; find_many = find_many; find_many_iff = find_many_iff }

reaches :
    (can_access_club client access "reports:submit" "c1" ≡ true)
    × (can_access_club client access "reports:submit" "c2" ≡ true)
    × (can_access_club client access "reports:submit" "c3" ≡ false)
    × (club_filter client access "reports:submit" ≡ club_ids ("c1" ∷ "c2" ∷ []))
    × (assert_can_access_club client access "reports:review" "c1" ≡ err not_found)
unfolding run
reaches = (refl, refl, refl, refl, refl)

c2_nonempty : ◌≢◌ {A = String} "c2" ""
c2_nonempty = ground (arith, eq_iff "c2" "")

can_access_club-club_filter_example :
    can_access_club client access "reports:submit" "c2"
    ≡ allows (club_filter client access "reports:submit") "c2"
can_access_club-club_filter_example =
    can_access_club-club_filter client access "reports:submit" "c2" c2_nonempty

abbrev find_grants : String → List UserRoleGrant
find_grants user_id = if user_id == "u1" then officer else []

abbrev session : Session
session = record { user_id = "u1"; session_id = "s1"; expires_at = none; mfa_pending = false }

abbrev review : RouteMeta
review = record {
  is_public = false;
  second_factor_stage = false;
  authenticated = false;
  permissions = "reports:score" ∷ "reports:review" ∷ [];
}

guarded :
    (can_activate find_grants true review none ≡ err unauthorized)
    × (can_activate find_grants true review (some (record session { mfa_pending = true }))
        ≡ err unauthorized)
    × (can_activate find_grants true review (some (record session { user_id = "u2" }))
        ≡ err forbidden)
unfolding run
guarded = (refl, refl, refl)

can_activate-permissions_example : can_activate find_grants true review (some session) ≡ (
    if any is_super_role (find_grants "u1")
      || any (λ k. any (row_lists k) (find_grants "u1")) review.permissions
    then ok (signed_in (context_of session (resolve find_grants "u1")))
    else err forbidden)
can_activate-permissions_example =
    can_activate-permissions find_grants review session "reports:score" ("reports:review" ∷ []) refl
      refl refl

can_activate-session_example :
    (s : Session) × (some session ≡ some s)
    × ((s.mfa_pending && not review.second_factor_stage) ≡ false)
    × (signed_in (context_of session (from_grants "u1" officer))
        ≡ signed_in (context_of s (from_grants s.user_id (find_grants s.user_id))))
unfolding run
can_activate-session_example =
    can_activate-session find_grants review (some session)
      (signed_in (context_of session (from_grants "u1" officer))) refl refl
