-- ===== src/Roles/Tests.antt =====
-- Runs of the administration of roles on concrete tables, and instances of its theorems.
use rac3011_api.Base.{
  ◌≡◌, refl, true, false, none, some, List, [], ◌∷◌, ◌==◌, if◌then◌else◌, ok, err, bad_request,
  not_found, conflict, already_exists, invalid_transition,
}
use rac3011_api.Db.ListTable.{list_table}
use rac3011_api.Access.Types.{club, zone, is_permission_key}
use rac3011_api.Roles.Types.{
  RoleRow, UserRoleRow, UserRow, ProfileRow, AccountRow, OwnedRow, Stores, World,
  CreateUserRoleInput, CreateAdminUserInput, RolesEnv, same_role, same_user_role, same_user,
  same_profile, same_account, same_owned,
}
use rac3011_api.Roles.Permissions.{resolve_permission_ids}
use rac3011_api.Roles.Service.{
  create_role, update_role, delete_role, scope_exists, resolve_scope_id, grant_scoped,
  grant_user_role, revoke_user_role,
}
use rac3011_api.Roles.Accounts.{
  scope_id_of_new_user, insert_user_rows, create_user_rows, create_user, without_user, delete_user,
}
use rac3011_api.Roles.Grounded.{IsGrounded}
use rac3011_api.Roles.Administration.{here, next, granted, user_deleted, Reach-IsGrounded}
use rac3011_api.Roles.Grants
use rac3011_api.Roles.Grants.{grant_user_role-GrantOutcome}
use rac3011_api.Roles.Scopes
use rac3011_api.Roles.Scopes.{create_user-UnfitGrant}

run : Unit {0}
unfolding is_permission_key resolve_permission_ids create_role update_role delete_role scope_exists
    resolve_scope_id grant_scoped grant_user_role revoke_user_role scope_id_of_new_user
    insert_user_rows create_user_rows create_user without_user delete_user
run = tt

abbrev stores :
    Stores
      (List RoleRow)
      (List UserRoleRow)
      (List UserRow)
      (List ProfileRow)
      (List AccountRow)
      (List OwnedRow)
stores = record {
  roles = list_table same_role;
  user_roles = list_table same_user_role;
  users = list_table same_user;
  profiles = list_table same_profile;
  accounts = list_table same_account;
  owned = list_table same_owned;
}

abbrev env :
    RolesEnv (List RoleRow) (List UserRoleRow) (List UserRow) (List ProfileRow) (List AccountRow)
env = record {
  new_role_id = λ s. "r9";
  new_user_role_id = λ t. "g9";
  new_user_id = λ u. "u9";
  new_profile_id = λ p. "p9";
  new_account_id = λ a. "a9";
  permission_id = λ key. if key == "reports:review" then some "perm1" else none;
  club_exists = λ id. id == "c1";
  zone_exists = λ id. id == "z1";
  hash_password = λ s. s;
}

abbrev president : RoleRow
president = record {
  id = "r1";
  key = "president";
  name = "President";
  description = none;
  is_system = true;
  scope_type = club;
  permission_ids = "perm1" ∷ [];
}

abbrev zone_officer : RoleRow
zone_officer = record president {
  id = "r2";
  key = "zrr";
  name = "Zone officer";
  is_system = false;
  scope_type = zone;
}

abbrev ann : UserRow
ann = record { id = "u1"; name = "Ann"; email = "ann@x" }

abbrev world :
    World
      (List RoleRow)
      (List UserRoleRow)
      (List UserRow)
      (List ProfileRow)
      (List AccountRow)
      (List OwnedRow)
world = record {
  roles = president ∷ zone_officer ∷ [];
  user_roles = [];
  users = ann ∷ [];
  profiles = [];
  accounts = [];
  sessions = record { id = "s1"; user_id = "u1" } ∷ [];
  trusted_devices = [];
  two_factors = [];
  announcement_reads = [];
  push_subscriptions = [];
  effects = [];
}

abbrev input : CreateUserRoleInput
input = record { user_id = "u1"; role_id = "r1"; scope_type = club; scope_id = some "c1" }

abbrev grant : UserRoleRow
grant = record {
  id = "g9";
  user_id = "u1";
  role_id = "r1";
  scope_type = club;
  scope_id = some "c1";
  granted_by_id = some "admin";
}

grants :
    ((grant_user_role stores env "admin" input world).0 ≡ ok grant)
    × ((grant_user_role stores env "admin" input
          (grant_user_role stores env "admin" input world).1).0
        ≡ err (conflict already_exists))
    × ((grant_user_role stores env "admin" (record input { scope_id = some "c2" }) world).0
        ≡ err not_found)
    × ((grant_user_role stores env "admin" (record input { scope_id = none }) world).0
        ≡ err bad_request)
    × ((delete_role stores env "admin" "r1" world).0 ≡ err (conflict invalid_transition))
unfolding run
grants = (refl, refl, refl, refl, refl)

permissions :
    (resolve_permission_ids env.permission_id ("reports:review" ∷ "reports:review" ∷ [])
      ≡ ok ("perm1" ∷ []))
    × (resolve_permission_ids env.permission_id ("reports:rewiew" ∷ []) ≡ err bad_request)
unfolding run
permissions = (refl, refl)

grant_user_role-GrantOutcome_example :
    let (result, w') = grant_user_role stores env "admin" input world in
    Grants.GrantOutcome stores env "admin" input world result w'
grant_user_role-GrantOutcome_example = grant_user_role-GrantOutcome stores env "admin" input world

-- The user is deleted after the grant.
Reach-IsGrounded_example :
    IsGrounded stores env
      (delete_user stores env "admin" "u1" (grant_user_role stores env "admin" input world).1).1
Reach-IsGrounded_example =
    Reach-IsGrounded stores env
      (next (next here (granted world "admin" input))
        (user_deleted (grant_user_role stores env "admin" input world).1 "admin" "u1"))
      tt

abbrev account : CreateAdminUserInput
account = record {
  name = "Bob";
  email = "bob@x";
  password = none;
  club_id = "c1";
  phone = none;
  role_key = "zrr";
}

zone_account :
    (create_user stores env "admin" account world).0
    ≡ ok (
      record { id = "u9"; name = "Bob"; email = "bob@x" },
      record {
        id = "g9";
        user_id = "u9";
        role_id = "r2";
        scope_type = zone;
        scope_id = none;
        granted_by_id = some "admin";
      },
    )
unfolding run
zone_account = refl

create_user-UnfitGrant_example :
    Scopes.UnfitGrant stores env "admin" account zone_officer
      (create_user stores env "admin" account world).0
create_user-UnfitGrant_example =
    create_user-UnfitGrant stores env "admin" account zone_officer world refl refl
