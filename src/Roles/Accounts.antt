-- ===== src/Roles/Accounts.antt =====
-- src/rbac/roles.service.ts (createUser, updateUser, deleteUser) and the transactions of
-- rbac.repository.ts that they run.
use rac3011_api.Base.{
  String, Bool, not, ◌&&◌, ◌||◌, Option, none, some, ◌==◌, if◌then◌else◌, truthy?, is_some, get_or,
  opt_eq, ok, err, not_found, internal, conflict, already_exists,
}
use rac3011_api.Action.{pure, raise_if, gets, or_raise, modify, transaction, ◌>>=◌, ◌>>◌}
use rac3011_api.Effects.{audit}
use rac3011_api.Access.Types.{unscoped, club, kind_eq}
use rac3011_api.Roles.Types.{
  RoleRow, UserRoleRow, UserRow, ProfileRow, AccountRow, OwnedRow, Stores, World,
  CreateAdminUserInput, UpdateAdminUserInput, RolesEnv,
}
use rac3011_api.Roles.Service.{
  Handler, log, find_user, user_has_id, find_role_by_key, new_grant, insert_grant,
  notify_access_granted,
}

-- `a || b` on an input that may be left out.
abbrev pub or_text : Option String → String → String
or_text a b = if truthy? a then get_or a "" else b

-- `...(a ? { column: a } : {})` over a column that may be null.
abbrev pub or_null : Option String → Option String
or_null a = if truthy? a then a else none

module _ {S T U P A O : Type 0} (stores : Stores S T U P A O) (env : RolesEnv S T U P A) where
  abbrev pub user_has_email : String → UserRow → Bool
  user_has_email email r = r.email == email

  abbrev pub insert_user : (U → UserRow) → Handler stores env UserRow
  insert_user row w = elim (stores.users.create (row w.users) w.users) [
    | none ↦ (err internal, w)
    | some s ↦ (ok (row w.users), record w { users = s })
  ]

  abbrev pub insert_account : (A → AccountRow) → Handler stores env AccountRow
  insert_account row w = elim (stores.accounts.create (row w.accounts) w.accounts) [
    | none ↦ (err internal, w)
    | some s ↦ (ok (row w.accounts), record w { accounts = s })
  ]

  abbrev pub insert_profile : (P → ProfileRow) → Handler stores env ProfileRow
  insert_profile row w = elim (stores.profiles.create (row w.profiles) w.profiles) [
    | none ↦ (err internal, w)
    | some s ↦ (ok (row w.profiles), record w { profiles = s })
  ]

  abbrev pub new_user : CreateAdminUserInput → U → UserRow
  new_user input s = record { id = env.new_user_id s; name = input.name; email = input.email }

  abbrev pub new_account : CreateAdminUserInput → String → A → AccountRow
  new_account input user_id s = record {
    id = env.new_account_id s;
    user_id = user_id;
    password = env.hash_password (or_text input.password "Rac3011#2026");
  }

  abbrev pub new_profile : CreateAdminUserInput → String → RoleRow → P → ProfileRow
  new_profile input user_id role s = record {
    id = env.new_profile_id s;
    user_id = user_id;
    full_name = input.name;
    email = input.email;
    phone = or_null input.phone;
    rotary_id = none;
    club_id = input.club_id;
    is_dac_member = input.club_id == "DISTRICT" || kind_eq role.scope_type unscoped;
  }

  -- `role.scopeType === 'club' ? data.clubId : null`
  unfoldable pub scope_id_of_new_user : RoleRow → CreateAdminUserInput → Option String
  scope_id_of_new_user role input =
      if kind_eq role.scope_type club then some input.club_id else none

  -- The rows of a new user; a club that does not exist is refused by the key of the profile's club.
  unfoldable pub insert_user_rows :
      String → CreateAdminUserInput → RoleRow → Handler stores env (UserRow × UserRoleRow)
  insert_user_rows actor_id input role = do
    user ← insert_user (new_user input)
    account ← insert_account (new_account input user.id)
    raise_if (not (env.club_exists input.club_id)) internal
    profile ← insert_profile (new_profile input user.id role)
    user_role ← insert_grant stores env (
        new_grant stores env user.id role.id role.scope_type (scope_id_of_new_user role input)
          actor_id)
    pure (user, user_role)

  -- `createUserWithAccountAndRole`, in its transaction
  unfoldable pub create_user_rows :
      String → CreateAdminUserInput → Handler stores env (UserRow × UserRoleRow)
  create_user_rows actor_id input = do
    existing ← gets (λ w. stores.users.find_first (user_has_email input.email) w.users)
    raise_if (is_some existing) (conflict already_exists)
    found ← gets (find_role_by_key stores env input.role_key)
    role ← or_raise found not_found
    insert_user_rows actor_id input role

  -- The service; the role is looked up once more for the notification.
  unfoldable pub create_user :
      String → CreateAdminUserInput → Handler stores env (UserRow × UserRoleRow)
  create_user actor_id input = do
    created ← transaction (create_user_rows actor_id input)
    log stores env (audit (some actor_id) "user.created" "user" (some created.0.id))
    role ← gets (find_role_by_key stores env input.role_key)
    (if is_some role then notify_access_granted stores env created.0.id else pure tt)
    pure created

  abbrev pub changed_user : UpdateAdminUserInput → UserRow → UserRow
  changed_user input r = record r {
    name = or_text input.name r.name;
    email = or_text input.email r.email;
  }

  abbrev pub changed_profile : UpdateAdminUserInput → ProfileRow → ProfileRow
  changed_profile input r = record r {
    full_name = or_text input.name r.full_name;
    email = or_text input.email r.email;
    rotary_id = get_or input.rotary_id r.rotary_id;
    club_id = or_text input.club_id r.club_id;
    phone = get_or input.phone r.phone;
  }

  abbrev pub profile_of : String → ProfileRow → Bool
  profile_of user_id r = r.user_id == user_id

  abbrev pub profile_for : UpdateAdminUserInput → UserRow → P → ProfileRow
  profile_for input user s = record {
    id = env.new_profile_id s;
    user_id = user.id;
    full_name = or_text input.name user.name;
    email = or_text input.email user.email;
    phone = or_null (get_or input.phone none);
    rotary_id = or_null (get_or input.rotary_id none);
    club_id = or_text input.club_id "DISTRICT";
    is_dac_member = opt_eq input.club_id (some "DISTRICT");
  }

  -- `email: input.email` in a profile, if another profile has it.
  abbrev pub email_taken : UpdateAdminUserInput → UserRow → World S T U P A O → Bool
  email_taken input user w =
      truthy? input.email
      && is_some (
          stores.profiles.find_first
            (λ r. r.email == get_or input.email "" && not (profile_of user.id r)) w.profiles)

  -- A club that does not exist is refused by the key of the profile's club, and the email of another
  -- profile by the key of its email.
  unfoldable pub change_profile : UpdateAdminUserInput → UserRow → Handler stores env (Unit {0})
  change_profile input user = do
    raise_if (truthy? input.club_id && not (env.club_exists (get_or input.club_id ""))) internal
    taken ← gets (email_taken input user)
    raise_if taken internal
    modify (λ w. record w {
      profiles =
          stores.profiles.update_many (profile_of user.id) (changed_profile input) w.profiles;
    })

  unfoldable pub make_profile : UpdateAdminUserInput → UserRow → Handler stores env (Unit {0})
  make_profile input user = do
    raise_if (not (env.club_exists (or_text input.club_id "DISTRICT"))) internal
    made ← insert_profile (profile_for input user)
    pure tt

  unfoldable pub save_profile : UpdateAdminUserInput → UserRow → Handler stores env (Unit {0})
  unfolding change_profile make_profile
  save_profile input user = do
    existing ← gets (λ w. stores.profiles.find_first (profile_of user.id) w.profiles)
    if is_some existing then change_profile input user else make_profile input user

  abbrev pub account_of : String → AccountRow → Bool
  account_of user_id r = r.user_id == user_id

  -- `data.email && data.email !== existingUser.email`
  abbrev pub other_email : UpdateAdminUserInput → UserRow → Bool
  other_email input existing = truthy? input.email && not (get_or input.email "" == existing.email)

  -- `updateUserWithProfile`, in its transaction
  unfoldable pub update_user_rows : String → UpdateAdminUserInput → Handler stores env UserRow
  update_user_rows user_id input = do
    found ← gets (find_user stores env user_id)
    existing ← or_raise found not_found
    taken ← gets (λ w. stores.users.find_first (user_has_email (get_or input.email "")) w.users)
    raise_if (other_email input existing && is_some taken) (conflict already_exists)
    modify (λ w. record w {
      users =
          stores.users.update_many (user_has_id stores env user_id) (changed_user input) w.users;
    })
    (if truthy? input.password
        then modify (λ w. record w {
          accounts =
              stores.accounts.update_many (account_of user_id)
                (λ r. record r { password = env.hash_password (get_or input.password "") })
                w.accounts;
        })
        else pure tt)
    save_profile input (changed_user input existing)
    pure (changed_user input existing)

  unfoldable pub update_user : String → String → UpdateAdminUserInput → Handler stores env UserRow
  update_user actor_id user_id input = do
    user ← transaction (update_user_rows user_id input)
    log stores env (audit (some actor_id) "user.updated" "user" (some user_id))
    pure user

  abbrev pub owned_by : String → OwnedRow → Bool
  owned_by user_id r = r.user_id == user_id

  abbrev pub granted_to : String → UserRoleRow → Bool
  granted_to user_id g = g.user_id == user_id

  -- The deletions of `RbacRepository.deleteUser`.
  unfoldable pub without_user : String → World S T U P A O → World S T U P A O
  without_user user_id w = record w {
    profiles = stores.profiles.delete_many (profile_of user_id) w.profiles;
    sessions = stores.owned.delete_many (owned_by user_id) w.sessions;
    accounts = stores.accounts.delete_many (account_of user_id) w.accounts;
    user_roles = stores.user_roles.delete_many (granted_to user_id) w.user_roles;
    trusted_devices = stores.owned.delete_many (owned_by user_id) w.trusted_devices;
    two_factors = stores.owned.delete_many (owned_by user_id) w.two_factors;
    announcement_reads = stores.owned.delete_many (owned_by user_id) w.announcement_reads;
    push_subscriptions = stores.owned.delete_many (owned_by user_id) w.push_subscriptions;
    users = stores.users.delete_many (user_has_id stores env user_id) w.users;
  }

  unfoldable pub delete_user : String → String → Handler stores env (Unit {0})
  unfolding without_user
  delete_user actor_id user_id = do
    found ← gets (find_user stores env user_id)
    existing ← or_raise found not_found
    modify (without_user user_id)
    log stores env (audit (some actor_id) "user.deleted" "user" (some user_id))
