-- ===== src/Roles/Service.antt =====
-- src/rbac/roles.service.ts and the queries of rbac.repository.ts that it makes: roles and their grants.
use rac3011_api.Base.{
  String, Bool, true, false, not, ◌&&◌, Option, none, some, List, [], ◌∷◌, ◌++◌, ◌==◌,
  if◌then◌else◌, truthy?, is_some, get_or, opt_eq, eqb, Result, ok, err, bad_request, not_found,
  internal, conflict, already_exists, invalid_transition,
}
use rac3011_api.Action.{Action, pure, raise_if, lift, gets, or_raise, modify, ◌>>=◌, ◌>>◌}
use rac3011_api.Db.{count}
use rac3011_api.Effects.{Effect, audit, notify}
use rac3011_api.Access.Types.{ScopeKind, unscoped, club, zone, project, kind_eq}
use rac3011_api.Roles.Types.{
  RoleRow, UserRoleRow, UserRow, Stores, World, CreateRoleInput, UpdateRoleInput,
  CreateUserRoleInput, RolesEnv,
}
use rac3011_api.Roles.Permissions.{resolve_permission_ids}

module _ {S T U P A O : Type 0} (stores : Stores S T U P A O) (env : RolesEnv S T U P A) where
  abbrev pub Handler : Type 0 → Type 0
  Handler B = Action (World S T U P A O) B

  abbrev pub log : Effect → Handler (Unit {0})
  log e = modify (λ w. record w { effects = w.effects ++ e ∷ [] })

  abbrev pub role_has_id : String → RoleRow → Bool
  role_has_id id r = r.id == id

  abbrev pub role_has_key : String → RoleRow → Bool
  role_has_key key r = r.key == key

  abbrev pub user_has_id : String → UserRow → Bool
  user_has_id id r = r.id == id

  abbrev pub find_role : String → World S T U P A O → Option RoleRow
  find_role id w = stores.roles.find_first (role_has_id id) w.roles

  abbrev pub find_role_by_key : String → World S T U P A O → Option RoleRow
  find_role_by_key key w = stores.roles.find_first (role_has_key key) w.roles

  abbrev pub find_user : String → World S T U P A O → Option UserRow
  find_user id w = stores.users.find_first (user_has_id id) w.users

  abbrev pub get_role : String → Handler RoleRow
  get_role id = do row ← gets (find_role id); or_raise row not_found

  abbrev pub new_role : CreateRoleInput → List String → S → RoleRow
  new_role input permission_ids s = record {
    id = env.new_role_id s;
    key = input.key;
    name = input.name;
    description = input.description;
    is_system = false;
    scope_type = input.scope_type;
    permission_ids = permission_ids;
  }

  -- `repo.createRole`, whose error for a taken key nobody catches.
  abbrev pub insert_role : (S → RoleRow) → Handler RoleRow
  insert_role row w = elim (stores.roles.create (row w.roles) w.roles) [
    | none ↦ (err internal, w)
    | some s ↦ (ok (row w.roles), record w { roles = s })
  ]

  unfoldable pub create_role : String → CreateRoleInput → Handler RoleRow
  create_role actor_id input = do
    existing ← gets (find_role_by_key input.key)
    raise_if (is_some existing) (conflict already_exists)
    permission_ids ← lift (resolve_permission_ids env.permission_id input.permission_keys)
    role ← insert_role (new_role input permission_ids)
    log (audit (some actor_id) "role.created" "role" (some role.id))
    pure role

  abbrev pub changed_role : UpdateRoleInput → Option (List String) → RoleRow → RoleRow
  changed_role input permission_ids r = record r {
    name = get_or input.name r.name;
    description = get_or input.description r.description;
    scope_type = get_or input.scope_type r.scope_type;
    permission_ids = get_or permission_ids r.permission_ids;
  }

  abbrev pub next_permission_ids : UpdateRoleInput → Handler (Option (List String))
  next_permission_ids input = elim input.permission_keys [
    | none ↦ pure none
    | some keys ↦ do ids ← lift (resolve_permission_ids env.permission_id keys); pure (some ids)
  ]

  unfoldable pub update_role : String → String → UpdateRoleInput → Handler RoleRow
  update_role actor_id id input = do
    before ← get_role id
    permission_ids ← next_permission_ids input
    modify (λ w. record w {
      roles = stores.roles.update_many (role_has_id id) (changed_role input permission_ids) w.roles;
    })
    updated ← get_role id
    log (audit (some actor_id) "role.updated" "role" (some id))
    pure updated

  abbrev pub of_role : String → UserRoleRow → Bool
  of_role role_id g = g.role_id == role_id

  -- The grants of a role go with its row (`onDelete: Cascade`).
  unfoldable pub delete_role : String → String → Handler (Unit {0})
  delete_role actor_id id = do
    role ← get_role id
    raise_if role.is_system (conflict invalid_transition)
    grants ← gets (λ w. count stores.user_roles (of_role id) w.user_roles)
    raise_if (not (eqb grants 0)) (conflict invalid_transition)
    modify (λ w. record w {
      roles = stores.roles.delete_many (role_has_id id) w.roles;
      user_roles = stores.user_roles.delete_many (of_role id) w.user_roles;
    })
    log (audit (some actor_id) "role.deleted" "role" (some id))

  unfoldable pub scope_exists : ScopeKind → String → Bool
  scope_exists unscoped id = true
  scope_exists club id = env.club_exists id
  scope_exists zone id = env.zone_exists id
  scope_exists project id = true

  abbrev pub required_scope_id : ScopeKind → Option String → Result (Option String)
  required_scope_id kind scope_id =
      if not (truthy? scope_id)
      then err bad_request
      else if not (scope_exists kind (get_or scope_id ""))
      then err not_found
      else ok scope_id

  unfoldable pub resolve_scope_id : ScopeKind → Option String → Result (Option String)
  resolve_scope_id unscoped scope_id = if truthy? scope_id then err bad_request else ok none
  resolve_scope_id club scope_id = required_scope_id club scope_id
  resolve_scope_id zone scope_id = required_scope_id zone scope_id
  resolve_scope_id project scope_id = required_scope_id project scope_id

  -- `{ userId, roleId, scopeType, scopeId }`
  abbrev pub is_grant : String → String → ScopeKind → Option String → UserRoleRow → Bool
  is_grant user_id role_id kind scope_id g =
      (g.user_id == user_id && g.role_id == role_id)
      && (kind_eq g.scope_type kind && opt_eq g.scope_id scope_id)

  abbrev pub new_grant : String → String → ScopeKind → Option String → String → T → UserRoleRow
  new_grant user_id role_id kind scope_id actor_id t = record {
    id = env.new_user_role_id t;
    user_id = user_id;
    role_id = role_id;
    scope_type = kind;
    scope_id = scope_id;
    granted_by_id = some actor_id;
  }

  -- `repo.createUserRole`
  abbrev pub insert_grant : (T → UserRoleRow) → Handler UserRoleRow
  insert_grant row w = elim (stores.user_roles.create (row w.user_roles) w.user_roles) [
    | none ↦ (err internal, w)
    | some t ↦ (ok (row w.user_roles), record w { user_roles = t })
  ]

  -- The announcement and the mail of `notifyAccessGranted`, whose errors are dropped.
  abbrev pub notify_access_granted : String → Handler (Unit {0})
  notify_access_granted user_id =
      log (notify "access-granted" (record { user_id = some user_id; email = none } ∷ []))

  -- `grantUserRole` from the search for the same grant on.
  unfoldable pub grant_scoped : String → CreateUserRoleInput → Option String → Handler UserRoleRow
  grant_scoped actor_id input scope_id = do
    existing ← gets (λ w.
        stores.user_roles.find_first
          (is_grant input.user_id input.role_id input.scope_type scope_id) w.user_roles)
    raise_if (is_some existing) (conflict already_exists)
    grant ← insert_grant (new_grant input.user_id input.role_id input.scope_type scope_id actor_id)
    log (audit (some actor_id) "user_role.granted" "user_role" (some grant.id))
    notify_access_granted input.user_id
    pure grant

  unfoldable pub grant_user_role : String → CreateUserRoleInput → Handler UserRoleRow
  unfolding grant_scoped
  grant_user_role actor_id input = do
    user ← gets (find_user input.user_id)
    raise_if (not (is_some user)) not_found
    role ← get_role input.role_id
    raise_if (not (kind_eq role.scope_type input.scope_type)) bad_request
    scope_id ← lift (resolve_scope_id input.scope_type input.scope_id)
    grant_scoped actor_id input scope_id

  abbrev pub grant_has_id : String → UserRoleRow → Bool
  grant_has_id id g = g.id == id

  unfoldable pub revoke_user_role : String → String → Handler (Unit {0})
  revoke_user_role actor_id id = do
    found ← gets (λ w. stores.user_roles.find_first (grant_has_id id) w.user_roles)
    grant ← or_raise found not_found
    modify (λ w. record w {
      user_roles = stores.user_roles.delete_many (grant_has_id id) w.user_roles;
    })
    log (audit (some actor_id) "user_role.revoked" "user_role" (some id))
