-- ===== src/Roles/Types.antt =====
-- src/rbac/rbac.repository.ts and dto/*.dto.ts: the rows that are administered, and the inputs. The ids
-- of a role's permissions stand in the role's row, for the table role_permissions.
use rac3011_api.Base.{String, Bool, false, ◌&&◌, ◌||◌, Option, none, some, List, ◌==◌, is_text}
use rac3011_api.Db.{Table}
use rac3011_api.Effects.{Effect}
use rac3011_api.Access.Types.{ScopeKind, kind_eq}

pub record RoleRow : Type 0 where
  pub id : String
  pub key : String
  pub name : String
  pub description : Option String
  pub is_system : Bool
  pub scope_type : ScopeKind
  pub permission_ids : List String

pub record UserRoleRow : Type 0 where
  pub id : String
  pub user_id : String
  pub role_id : String
  pub scope_type : ScopeKind
  pub scope_id : Option String
  pub granted_by_id : Option String

pub record UserRow : Type 0 where
  pub id : String
  pub name : String
  pub email : String

-- A member profile, without its status ('approved'), its token and its settings.
pub record ProfileRow : Type 0 where
  pub id : String
  pub user_id : String
  pub full_name : String
  pub email : String
  pub phone : Option String
  pub rotary_id : Option String
  pub club_id : String
  pub is_dac_member : Bool

pub record AccountRow : Type 0 where
  pub id : String
  pub user_id : String
  pub password : String

-- A row of another table that belongs to a user.
pub record OwnedRow : Type 0 where
  pub id : String
  pub user_id : String

-- The keys of the tables; a grant with no scope id clashes with no other.
abbrev pub same_role : RoleRow → RoleRow → Bool
same_role a b = a.id == b.id || a.key == b.key

abbrev pub same_scope_id : Option String → Option String → Bool
same_scope_id none b = false
same_scope_id (some s) b = is_text b s

abbrev pub same_user_role : UserRoleRow → UserRoleRow → Bool
same_user_role a b =
    a.id == b.id
    || (a.user_id == b.user_id
        && a.role_id == b.role_id
        && (kind_eq a.scope_type b.scope_type && same_scope_id a.scope_id b.scope_id))

abbrev pub same_user : UserRow → UserRow → Bool
same_user a b = a.id == b.id || a.email == b.email

-- The unique `qr_token` is made anew for each row, and `legacy_id` is null in the rows made here.
abbrev pub same_profile : ProfileRow → ProfileRow → Bool
same_profile a b = a.id == b.id || (a.user_id == b.user_id || a.email == b.email)

abbrev pub same_account : AccountRow → AccountRow → Bool
same_account a b = a.id == b.id

abbrev pub same_owned : OwnedRow → OwnedRow → Bool
same_owned a b = a.id == b.id

pub record Stores (S T U P A O : Type 0) : Type 0 where
  pub roles : Table S RoleRow same_role
  pub user_roles : Table T UserRoleRow same_user_role
  pub users : Table U UserRow same_user
  pub profiles : Table P ProfileRow same_profile
  pub accounts : Table A AccountRow same_account
  pub owned : Table O OwnedRow same_owned

pub record World (S T U P A O : Type 0) : Type 0 where
  pub roles : S
  pub user_roles : T
  pub users : U
  pub profiles : P
  pub accounts : A
  pub sessions : O
  pub trusted_devices : O
  pub two_factors : O
  pub announcement_reads : O
  pub push_subscriptions : O
  pub effects : List Effect

pub record CreateRoleInput : Type 0 where
  pub key : String
  pub name : String
  pub description : Option String
  pub scope_type : ScopeKind
  pub permission_keys : List String

-- An absent field is `none`.
pub record UpdateRoleInput : Type 0 where
  pub name : Option String
  pub description : Option (Option String)
  pub scope_type : Option ScopeKind
  pub permission_keys : Option (List String)

pub record CreateUserRoleInput : Type 0 where
  pub user_id : String
  pub role_id : String
  pub scope_type : ScopeKind
  pub scope_id : Option String

pub record CreateAdminUserInput : Type 0 where
  pub name : String
  pub email : String
  pub password : Option String
  pub club_id : String
  pub phone : Option String
  pub role_key : String

pub record UpdateAdminUserInput : Type 0 where
  pub name : Option String
  pub email : Option String
  pub rotary_id : Option (Option String)
  pub club_id : Option String
  pub phone : Option (Option String)
  pub password : Option String

-- The ids of the next rows, the seeded permissions, the clubs and the zones, and the hash of a password.
pub record RolesEnv (S T U P A : Type 0) : Type 0 where
  pub new_role_id : S → String
  pub new_user_role_id : T → String
  pub new_user_id : U → String
  pub new_profile_id : P → String
  pub new_account_id : A → String
  pub permission_id : String → Option String
  pub club_exists : String → Bool
  pub zone_exists : String → Bool
  pub hash_password : String → String
