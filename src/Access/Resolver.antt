-- ===== src/Access/Resolver.antt =====
-- src/rbac/rbac-resolver.service.ts: the grants of a user's roles, resolved once for a request.
pub mod Laws
use rac3011_api.Base.{
  String, Bool, true, false, ◌&&◌, ◌||◌, Option, none, some, List, [], ◌∷◌, ◌++◌, map, ◌==◌,
  if◌then◌else◌, any, opt_eq, get_or,
}
use rac3011_api.Access.Types.{
  ScopeKind, unscoped, club, zone, project, kind_eq, Scope, RoleScope, Grants, lookup, assign,
  ResolvedAccess, permission_keys, is_permission_key,
}

-- `UserRoleGrant` of rbac.repository.ts; the scope kinds of the database are those of `ScopeKind`.
pub record UserRoleGrant : Type 0 where
  pub role_key : String
  pub scope_type : ScopeKind
  pub scope_id : Option String
  pub permission_keys : List String

to_scope_from : ScopeKind → Option String → Scope
to_scope_from unscoped id = record { kind = unscoped; id = none }
to_scope_from kind id = record { kind = kind; id = id }

unfoldable pub to_scope : UserRoleGrant → Scope
unfolding to_scope_from
to_scope row = to_scope_from row.scope_type row.scope_id

abbrev pub scope_eq : Scope → Scope → Bool
scope_eq s t = kind_eq s.kind t.kind && opt_eq s.id t.id

-- The super administrator's roles.
abbrev pub is_super_role : UserRoleGrant → Bool
is_super_role r =
    r.role_key == "super_admin" || r.role_key == "superadmin" || r.role_key == "district_admin"

-- `if (!list.some(…)) list.push(scope)`
unfoldable pub push_scope : Scope → List Scope → List Scope
push_scope scope list = if any (λ s. scope_eq s scope) list then list else list ++ scope ∷ []

-- The body of the inner loop, for one permission key of a row with the scope `scope`.
unfoldable pub grant_key : Scope → Grants → String → Grants
grant_key scope grants key =
    if is_permission_key key
    then assign key (push_scope scope (get_or (lookup key grants) [])) grants
    else grants

-- The inner loop.
unfoldable pub grant_keys : Scope → List String → Grants → Grants
grant_keys scope [] grants = grants
grant_keys scope (key ∷ keys) grants = grant_keys scope keys (grant_key scope grants key)

-- The outer loop.
unfoldable pub grant_rows : List UserRoleGrant → Grants → Grants
grant_rows [] grants = grants
grant_rows (row ∷ rows) grants =
    grant_rows rows (grant_keys (to_scope row) row.permission_keys grants)

unfoldable pub grant_all : List String → Grants → Grants
grant_all [] grants = grants
grant_all (key ∷ keys) grants =
    grant_all keys (assign key (record { kind = unscoped; id = none } ∷ []) grants)

unfoldable pub from_grants : String → List UserRoleGrant → ResolvedAccess
from_grants user_id rows =
    let super = any is_super_role rows in
    record {
      user_id = user_id;
      is_super_admin = super;
      roles = map (λ r. record { role_key = r.role_key; scope = to_scope r }) rows;
      grants = if super then grant_all permission_keys [] else grant_rows rows [];
    }
