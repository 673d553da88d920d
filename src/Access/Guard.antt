-- ===== src/Access/Guard.antt =====
-- src/rbac/permission.guard.ts: the guard in front of every handler.
pub mod Laws
use rac3011_api.Base.{
  String, Bool, true, false, not, ◌&&◌, ◌||◌, Option, none, some, List, [], ◌∷◌, if◌then◌else◌, any,
  get_or, Result, ok, err, unauthorized, forbidden,
}
use rac3011_api.Access.Types.{Scope, ResolvedAccess, lookup}
use rac3011_api.Access.Resolver.{UserRoleGrant, from_grants}

-- What the decorators say of a handler (getAllAndOverride of the handler and its class).
pub record RouteMeta : Type 0 where
  pub is_public : Bool
  pub second_factor_stage : Bool
  pub authenticated : Bool
  pub permissions : List String

-- `SessionContext` of session-context.port.ts.
pub record Session : Type 0 where
  pub user_id : String
  pub session_id : String
  pub expires_at : Option String
  pub mfa_pending : Bool

-- `req.rac3011`
pub record RequestContext : Type 0 where
  pub user_id : String
  pub session_id : String
  pub session_expires_at : Option String
  pub access : ResolvedAccess

-- The route is open, with the context that the guard has attached to the request, if any.
pub data Admitted : Type 0 where
  anonymous : Admitted
  signed_in : RequestContext → Admitted

-- `(list ?? []).length > 0`
abbrev pub has_any : Option (List Scope) → Bool
has_any none = false
has_any (some []) = false
has_any (some (_ ∷ _)) = true

abbrev pub granted : ResolvedAccess → String → Bool
granted access p = has_any (lookup p access.grants)

-- From `const permissions = …` on: an absent and an empty list are alike.
unfoldable pub check_permissions : RouteMeta → RequestContext → List String → Result Admitted
check_permissions route ctx [] =
    if route.second_factor_stage || route.authenticated then ok (signed_in ctx) else err forbidden
check_permissions route ctx (p ∷ permissions) =
    if ctx.access.is_super_admin
    then ok (signed_in ctx)
    else if not (any (granted ctx.access) (p ∷ permissions))
    then err forbidden
    else ok (signed_in ctx)

abbrev pub context_of : Session → ResolvedAccess → RequestContext
context_of session access = record {
  user_id = session.user_id;
  session_id = session.session_id;
  session_expires_at = session.expires_at;
  access = access;
}

-- `find_grants` is `RbacRepository.findGrantsForUser`; `is_http` is `ctx.getType() === 'http'`.
module _ (find_grants : String → List UserRoleGrant) where
  unfoldable pub resolve : String → ResolvedAccess
  resolve user_id = from_grants user_id (find_grants user_id)

  unfoldable pub can_activate : Bool → RouteMeta → Option Session → Result Admitted
  unfolding resolve
  can_activate is_http route session =
      if not is_http then ok anonymous else if route.is_public then ok anonymous else elim session [
        | none ↦ err unauthorized
        | some s ↦
            if s.mfa_pending && not route.second_factor_stage
            then err unauthorized
            else check_permissions route (context_of s (resolve s.user_id)) route.permissions
      ]
