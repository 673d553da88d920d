-- ===== src/Access/Guard/Laws.antt =====
-- What the guard lets through.
use rac3011_api.Base.{
  String, ◌≡◌, refl, ap, Bool, true, false, not, ◌&&◌, ◌||◌, Option, none, some, List, [], ◌∷◌,
  arith, if◌then◌else◌, any, get_or, Bool-cases, inl, inr, ok, err, forbidden, includes, ◌==◌,
  eq_iff,
}
use rac3011_api.Access.Types.{Grants, Scope, lookup, is_permission_key}
use rac3011_api.Access.Resolver.{
  UserRoleGrant, from_grants, to_scope, push_scope, grant_key, grant_keys, grant_rows,
  is_super_role,
}
use rac3011_api.Access.Resolver.Laws.{lookup-assign}
use rac3011_api.Access.Guard.{
  RouteMeta, Session, Admitted, signed_in, has_any, granted, check_permissions, context_of, resolve,
  can_activate,
}

-- Whether a row lists the permission `k`, and it is a known one.
abbrev pub row_lists : String → UserRoleGrant → Bool
row_lists k row = is_permission_key k && includes k row.permission_keys

has_any-push_scope :
    (scope : Scope) (list : List Scope) → has_any (some (push_scope scope list)) ≡ true
unfolding push_scope
has_any-push_scope scope [] = refl
has_any-push_scope scope (s ∷ list) = ground arith

has_any-grant_key :
    (key : String) (scope : Scope) (k : String) (g : Grants)
    → has_any (lookup k (grant_key scope g key))
      ≡ (has_any (lookup k g) || (is_permission_key key && key == k))
unfolding grant_key
has_any-grant_key key scope k g = ground (
  arith,
  lookup-assign key k (push_scope scope (get_or (lookup key g) [])) g,
  has_any-push_scope scope (get_or (lookup key g) []),
)

has_any-grant_keys :
    (keys : List String) (scope : Scope) (k : String) (g : Grants)
    → has_any (lookup k (grant_keys scope keys g))
      ≡ (has_any (lookup k g) || (is_permission_key k && includes k keys))
unfolding grant_keys
has_any-grant_keys [] scope k g = ground arith
has_any-grant_keys (key ∷ keys) scope k g = ground (
  arith,
  has_any-grant_keys keys scope k (grant_key scope g key),
  has_any-grant_key key scope k g,
  eq_iff key k,
  ap is_permission_key,
)

has_any-grant_rows :
    (rows : List UserRoleGrant) (k : String) (g : Grants)
    → has_any (lookup k (grant_rows rows g)) ≡ (has_any (lookup k g) || any (row_lists k) rows)
unfolding grant_rows
has_any-grant_rows [] k g = ground arith
has_any-grant_rows (row ∷ rows) k g = ground (
  arith,
  has_any-grant_rows rows k (grant_keys (to_scope row) row.permission_keys g),
  has_any-grant_keys row.permission_keys (to_scope row) k g,
)

any-granted :
    (user_id : String) (rows : List UserRoleGrant) (permissions : List String)
    → any is_super_role rows ≡ false
    → any (granted (from_grants user_id rows)) permissions
      ≡ any (λ k. any (row_lists k) rows) permissions
unfolding from_grants
any-granted user_id rows [] h = refl
any-granted user_id rows (p ∷ permissions) h =
    ground (arith, any-granted user_id rows permissions h, has_any-grant_rows rows p [])

from_grants-is_super_admin :
    (user_id : String) (rows : List UserRoleGrant)
    → (from_grants user_id rows).is_super_admin ≡ any is_super_role rows
unfolding from_grants
from_grants-is_super_admin user_id rows = refl

check_permissions-from_grants :
    (route : RouteMeta) (s : Session) (rows : List UserRoleGrant) (p : String) (ps : List String)
    → let ctx = context_of s (from_grants s.user_id rows) in
      check_permissions route ctx (p ∷ ps) ≡ (
        if any is_super_role rows || any (λ k. any (row_lists k) rows) (p ∷ ps)
        then ok (signed_in ctx)
        else err forbidden)
unfolding check_permissions
check_permissions-from_grants route s rows p ps = elim (Bool-cases (any is_super_role rows)) [
  | inl super ↦ ground (arith, from_grants-is_super_admin s.user_id rows)
  | inr plain ↦
      simp (from_grants-is_super_admin, plain, any-granted s.user_id rows (p ∷ ps) plain)
        (ground arith)
]

module _ (find_grants : String → List UserRoleGrant) where
  -- Behind a handler with permissions, a session past its second factor is let through, with its
  -- own context, exactly if one of its user's roles is a super administrator's or lists one of the
  -- permissions; otherwise the answer is 403.
  pub can_activate-permissions :
      (route : RouteMeta) (s : Session) (p : String) (permissions : List String)
      → route.is_public ≡ false
      → (s.mfa_pending && not route.second_factor_stage) ≡ false
      → route.permissions ≡ p ∷ permissions
      → can_activate find_grants true route (some s) ≡ (
          if any is_super_role (find_grants s.user_id)
            || any (λ k. any (row_lists k) (find_grants s.user_id)) (p ∷ permissions)
          then ok (signed_in (context_of s (resolve find_grants s.user_id)))
          else err forbidden)
  unfolding can_activate
  can_activate-permissions route s p permissions shut past listed =
      simp (shut, past, listed)
        (check_permissions-from_grants route s (find_grants s.user_id) p permissions)

  -- A handler that is not public never runs without a session, nor before the second factor unless
  -- it belongs to that stage; and the user it sees is the session's.
  pub can_activate-session :
      (route : RouteMeta) (session : Option Session) (a : Admitted)
      → route.is_public ≡ false
      → can_activate find_grants true route session ≡ ok a
      → (s : Session) × (session ≡ some s)
        × ((s.mfa_pending && not route.second_factor_stage) ≡ false)
        × (a ≡ signed_in (context_of s (from_grants s.user_id (find_grants s.user_id))))
  unfolding can_activate check_permissions
  can_activate-session route none a shut e = ground arith
  can_activate-session route (some s) a shut e = (s, refl, ground arith, ground arith)
