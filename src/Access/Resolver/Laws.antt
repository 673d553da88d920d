-- ===== src/Access/Resolver/Laws.antt =====
-- What the resolved grants hold: exactly the scopes of the rows that list the permission.
use rac3011_api.Base.{
  String, ◌≡◌, refl, ◌∙◌, ap, ◌↔◌, Bool, true, false, ◌&&◌, ◌||◌, none, some, List, [], ◌∷◌, arith,
  ◌==◌, if◌then◌else◌, any, any-append, opt_eq_iff, get_or, eq_iff, Bool-cases, includes, inl, inr,
}
use rac3011_api.Access.Types.{
  ScopeKind, unscoped, club, zone, project, kind_eq, Scope, Grants, lookup, assign, permission_keys,
  is_permission_key,
}
use rac3011_api.Access.Resolver.{
  UserRoleGrant, to_scope, scope_eq, is_super_role, push_scope, grant_key, grant_keys, grant_rows,
  grant_all, from_grants,
}

pub kind_eq_iff : (a b : ScopeKind) → (kind_eq a b ≡ true) ↔ (a ≡ b)
kind_eq_iff unscoped b = ground arith
kind_eq_iff club b = ground arith
kind_eq_iff zone b = ground arith
kind_eq_iff project b = ground arith

-- Two scopes that the resolver takes for one have the same type and the same id.
pub scope_eq_iff : (s t : Scope) → (scope_eq s t ≡ true) ↔ (s ≡ t)
scope_eq_iff s t = ground (arith, kind_eq_iff s.kind t.kind, opt_eq_iff s.id t.id)

-- Whether `scope` stands under `key`.
abbrev pub holds : String → Scope → Grants → Bool
holds key scope grants = any (λ s. scope_eq s scope) (get_or (lookup key grants) [])

pub lookup-assign :
    (k j : String) (v : List Scope) (g : Grants)
    → lookup j (assign k v g) ≡ (if k == j then some v else lookup j g)
lookup-assign k j v [] = refl
lookup-assign k j v ((i, w) ∷ g) =
    ground (arith, eq_iff k j, eq_iff i k, eq_iff i j, lookup-assign k j v g)

any_scope-push_scope :
    (s scope : Scope) (list : List Scope)
    → any (λ t. scope_eq t s) (push_scope scope list)
      ≡ (any (λ t. scope_eq t s) list || scope_eq scope s)
unfolding push_scope
any_scope-push_scope s scope list = elim (Bool-cases (scope_eq scope s)) [
  | inl same ↦
      let e : scope ≡ s = (scope_eq_iff scope s).0 same in
      rw e (ground (arith, any-append (λ t. scope_eq t s) list (s ∷ []), scope_eq_iff s s))
  | inr other ↦ ground (arith, any-append (λ t. scope_eq t s) list (scope ∷ []))
]

-- One round of the inner loop adds `scope` under `key`, if that is a permission, and nothing else.
holds-grant_key :
    (key : String) (scope : Scope) (k : String) (s : Scope) (g : Grants)
    → holds k s (grant_key scope g key)
      ≡ (holds k s g || (is_permission_key key && key == k && scope_eq scope s))
unfolding grant_key
holds-grant_key key scope k s g = elim (Bool-cases (key == k)) [
  | inl same ↦
      let e : key ≡ k = (eq_iff key k).0 same in
      ground (
        arith,
        ap (λ t. lookup t g) e,
        lookup-assign key k (push_scope scope (get_or (lookup key g) [])) g,
        any_scope-push_scope s scope (get_or (lookup key g) []),
      )
  | inr other ↦ ground (arith, lookup-assign key k (push_scope scope (get_or (lookup key g) [])) g)
]

holds-grant_keys :
    (keys : List String) (scope : Scope) (k : String) (s : Scope) (g : Grants)
    → holds k s (grant_keys scope keys g)
      ≡ (holds k s g || (is_permission_key k && includes k keys && scope_eq scope s))
unfolding grant_keys
holds-grant_keys [] scope k s g = ground arith
holds-grant_keys (key ∷ keys) scope k s g = ground (
  arith,
  holds-grant_keys keys scope k s (grant_key scope g key),
  holds-grant_key key scope k s g,
  eq_iff key k,
  ap is_permission_key,
)

-- Whether a row grants the permission `k` with the scope `s`.
abbrev pub row_grants : String → Scope → UserRoleGrant → Bool
row_grants k s row =
    is_permission_key k && includes k row.permission_keys && scope_eq (to_scope row) s

holds-grant_rows :
    (rows : List UserRoleGrant) (k : String) (s : Scope) (g : Grants)
    → holds k s (grant_rows rows g) ≡ (holds k s g || any (row_grants k s) rows)
unfolding grant_rows
holds-grant_rows [] k s g = ground arith
holds-grant_rows (row ∷ rows) k s g = ground (
  arith,
  holds-grant_rows rows k s (grant_keys (to_scope row) row.permission_keys g),
  holds-grant_keys row.permission_keys (to_scope row) k s g,
)

holds-grant_all :
    (keys : List String) (k : String) (s : Scope) (g : Grants)
    → is_permission_key k ≡ true
    → holds k s (grant_all keys g) ≡ (
        if includes k keys then scope_eq (record { kind = unscoped; id = none }) s else holds k s g)
unfolding grant_all
holds-grant_all [] k s g h = refl
holds-grant_all (key ∷ keys) k s g h = ground (
  arith,
  holds-grant_all keys k s (assign key (record { kind = unscoped; id = none } ∷ []) g) h,
  lookup-assign key k (record { kind = unscoped; id = none } ∷ []) g,
)

-- The resolved grants of a user without a super administrator's role hold a scope under a permission
-- exactly if one of the user's roles lists that permission, it is a known one, and the role is
-- granted with that scope.
pub from_grants-grants :
    (user_id : String) (rows : List UserRoleGrant) (k : String) (s : Scope)
    → any is_super_role rows ≡ false
    → holds k s (from_grants user_id rows).grants ≡ any (row_grants k s) rows
unfolding from_grants
from_grants-grants user_id rows k s h = rw h (holds-grant_rows rows k s [])

-- A user with a super administrator's role holds every known permission, with the unscoped grant
-- and no other.
pub from_grants-super :
    (user_id : String) (rows : List UserRoleGrant) (k : String) (s : Scope)
    → any is_super_role rows ≡ true
    → is_permission_key k ≡ true
    → holds k s (from_grants user_id rows).grants
      ≡ scope_eq (record { kind = unscoped; id = none }) s
unfolding from_grants is_permission_key
from_grants-super user_id rows k s h p = rw h (holds-grant_all permission_keys k s [] p ∙ rw p)
