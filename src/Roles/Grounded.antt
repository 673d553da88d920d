-- ===== src/Roles/Grounded.antt =====
-- src/rbac/roles.service.ts: every grant is of a role that exists, to a user that exists.
pub mod Users
pub mod Creation
pub mod Accounts
use rac3011_api.Base.{
  String, ◌≡◌, refl, sym, ap, ◌∙◌, Bool, true, false, not, ◌&&◌, ◌||◌, Option, none, some, List, [],
  ◌∷◌, ◌++◌, ◌==◌, arith, map, keep, any, All, All-append, All-map, All-keep, any-append,
  if◌then◌else◌, is_some, Result, HttpError, conflict, already_exists, invalid_transition, eqb,
  Option-cases, Bool-cases, inl, inr, eq_iff, not_found,
}
use rac3011_api.Action.{Action, pure, gets, modify, or_raise, raise_if, lift, ◌>>=◌, ◌>>◌}
use rac3011_api.Action.Triples.{
  Triple, Triple-bind, Triple-seq, Triple-pure, Triple-gets, Triple-modify, Triple-raise_if,
  Triple-or_raise, Triple-lift, Triple-if, Triple-create,
}
use rac3011_api.Db.{Table, count}
use rac3011_api.Effects.{Effect, audit}
use rac3011_api.Roles.Types.{
  RoleRow, UserRoleRow, UserRow, Stores, World, CreateRoleInput, UpdateRoleInput,
  CreateUserRoleInput, RolesEnv,
}
use rac3011_api.Roles.Permissions.{resolve_permission_ids}
use rac3011_api.Roles.Service.{
  Handler, log, get_role, find_role_by_key, new_role, next_permission_ids, grant_has_id,
  role_has_id, user_has_id, of_role, find_role, find_user, insert_grant, create_role, update_role,
  delete_role, grant_user_role, grant_scoped, revoke_user_role, changed_role, insert_role,
}

module _ {A : Type 0} where
  pub any-snoc :
      (p : A → Bool) (xs : List A) (x : A) → any p xs ≡ true → any p (xs ++ x ∷ []) ≡ true
  any-snoc p xs x h = ground (arith, h, any-append p xs (x ∷ []))

  -- An update that keeps a test.
  pub any-update :
      (p q : A → Bool) (f : A → A) (xs : List A)
      → ((x : A) → p (f x) ≡ p x)
      → any p (map (λ x. if q x then f x else x) xs) ≡ any p xs
  any-update p q f [] keeps = refl
  any-update p q f (x ∷ xs) keeps = elim (Bool-cases (q x)) [
    | inl here ↦ ground (arith, here, keeps x, any-update p q f xs keeps)
    | inr other ↦ ground (arith, other, any-update p q f xs keeps)
  ]

  -- A search that a deletion does not touch.
  pub any-keep_apart :
      (p q : A → Bool) (xs : List A)
      → ((x : A) → p x ≡ true → q x ≡ true)
      → any p (keep q xs) ≡ any p xs
  any-keep_apart p q [] h = refl
  any-keep_apart p q (x ∷ xs) h = elim (Bool-cases (q x)) [
    | inl kept ↦ ground (arith, kept, any-keep_apart p q xs h)
    | inr dropped ↦ elim (Bool-cases (p x)) [
      | inl here ↦ absurd (ground (arith, h x here, dropped))
      | inr other ↦ ground (arith, dropped, other, any-keep_apart p q xs h)
    ]
  ]

module _ {S T U P A O : Type 0} (stores : Stores S T U P A O) (env : RolesEnv S T U P A) where
  abbrev pub has_role : String → S → Bool
  has_role id s = any (role_has_id stores env id) (stores.roles.rows s)

  abbrev pub has_user : String → U → Bool
  has_user id s = any (user_has_id stores env id) (stores.users.rows s)

  abbrev pub Founded : S → U → UserRoleRow → Type 0
  Founded s u g = (has_role g.role_id s ≡ true) × (has_user g.user_id u ≡ true)

  -- Every grant is of a role that exists, to a user that exists.
  abbrev pub IsGrounded : World S T U P A O → Type 0
  IsGrounded w = All (Founded w.roles w.users) (stores.user_roles.rows w.user_roles)

  -- A handler that keeps all grants grounded, whether it returns or throws.
  abbrev pub Keeps : {B : Type 0} → Handler stores env B → Type 0
  Keeps m = Triple IsGrounded m (λ _. IsGrounded) IsGrounded

  pub same : (w : World S T U P A O) → IsGrounded w → IsGrounded w
  same w h = h

  pub founded_more :
      (w : World S T U P A O) (s : S)
      → ((id : String) → has_role id w.roles ≡ true → has_role id s ≡ true)
      → IsGrounded w
      → IsGrounded (record w { roles = s })
  founded_more w s more h = All-map (λ g (r, u). (more g.role_id r, u)) _ h

  insert_role-Keeps : (row : S → RoleRow) → Keeps (insert_role stores env row)
  insert_role-Keeps row =
      Triple-create (λ w. stores.roles.create (row w.roles) w.roles) (λ w. row w.roles)
        (λ s w. record w { roles = s }) same
        (λ w s h made.
          founded_more w s
            (λ id found.
              ap (any (role_has_id stores env id))
                (stores.roles.rows_create (row w.roles) w.roles s made)
              ∙ any-snoc (role_has_id stores env id) (stores.roles.rows w.roles) (row w.roles)
                  found)
            h)

  pub log-Keeps : (e : Effect) → Keeps (log stores env e)
  log-Keeps e = Triple-modify (λ w. record w { effects = w.effects ++ e ∷ [] }) same

  pub pure-Keeps : {B : Type 0} → (b : B) → Triple IsGrounded (pure b) (λ _. IsGrounded) IsGrounded
  pure-Keeps b = Triple-pure b same

  pub gets-Keeps :
      {B : Type 0}
      → (f : World S T U P A O → B) → Triple IsGrounded (gets f) (λ _. IsGrounded) IsGrounded
  gets-Keeps f = Triple-gets f same

  pub raise_if-Keeps : (b : Bool) (e : HttpError) → Keeps (raise_if b e)
  raise_if-Keeps b e = Triple-raise_if same b e

  pub or_raise-Keeps :
      {B : Type 0}
      → (o : Option B) (e : HttpError)
      → Triple IsGrounded (or_raise o e) (λ _. IsGrounded) IsGrounded
  or_raise-Keeps none e = record { after = λ w h. h }
  or_raise-Keeps (some b) e = record { after = λ w h. h }

  pub lift-Keeps :
      {B : Type 0} → (r : Result B) → Triple IsGrounded (lift r) (λ _. IsGrounded) IsGrounded
  lift-Keeps r = Triple-lift same r

  get_role-Keeps : (id : String) → Keeps (get_role stores env id)
  get_role-Keeps id =
      Triple-bind (gets-Keeps (find_role stores env id)) λ row. or_raise-Keeps row not_found

  pub create_role-Keeps :
      (actor_id : String) (input : CreateRoleInput) → Keeps (create_role stores env actor_id input)
  unfolding create_role
  create_role-Keeps actor_id input =
      Triple-bind (gets-Keeps (find_role_by_key stores env input.key)) λ existing.
        Triple-seq (raise_if-Keeps (is_some existing) (conflict already_exists)) (
          Triple-bind (lift-Keeps (resolve_permission_ids env.permission_id input.permission_keys))
            λ ids. Triple-bind (insert_role-Keeps (new_role stores env input ids)) λ role.
              Triple-seq (log-Keeps (audit (some actor_id) "role.created" "role" (some role.id)))
                (pure-Keeps role))

  founded_same_roles :
      (w : World S T U P A O) (s : S)
      → ((id : String) → has_role id s ≡ has_role id w.roles)
      → IsGrounded w
      → IsGrounded (record w { roles = s })
  founded_same_roles w s same_roles h = founded_more w s (λ id found. same_roles id ∙ found) h

  write_role-Keeps :
      (id : String) (input : UpdateRoleInput) (ids : Option (List String))
      → Keeps (
          modify (λ w. record w {
            roles =
                stores.roles.update_many
                  (role_has_id stores env id)
                  (changed_role stores env input ids)
                  w.roles;
          }))
  write_role-Keeps id input ids = record {
    after = λ w h.
        founded_same_roles w _
          (λ other.
            ap (any (role_has_id stores env other)) (
              stores.roles.rows_update_many (role_has_id stores env id)
                (changed_role stores env input ids) w.roles)
            ∙ any-update (role_has_id stores env other) (role_has_id stores env id)
                (changed_role stores env input ids) (stores.roles.rows w.roles) (λ r. refl))
          h;
  }

  next_permission_ids-Keeps :
      (input : UpdateRoleInput) → Keeps (next_permission_ids stores env input)
  next_permission_ids-Keeps input = elim (Option-cases input.permission_keys) [
    | inl absent ↦ rw absent (pure-Keeps none)
    | inr (keys, given) ↦ rw given (
        Triple-bind (lift-Keeps (resolve_permission_ids env.permission_id keys))
          λ ids. pure-Keeps (some ids))
  ]

  pub update_role-Keeps :
      (actor_id id : String) (input : UpdateRoleInput)
      → Keeps (update_role stores env actor_id id input)
  unfolding update_role
  update_role-Keeps actor_id id input = Triple-bind (get_role-Keeps id) λ before.
      Triple-bind (next_permission_ids-Keeps input) λ ids.
        Triple-seq (write_role-Keeps id input ids) (
          Triple-bind (get_role-Keeps id) λ updated.
            Triple-seq (log-Keeps (audit (some actor_id) "role.updated" "role" (some id)))
              (pure-Keeps updated))

  drop_role-Keeps :
      (id : String)
      → Keeps (
          modify (λ w. record w {
            roles = stores.roles.delete_many (role_has_id stores env id) w.roles;
            user_roles = stores.user_roles.delete_many (of_role stores env id) w.user_roles;
          }))
  drop_role-Keeps id = record { after = λ w h. dropped w h }
    where
      dropped :
          (w : World S T U P A O)
          → IsGrounded w
          → IsGrounded (record w {
            roles = stores.roles.delete_many (role_has_id stores env id) w.roles;
            user_roles = stores.user_roles.delete_many (of_role stores env id) w.user_roles;
          })
      dropped w h = rw (stores.user_roles.rows_delete_many (of_role stores env id) w.user_roles) (
          All-keep (λ g. not (of_role stores env id g))
            (λ g kept (r, u). (
              ap (any (role_has_id stores env g.role_id))
                    (stores.roles.rows_delete_many (role_has_id stores env id) w.roles)
                  ∙ any-keep_apart (role_has_id stores env g.role_id)
                      (λ r. not (role_has_id stores env id r)) (stores.roles.rows w.roles)
                      (λ r there. ground (
                        arith,
                        kept,
                        there,
                        eq_iff r.id g.role_id,
                        eq_iff r.id id,
                        eq_iff g.role_id id,
                      ))
                  ∙ r,
              u,
            ))
            _ h)

  pub delete_role-Keeps : (actor_id id : String) → Keeps (delete_role stores env actor_id id)
  unfolding delete_role
  delete_role-Keeps actor_id id = Triple-bind (get_role-Keeps id) λ role.
      Triple-seq (raise_if-Keeps role.is_system (conflict invalid_transition)) (
        Triple-bind (gets-Keeps (λ w. count stores.user_roles (of_role stores env id) w.user_roles))
          λ grants. Triple-seq (raise_if-Keeps (not (eqb grants 0)) (conflict invalid_transition)) (
            Triple-seq (drop_role-Keeps id)
              (log-Keeps (audit (some actor_id) "role.deleted" "role" (some id)))))

  pub revoke_user_role-Keeps :
      (actor_id id : String) → Keeps (revoke_user_role stores env actor_id id)
  unfolding revoke_user_role
  revoke_user_role-Keeps actor_id id =
      Triple-bind
        (gets-Keeps (λ w. stores.user_roles.find_first (grant_has_id stores env id) w.user_roles))
        λ found. Triple-bind (or_raise-Keeps found not_found) λ grant.
          Triple-seq (revoked id)
            (log-Keeps (audit (some actor_id) "user_role.revoked" "user_role" (some id)))
    where
      revoked :
          (id : String)
          → Keeps (
              modify (λ w. record w {
                user_roles =
                    stores.user_roles.delete_many (grant_has_id stores env id) w.user_roles;
              }))
      revoked id = record {
        after = λ w h.
            rw (stores.user_roles.rows_delete_many (grant_has_id stores env id) w.user_roles)
              (All-keep (λ g. not (grant_has_id stores env id g)) (λ g kept founded. founded) _ h);
      }
