-- ===== src/Roles/Grounded/Users.antt =====
-- src/rbac/roles.service.ts (grantUserRole, createUser, updateUser, deleteUser): grants stay grounded.
use mathlib.Core.List.{Memᴰ}
use rac3011_api.Base.{
  String, ◌≡◌, refl, sym, ap, ◌∙◌, Bool, true, not, Option, none, some, List, [], ◌∷◌, arith, any,
  All-append, is_some, not_found, bad_request, conflict, already_exists,
}
use rac3011_api.Action.{or_raise, raise_if}
use rac3011_api.Action.Triples.{
  Post, Triple, Triple-bind, Triple-seq, Triple-gets, Triple-raise_if, Triple-lift, Triple-create,
}
use rac3011_api.Effects.{audit, notify}
use rac3011_api.Access.Types.{ScopeKind, kind_eq}
use rac3011_api.Roles.Types.{RoleRow, UserRow, Stores, World, CreateUserRoleInput, RolesEnv}
use rac3011_api.Roles.Service.{
  role_has_id, user_has_id, find_role, find_user, get_role, new_grant, insert_grant, is_grant,
  resolve_scope_id, grant_scoped, grant_user_role,
}
use rac3011_api.Roles.Grounded.{
  has_role, has_user, Founded, IsGrounded, Keeps, log-Keeps, pure-Keeps,
}

module _ {A : Type 0} where
  pub any-Memᴰ : (p : A → Bool) (x : A) (xs : List A) → Memᴰ x xs → p x ≡ true → any p xs ≡ true
  any-Memᴰ p x [] m h = elim m [ ]
  any-Memᴰ p x (y ∷ xs) (Memᴰ.head e) h = let here : p y ≡ true = rw (← e) h in ground (arith, here)
  any-Memᴰ p x (y ∷ xs) (Memᴰ.tail m) h = ground (arith, any-Memᴰ p x xs m h)

module _ {S T U P A O : Type 0} (stores : Stores S T U P A O) (env : RolesEnv S T U P A) where
  -- The role and the user of a grant to come are there.
  abbrev pub Ready : String → String → World S T U P A O → Type 0
  Ready role_id user_id w =
      IsGrounded stores env w
      × (has_role stores env role_id w.roles ≡ true)
      × (has_user stores env user_id w.users ≡ true)

  -- A grant of a role that exists, to a user that exists.
  pub insert_grant-Founded :
      {E : World S T U P A O → Type 0}
      → (user_id role_id : String) (kind : ScopeKind) (scope_id : Option String) (actor_id : String)
      → ((w : World S T U P A O) → Ready role_id user_id w → E w)
      → Triple
          (Ready role_id user_id)
          (insert_grant stores env (new_grant stores env user_id role_id kind scope_id actor_id))
          (λ _. IsGrounded stores env)
          E
  insert_grant-Founded user_id role_id kind scope_id actor_id thrown =
      let row = new_grant stores env user_id role_id kind scope_id actor_id in
      Triple-create (λ w. stores.user_roles.create (row w.user_roles) w.user_roles)
        (λ w. row w.user_roles) (λ t w. record w { user_roles = t }) thrown
        (λ w t (h, r, u) made.
          rw (stores.user_roles.rows_create (row w.user_roles) w.user_roles t made) (
            All-append (Founded stores env w.roles w.users) (stores.user_roles.rows w.user_roles)
              (row w.user_roles ∷ []) h ((r, u), tt)))

  user_found :
      (user_id : String) (user : Option UserRow)
      → Triple
          (λ w. (user ≡ find_user stores env user_id w) × IsGrounded stores env w)
          (raise_if (not (is_some user)) not_found)
          (λ _ w. IsGrounded stores env w × (has_user stores env user_id w.users ≡ true))
          (IsGrounded stores env)
  user_found user_id none = record { after = λ w (e, h). h }
  user_found user_id (some user) = record {
    after = λ w (e, h). (
      h,
      sym (stores.users.find_first_listed (user_has_id stores env user_id) w.users)
          ∙ ap is_some (sym e),
    );
  }

  role_found :
      (user_id role_id : String)
      → Triple
          (λ w. IsGrounded stores env w × (has_user stores env user_id w.users ≡ true))
          (get_role stores env role_id)
          (λ _. Ready role_id user_id)
          (IsGrounded stores env)
  role_found user_id role_id = record {
    after = λ w (h, u). go w (find_role stores env role_id w) refl h u;
  }
    where
      go :
          (w : World S T U P A O) (o : Option RoleRow)
          → find_role stores env role_id w ≡ o
          → IsGrounded stores env w
          → has_user stores env user_id w.users ≡ true
          → Post (λ _. Ready role_id user_id) (IsGrounded stores env) (or_raise o not_found w)
      go w none e h u = h
      go w (some role) e h u = (
        h,
        sym (stores.roles.find_first_listed (role_has_id stores env role_id) w.roles)
            ∙ ap is_some e,
        u,
      )

  ready :
      (role_id user_id : String) (w : World S T U P A O)
      → Ready role_id user_id w
      → IsGrounded stores env w
  ready role_id user_id w (h, r, u) = h

  grant_scoped-Founded :
      (actor_id : String) (input : CreateUserRoleInput) (scope_id : Option String)
      → Triple
          (Ready input.role_id input.user_id)
          (grant_scoped stores env actor_id input scope_id)
          (λ _. IsGrounded stores env)
          (IsGrounded stores env)
  unfolding grant_scoped
  grant_scoped-Founded actor_id input scope_id =
      let kept = ready input.role_id input.user_id in
      Triple-bind
        (Triple-gets
          (λ w.
            stores.user_roles.find_first
              (is_grant stores env input.user_id input.role_id input.scope_type scope_id)
              w.user_roles)
          {Q = λ _. Ready input.role_id input.user_id} (λ w h. h))
        λ existing. Triple-seq (Triple-raise_if kept (is_some existing) (conflict already_exists)) (
          Triple-bind
            (insert_grant-Founded input.user_id input.role_id input.scope_type scope_id actor_id
              kept)
            λ grant.
              Triple-seq
                (log-Keeps stores env
                  (audit (some actor_id) "user_role.granted" "user_role" (some grant.id)))
                (Triple-seq
                  (log-Keeps stores env (
                    notify "access-granted"
                      (record { user_id = some input.user_id; email = none } ∷ [])))
                  (pure-Keeps stores env grant)))

  pub grant_user_role-Keeps :
      (actor_id : String) (input : CreateUserRoleInput)
      → Keeps stores env (grant_user_role stores env actor_id input)
  unfolding grant_user_role
  grant_user_role-Keeps actor_id input =
      let kept = ready input.role_id input.user_id in
      Triple-bind
        (Triple-gets (find_user stores env input.user_id)
          {Q = λ user w. (user ≡ find_user stores env input.user_id w) × IsGrounded stores env w}
          (λ w h. (refl, h)))
        λ user. Triple-seq (user_found input.user_id user) (
          Triple-bind (role_found input.user_id input.role_id) λ role.
            Triple-seq
              (Triple-raise_if kept (not (kind_eq role.scope_type input.scope_type)) bad_request)
              (Triple-bind
                (Triple-lift kept (resolve_scope_id stores env input.scope_type input.scope_id))
                λ scope_id. grant_scoped-Founded actor_id input scope_id))
