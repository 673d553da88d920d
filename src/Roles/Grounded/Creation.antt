-- ===== src/Roles/Grounded/Creation.antt =====
-- src/rbac/roles.service.ts (createUser): grants stay grounded.
use rac3011_api.Base.{
  All-map, String, ◌≡◌, refl, sym, ap, ◌∙◌, true, not, Option, none, some, [], ◌∷◌, ◌++◌, arith,
  any, any-append, is_some, eq_iff, not_found, internal, conflict, already_exists,
}
use rac3011_api.Action.{or_raise}
use rac3011_api.Action.Triples.{
  Triple, Triple-bind, Triple-seq, Triple-pure, Triple-gets, Triple-raise_if, Triple-if,
  Triple-create, Triple-transaction,
}
use rac3011_api.Effects.{audit, notify}
use rac3011_api.Roles.Types.{RoleRow, UserRow, Stores, World, CreateAdminUserInput, RolesEnv}
use rac3011_api.Roles.Service.{role_has_id, user_has_id, find_role_by_key, role_has_key}
use rac3011_api.Roles.Accounts.{
  user_has_email, insert_user, new_user, new_account, new_profile, scope_id_of_new_user,
  insert_user_rows, create_user_rows, create_user,
}
use rac3011_api.Roles.Grounded.{
  any-snoc, has_role, IsGrounded, Keeps, same, log-Keeps, pure-Keeps, gets-Keeps,
}
use rac3011_api.Roles.Grounded.Users.{any-Memᴰ, Ready, insert_grant-Founded}

module _ {S T U P A O : Type 0} (stores : Stores S T U P A O) (env : RolesEnv S T U P A) where
  module _ (role_id : String) where
    abbrev WithRole : World S T U P A O → Type 0
    WithRole w = IsGrounded stores env w × (has_role stores env role_id w.roles ≡ true)

    users_more :
        (w : World S T U P A O) (u : U) (row : UserRow)
        → stores.users.rows u ≡ stores.users.rows w.users ++ row ∷ []
        → IsGrounded stores env w
        → IsGrounded stores env (record w { users = u })
    users_more w u row rows h =
        All-map
          (λ g (r, there). (
            r,
            ap (any (user_has_id stores env g.user_id)) rows
                ∙ any-snoc (user_has_id stores env g.user_id) (stores.users.rows w.users) row there,
          ))
          (stores.user_roles.rows w.user_roles) h

    insert_user-Ready :
        (input : CreateAdminUserInput)
        → Triple WithRole
            (insert_user stores env (new_user stores env input))
            (λ user. Ready stores env role_id user.id)
            (λ w. Unit)
    insert_user-Ready input =
        let row = new_user stores env input in
        Triple-create (λ w. stores.users.create (row w.users) w.users) (λ w. row w.users)
          (λ u w. record w { users = u }) (λ w h. tt)
          (λ w u (h, r) made.
            let rows = stores.users.rows_create (row w.users) w.users u made in
            (
              users_more w u (row w.users) rows h,
              r,
              ap (any (user_has_id stores env (row w.users).id)) rows
                  ∙ ground (
                    arith,
                    any-append (user_has_id stores env (row w.users).id) (stores.users.rows w.users)
                        (row w.users ∷ []),
                    eq_iff (row w.users).id (row w.users).id,
                  ),
            ))

    insert_user_rows-Keeps :
        (actor_id : String) (input : CreateAdminUserInput) (role : RoleRow)
        → role.id ≡ role_id
        → Triple WithRole
            (insert_user_rows stores env actor_id input role)
            (λ _. IsGrounded stores env)
            (λ w. Unit)
    unfolding insert_user_rows
    insert_user_rows-Keeps actor_id input role e = Triple-bind (insert_user-Ready input) λ user.
        Triple-bind
          (Triple-create {Q = λ _. Ready stores env role_id user.id}
            (λ w.
              stores.accounts.create (new_account stores env input user.id w.accounts) w.accounts)
            (λ w. new_account stores env input user.id w.accounts)
            (λ s w. record w { accounts = s }) (λ w h. tt) (λ w s h made. h))
          λ account.
            Triple-seq
              (Triple-raise_if {P = Ready stores env role_id user.id} (λ w h. tt)
                (not (env.club_exists input.club_id)) internal)
              (Triple-bind
                (Triple-create {Q = λ _. Ready stores env role.id user.id}
                  (λ w.
                    stores.profiles.create (new_profile stores env input user.id role w.profiles)
                      w.profiles)
                  (λ w. new_profile stores env input user.id role w.profiles)
                  (λ s w. record w { profiles = s }) (λ w h. tt)
                  (λ w s (h, r, u) made. (h, ap (λ i. has_role stores env i w.roles) e ∙ r, u)))
                λ profile.
                  Triple-bind
                    (insert_grant-Founded stores env user.id role.id role.scope_type
                      (scope_id_of_new_user stores env role input) actor_id (λ w h. tt))
                    λ user_role. Triple-pure (user, user_role) (λ w h. h))

  role_by_key :
      (key : String) (found : Option RoleRow)
      → Triple
          (λ w. (found ≡ find_role_by_key stores env key w) × IsGrounded stores env w)
          (or_raise found not_found)
          (λ role. WithRole role.id)
          (λ w. Unit)
  role_by_key key none = record { after = λ w h. tt }
  role_by_key key (some role) = record {
    after = λ w (e, h). (
      h,
      any-Memᴰ (role_has_id stores env role.id) role (stores.roles.rows w.roles)
          (stores.roles.find_first_found (role_has_key stores env key) w.roles role (sym e))
          (ground (arith, eq_iff role.id role.id)),
    );
  }

  create_user_rows-Keeps :
      (actor_id : String) (input : CreateAdminUserInput)
      → Triple
          (IsGrounded stores env)
          (create_user_rows stores env actor_id input)
          (λ _. IsGrounded stores env)
          (λ w. Unit)
  unfolding create_user_rows
  create_user_rows-Keeps actor_id input =
      Triple-bind
        (Triple-gets (λ w. stores.users.find_first (user_has_email stores env input.email) w.users)
          {Q = λ _. IsGrounded stores env} (λ w h. h))
        λ existing.
          Triple-seq
            (Triple-raise_if {P = IsGrounded stores env} (λ w h. tt) (is_some existing)
              (conflict already_exists))
            (Triple-bind
              (Triple-gets (find_role_by_key stores env input.role_key)
                {Q = λ found w.
                  (found ≡ find_role_by_key stores env input.role_key w) × IsGrounded stores env w}
                (λ w h. (refl, h)))
              λ found.
                Triple-bind (role_by_key input.role_key found)
                  λ role. insert_user_rows-Keeps role.id actor_id input role refl)

  pub create_user-Keeps :
      (actor_id : String) (input : CreateAdminUserInput)
      → Keeps stores env (create_user stores env actor_id input)
  unfolding create_user
  create_user-Keeps actor_id input =
      Triple-bind
        (Triple-transaction (create_user_rows stores env actor_id input) (same stores env)
          (create_user_rows-Keeps actor_id input))
        λ created.
          Triple-seq
            (log-Keeps stores env (audit (some actor_id) "user.created" "user" (some created.0.id)))
            (Triple-bind (gets-Keeps stores env (find_role_by_key stores env input.role_key))
              λ role.
                Triple-seq
                  (Triple-if (is_some role)
                    (log-Keeps stores env (
                      notify "access-granted"
                        (record { user_id = some created.0.id; email = none } ∷ [])))
                    (pure-Keeps stores env tt))
                  (pure-Keeps stores env created))
