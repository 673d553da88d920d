-- ===== src/Roles/Grounded/Accounts.antt =====
-- src/rbac/roles.service.ts (updateUser, deleteUser): grants stay grounded.
use rac3011_api.Base.{
  All-map, All-keep, String, refl, ap, ◌∙◌, not, ◌&&◌, Option, none, some, arith, any, is_some,
  truthy?, get_or, eq_iff, not_found, internal, conflict, already_exists,
}
use rac3011_api.Action.{or_raise}
use rac3011_api.Action.Triples.{
  Triple, Triple-bind, Triple-seq, Triple-pure, Triple-gets, Triple-modify, Triple-raise_if,
  Triple-if, Triple-create, Triple-transaction,
}
use rac3011_api.Effects.{audit}
use rac3011_api.Roles.Types.{UserRow, Stores, World, UpdateAdminUserInput, RolesEnv}
use rac3011_api.Roles.Service.{user_has_id, find_user}
use rac3011_api.Roles.Accounts.{
  user_has_email, granted_to, without_user, delete_user, account_of, profile_of, changed_user,
  changed_profile, email_taken, profile_for, change_profile, make_profile, save_profile,
  other_email, update_user_rows, update_user, or_text,
}
use rac3011_api.Roles.Grounded.{
  any-update, any-keep_apart, IsGrounded, Keeps, same, log-Keeps, pure-Keeps, gets-Keeps,
  or_raise-Keeps,
}

module _ {S T U P A O : Type 0} (stores : Stores S T U P A O) (env : RolesEnv S T U P A) where
  users_without :
      (user_id : String) (w : World S T U P A O)
      → IsGrounded stores env w
      → IsGrounded stores env (without_user stores env user_id w)
  unfolding without_user
  users_without user_id w h =
      rw (stores.user_roles.rows_delete_many (granted_to stores env user_id) w.user_roles) (
        All-keep (λ g. not (granted_to stores env user_id g))
          (λ g kept (r, u). (
            r,
            ap (any (user_has_id stores env g.user_id))
                  (stores.users.rows_delete_many (user_has_id stores env user_id) w.users)
                ∙ any-keep_apart (user_has_id stores env g.user_id)
                    (λ x. not (user_has_id stores env user_id x)) (stores.users.rows w.users)
                    (λ x there. ground (
                      arith,
                      kept,
                      there,
                      eq_iff x.id g.user_id,
                      eq_iff x.id user_id,
                      eq_iff g.user_id user_id,
                    ))
                ∙ u,
          ))
          (stores.user_roles.rows w.user_roles) h)

  pub delete_user-Keeps :
      (actor_id user_id : String) → Keeps stores env (delete_user stores env actor_id user_id)
  unfolding delete_user
  delete_user-Keeps actor_id user_id =
      Triple-bind (gets-Keeps stores env (find_user stores env user_id)) λ found.
        Triple-bind (or_raise-Keeps stores env found not_found) λ existing.
          Triple-seq (Triple-modify (without_user stores env user_id) (users_without user_id))
            (log-Keeps stores env (audit (some actor_id) "user.deleted" "user" (some user_id)))

  change_profile-Written :
      (input : UpdateAdminUserInput) (user : UserRow)
      → Triple
          (IsGrounded stores env)
          (change_profile stores env input user)
          (λ _. IsGrounded stores env)
          (λ w. Unit)
  unfolding change_profile
  change_profile-Written input user =
      Triple-seq
        (Triple-raise_if {P = IsGrounded stores env} (λ w h. tt)
          (truthy? input.club_id && not (env.club_exists (get_or input.club_id ""))) internal)
        (Triple-bind
          (Triple-gets (email_taken stores env input user) {Q = λ _. IsGrounded stores env}
            (λ w h. h))
          λ taken.
            Triple-seq (Triple-raise_if {P = IsGrounded stores env} (λ w h. tt) taken internal) (
              Triple-modify
                (λ w. record w {
                  profiles =
                      stores.profiles.update_many (profile_of stores env user.id)
                        (changed_profile stores env input) w.profiles;
                })
                (λ w h. h)))

  make_profile-Written :
      (input : UpdateAdminUserInput) (user : UserRow)
      → Triple
          (IsGrounded stores env)
          (make_profile stores env input user)
          (λ _. IsGrounded stores env)
          (λ w. Unit)
  unfolding make_profile
  make_profile-Written input user =
      Triple-seq
        (Triple-raise_if {P = IsGrounded stores env} (λ w h. tt)
          (not (env.club_exists (or_text input.club_id "DISTRICT"))) internal)
        (Triple-bind
          (Triple-create {Q = λ _. IsGrounded stores env}
            (λ w. stores.profiles.create (profile_for stores env input user w.profiles) w.profiles)
            (λ w. profile_for stores env input user w.profiles) (λ s w. record w { profiles = s })
            (λ w h. tt) (λ w s h made. h))
          λ made. Triple-pure tt (λ w h. h))

  save_profile-Written :
      (input : UpdateAdminUserInput) (user : UserRow)
      → Triple
          (IsGrounded stores env)
          (save_profile stores env input user)
          (λ _. IsGrounded stores env)
          (λ w. Unit)
  unfolding save_profile
  save_profile-Written input user =
      Triple-bind
        (Triple-gets (λ w. stores.profiles.find_first (profile_of stores env user.id) w.profiles)
          {Q = λ _. IsGrounded stores env} (λ w h. h))
        λ existing.
          Triple-if (is_some existing) (change_profile-Written input user)
            (make_profile-Written input user)

  write_user :
      (user_id : String) (input : UpdateAdminUserInput) (w : World S T U P A O)
      → IsGrounded stores env w
      → IsGrounded stores env (record w {
        users =
            stores.users.update_many
              (user_has_id stores env user_id)
              (changed_user stores env input)
              w.users;
      })
  write_user user_id input w h =
      All-map
        (λ g (r, u). (
          r,
          ap (any (user_has_id stores env g.user_id)) (
                stores.users.rows_update_many (user_has_id stores env user_id)
                  (changed_user stores env input) w.users)
              ∙ any-update (user_has_id stores env g.user_id) (user_has_id stores env user_id)
                  (changed_user stores env input) (stores.users.rows w.users) (λ x. refl)
              ∙ u,
        ))
        (stores.user_roles.rows w.user_roles) h

  update_user_rows-Written :
      (user_id : String) (input : UpdateAdminUserInput)
      → Triple
          (IsGrounded stores env)
          (update_user_rows stores env user_id input)
          (λ _. IsGrounded stores env)
          (λ w. Unit)
  unfolding update_user_rows
  update_user_rows-Written user_id input =
      Triple-bind
        (Triple-gets (find_user stores env user_id) {Q = λ _. IsGrounded stores env} (λ w h. h))
        λ found. Triple-bind (found_user found) λ existing.
          Triple-bind
            (Triple-gets
              (λ w.
                stores.users.find_first (user_has_email stores env (get_or input.email "")) w.users)
              {Q = λ _. IsGrounded stores env} (λ w h. h))
            λ taken.
              Triple-seq
                (Triple-raise_if {P = IsGrounded stores env} (λ w h. tt)
                  (other_email stores env input existing && is_some taken)
                  (conflict already_exists))
                (Triple-seq
                  (Triple-modify
                    (λ w. record w {
                      users =
                          stores.users.update_many (user_has_id stores env user_id)
                            (changed_user stores env input) w.users;
                    })
                    (write_user user_id input))
                  (Triple-seq
                    (Triple-if (truthy? input.password)
                      (Triple-modify
                        (λ w. record w {
                          accounts =
                              stores.accounts.update_many (account_of stores env user_id)
                                (λ r. record r {
                                  password = env.hash_password (get_or input.password "");
                                })
                                w.accounts;
                        })
                        {Q = IsGrounded stores env} (λ w h. h))
                      (Triple-pure tt (λ w h. h)))
                    (Triple-seq
                      (save_profile-Written input (changed_user stores env input existing))
                      (Triple-pure (changed_user stores env input existing) (λ w h. h)))))
    where
      found_user :
          (o : Option UserRow)
          → Triple
              (IsGrounded stores env)
              (or_raise o not_found)
              (λ _. IsGrounded stores env)
              (λ w. Unit)
      found_user none = record { after = λ w h. tt }
      found_user (some u) = record { after = λ w h. h }

  pub update_user-Keeps :
      (actor_id user_id : String) (input : UpdateAdminUserInput)
      → Keeps stores env (update_user stores env actor_id user_id input)
  unfolding update_user
  update_user-Keeps actor_id user_id input =
      Triple-bind
        (Triple-transaction (update_user_rows stores env user_id input) (same stores env)
          (update_user_rows-Written user_id input))
        λ user.
          Triple-seq
            (log-Keeps stores env (audit (some actor_id) "user.updated" "user" (some user_id)))
            (pure-Keeps stores env user)
