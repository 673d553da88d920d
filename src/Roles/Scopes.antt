-- ===== src/Roles/Scopes.antt =====
-- src/rbac/roles.service.ts (createUser): the scope of the grant of a new account.
use rac3011_api.Base.{
  String, ◌≡◌, refl, sym, ap, ◌∙◌, Bool, true, not, ◌||◌, Option, none, some, arith, is_some,
  if◌then◌else◌, Result, ok, err, bad_request, not_found, internal, conflict, already_exists, [],
  ◌∷◌, ◌++◌,
}
use rac3011_api.Action.{or_raise}
use rac3011_api.Action.Triples.{
  Post, Triple, Triple-bind, Triple-seq, Triple-pure, Triple-gets, Triple-modify, Triple-raise_if,
  Triple-if, Triple-create, Triple-transaction,
}
use rac3011_api.Effects.{audit, notify}
use rac3011_api.Access.Types.{ScopeKind, unscoped, club, zone, project, kind_eq}
use rac3011_api.Roles.Types.{
  RoleRow, UserRoleRow, UserRow, Stores, World, CreateAdminUserInput, RolesEnv,
}
use rac3011_api.Roles.Service.{find_role_by_key, new_grant, resolve_scope_id}
use rac3011_api.Roles.Accounts.{
  user_has_email, new_user, new_account, new_profile, scope_id_of_new_user, insert_user_rows,
  create_user_rows, create_user,
}

-- The kinds of scope, other than a club, that need an id.
abbrev pub needs_other_id : ScopeKind → Bool
needs_other_id kind = kind_eq kind zone || kind_eq kind project

module _ {S T U P A O : Type 0} (stores : Stores S T U P A O) (env : RolesEnv S T U P A)
    (actor_id : String) (input : CreateAdminUserInput) (role : RoleRow) where
  abbrev Always : World S T U P A O → Type 0
  Always w = Unit

  -- The grant has the kind of the role, and the club's id if that is a club.
  abbrev OfRole : UserRow × UserRoleRow → World S T U P A O → Type 0
  OfRole (user, grant) w =
      (grant.scope_type ≡ role.scope_type)
      × (grant.scope_id ≡ scope_id_of_new_user stores env role input)

  insert_user_rows-OfRole :
      Triple Always (insert_user_rows stores env actor_id input role) OfRole Always
  unfolding insert_user_rows
  insert_user_rows-OfRole =
      Triple-bind
        (Triple-create {Q = λ _. Always}
          (λ w. stores.users.create (new_user stores env input w.users) w.users)
          (λ w. new_user stores env input w.users) (λ s w. record w { users = s }) (λ w h. tt)
          (λ w s h made. tt))
        λ user.
          Triple-bind
            (Triple-create {Q = λ _. Always}
              (λ w.
                stores.accounts.create (new_account stores env input user.id w.accounts) w.accounts)
              (λ w. new_account stores env input user.id w.accounts)
              (λ s w. record w { accounts = s }) (λ w h. tt) (λ w s h made. tt))
            λ account.
              Triple-seq
                (Triple-raise_if {P = Always} (λ w h. tt) (not (env.club_exists input.club_id))
                  internal)
                (Triple-bind
                  (Triple-create {Q = λ _. Always}
                    (λ w.
                      stores.profiles.create (new_profile stores env input user.id role w.profiles)
                        w.profiles)
                    (λ w. new_profile stores env input user.id role w.profiles)
                    (λ s w. record w { profiles = s }) (λ w h. tt) (λ w s h made. tt))
                  λ profile.
                    Triple-bind
                      (Triple-create {Q = λ grant. OfRole (user, grant)}
                        (λ w.
                          stores.user_roles.create
                            (new_grant stores env user.id role.id role.scope_type
                              (scope_id_of_new_user stores env role input) actor_id w.user_roles)
                            w.user_roles)
                        (λ w.
                          new_grant stores env user.id role.id role.scope_type
                            (scope_id_of_new_user stores env role input) actor_id w.user_roles)
                        (λ t w. record w { user_roles = t }) (λ w h. tt)
                        (λ w s h made. (refl, refl)))
                      λ user_role. Triple-pure (user, user_role) (λ w h. h))

  abbrev Found : World S T U P A O → Type 0
  Found w = find_role_by_key stores env input.role_key w ≡ some role

  the_role :
      (o : Option RoleRow)
      → Triple (λ w. o ≡ some role) (or_raise o not_found) (λ r w. r ≡ role) Always
  the_role none = record { after = λ w e. tt }
  the_role (some r) = record { after = λ w e. ground arith }

  create_user_rows-OfRole : Triple Found (create_user_rows stores env actor_id input) OfRole Always
  unfolding create_user_rows
  create_user_rows-OfRole =
      Triple-bind
        (Triple-gets (λ w. stores.users.find_first (user_has_email stores env input.email) w.users)
          {Q = λ _. Found} (λ w h. h))
        λ existing.
          Triple-seq
            (Triple-raise_if {P = Found} (λ w h. tt) (is_some existing) (conflict already_exists))
            (Triple-bind
              (Triple-gets (find_role_by_key stores env input.role_key)
                {Q = λ found w. found ≡ some role} (λ w h. h))
              λ found. Triple-bind (the_role found) with_role)
    where
      with_role :
          (r : RoleRow)
          → Triple (λ w. r ≡ role) (insert_user_rows stores env actor_id input r) OfRole Always
      with_role r = record { after = λ w e. rw e (insert_user_rows-OfRole.after w tt) }

  create_user-OfRole : Triple Found (create_user stores env actor_id input) OfRole Always
  unfolding create_user
  create_user-OfRole =
      Triple-bind
        (Triple-transaction (create_user_rows stores env actor_id input) (λ w h. tt)
          create_user_rows-OfRole)
        λ created.
          Triple-seq
            (Triple-modify
              (λ w. record w {
                effects =
                    w.effects
                    ++ audit (some actor_id) "user.created" "user" (some created.0.id) ∷ [];
              })
              {Q = OfRole created} (λ w h. h))
            (Triple-bind
              (Triple-gets (find_role_by_key stores env input.role_key) {Q = λ _. OfRole created}
                (λ w h. h))
              λ again.
                Triple-seq
                  (Triple-if (is_some again)
                    (Triple-modify
                      (λ w. record w {
                        effects =
                            w.effects
                            ++ notify "access-granted"
                                (record { user_id = some created.0.id; email = none } ∷ [])
                              ∷ [];
                      })
                      {Q = OfRole created} (λ w h. h))
                    (Triple-pure tt (λ w h. h)))
                  (Triple-pure created (λ w h. h)))

  -- A grant that `grantUserRole` would not make: its scope id does not fit its kind.
  abbrev pub UnfitGrant : Result (UserRow × UserRoleRow) → Type 0
  UnfitGrant (ok (user, grant)) =
      (grant.scope_type ≡ role.scope_type)
      × (resolve_scope_id stores env grant.scope_type grant.scope_id ≡ err bad_request)
  UnfitGrant (err e) = Unit

  no_id :
      (kind : ScopeKind) (scope_id : Option String)
      → needs_other_id kind ≡ true
      → scope_id ≡ (if kind_eq kind club then some input.club_id else none)
      → resolve_scope_id stores env kind scope_id ≡ err bad_request
  unfolding resolve_scope_id
  no_id unscoped scope_id h e = absurd (ground arith)
  no_id club scope_id h e = absurd (ground arith)
  no_id zone scope_id h e = ground (arith, e)
  no_id project scope_id h e = ground (arith, e)

  unfit :
      (r : Result (UserRow × UserRoleRow)) (w' : World S T U P A O)
      → needs_other_id role.scope_type ≡ true
      → Post OfRole Always (r, w')
      → UnfitGrant r
  unfolding scope_id_of_new_user
  unfit (err e) w' kind h = tt
  unfit (ok (user, grant)) w' kind (same_kind, id) = (
    same_kind,
    no_id grant.scope_type grant.scope_id (ap needs_other_id same_kind ∙ kind)
        (id ∙ ap (λ k. if kind_eq k club then some input.club_id else none) (sym same_kind)),
  )

  -- An account that is created with the role of a zone or of a project gets a grant of that kind with
  -- no scope id, which the granting of roles refuses as a bad request.
  pub create_user-UnfitGrant :
      (w : World S T U P A O)
      → find_role_by_key stores env input.role_key w ≡ some role
      → needs_other_id role.scope_type ≡ true
      → UnfitGrant (create_user stores env actor_id input w).0
  create_user-UnfitGrant w found kind =
      unfit (create_user stores env actor_id input w).0 (create_user stores env actor_id input w).1
        kind (create_user-OfRole.after w found)
