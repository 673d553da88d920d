-- ===== src/Roles/Grants.antt =====
-- src/rbac/roles.service.ts (grantUserRole): what the granting of a role comes to.
use mathlib.Core.List.{append_assoc}
use rac3011_api.Base.{
  String, ◌≡◌, refl, ◌∙◌, sym, Bool, true, false, Option, none, some, List, [], ◌∷◌, ◌++◌, arith,
  any, is_some, ◌&&◌, ◌==◌, truthy?, get_or, opt_eq, Result, Result-cases, ok, err, HttpError,
  bad_request, not_found, internal, conflict, already_exists, Bool-cases, Option-cases, inl, inr,
}
use rac3011_api.Effects.{Effect, audit, notify}
use rac3011_api.Access.Types.{ScopeKind, unscoped, club, zone, project, kind_eq}
use rac3011_api.Access.Resolver.Laws.{kind_eq_iff}
use rac3011_api.Roles.Types.{RoleRow, UserRoleRow, Stores, World, CreateUserRoleInput, RolesEnv}
use rac3011_api.Roles.Service.{
  find_role, find_user, is_grant, new_grant, scope_exists, resolve_scope_id, grant_scoped,
  grant_user_role,
}

module _ {S T U P A O : Type 0} (stores : Stores S T U P A O) (env : RolesEnv S T U P A)
    (actor_id : String) (input : CreateUserRoleInput) where
  abbrev pub grant_effects : UserRoleRow → List Effect
  grant_effects grant =
      audit (some actor_id) "user_role.granted" "user_role" (some grant.id)
      ∷ notify "access-granted" (record { user_id = some input.user_id; email = none } ∷ [])
      ∷ []

  -- No scope id for an unscoped role; else the given one, of a club or a zone that exists.
  abbrev pub ScopeFits : ScopeKind → Option String → Option String → Type 0
  ScopeFits unscoped given scope_id = (truthy? given ≡ false) × (scope_id ≡ none)
  ScopeFits club given scope_id =
      (truthy? given ≡ true) × (env.club_exists (get_or given "") ≡ true) × (scope_id ≡ given)
  ScopeFits zone given scope_id =
      (truthy? given ≡ true) × (env.zone_exists (get_or given "") ≡ true) × (scope_id ≡ given)
  ScopeFits project given scope_id = (truthy? given ≡ true) × (scope_id ≡ given)

  resolve_scope_id-ScopeFits :
      (kind : ScopeKind) (given scope_id : Option String)
      → resolve_scope_id stores env kind given ≡ ok scope_id
      → ScopeFits kind given scope_id
  unfolding resolve_scope_id scope_exists
  resolve_scope_id-ScopeFits unscoped given scope_id h = elim (Bool-cases (truthy? given)) [
    | inl t ↦ absurd (ground (arith, t, h))
    | inr f ↦ (f, ground (arith, f, h))
  ]
  resolve_scope_id-ScopeFits project given scope_id h = elim (Bool-cases (truthy? given)) [
    | inl t ↦ (t, ground (arith, t, h))
    | inr f ↦ absurd (ground (arith, f, h))
  ]
  resolve_scope_id-ScopeFits club given scope_id h = elim (Bool-cases (truthy? given)) [
    | inl t ↦ elim (Bool-cases (env.club_exists (get_or given ""))) [
      | inl there ↦ (t, there, ground (arith, t, there, h))
      | inr missing ↦ absurd (ground (arith, t, missing, h))
    ]
    | inr f ↦ absurd (ground (arith, f, h))
  ]
  resolve_scope_id-ScopeFits zone given scope_id h = elim (Bool-cases (truthy? given)) [
    | inl t ↦ elim (Bool-cases (env.zone_exists (get_or given ""))) [
      | inl there ↦ (t, there, ground (arith, t, there, h))
      | inr missing ↦ absurd (ground (arith, t, missing, h))
    ]
    | inr f ↦ absurd (ground (arith, f, h))
  ]

  -- What has happened when `grant` is returned.
  pub record Granted (w : World S T U P A O) (grant : UserRoleRow) (w' : World S T U P A O)
      : Type 0 where
    pub user_there : is_some (stores.users.find_first (λ u. u.id == input.user_id) w.users) ≡ true
    pub role : RoleRow
    pub role_there : stores.roles.find_first (λ r. r.id == input.role_id) w.roles ≡ some role
    pub kind_of_role : role.scope_type ≡ input.scope_type
    pub scope_id : Option String
    pub scope_id_fits : ScopeFits input.scope_type input.scope_id scope_id
    pub not_granted :
        any
          (λ g.
            (g.user_id == input.user_id && g.role_id == input.role_id)
            && (kind_eq g.scope_type input.scope_type && opt_eq g.scope_id scope_id))
          (stores.user_roles.rows w.user_roles)
        ≡ false
    pub grant_is : grant ≡ record {
      id = env.new_user_role_id w.user_roles;
      user_id = input.user_id;
      role_id = input.role_id;
      scope_type = input.scope_type;
      scope_id = scope_id;
      granted_by_id = some actor_id;
    }
    pub rows :
        stores.user_roles.rows w'.user_roles ≡ stores.user_roles.rows w.user_roles ++ grant ∷ []
    pub rest :
        w' ≡ record w { user_roles = w'.user_roles; effects = w.effects ++ grant_effects grant }

  abbrev pub GrantOutcome : World S T U P A O → Result UserRoleRow → World S T U P A O → Type 0
  GrantOutcome w (ok grant) w' = Granted w grant w'
  GrantOutcome w (err e) w' = w' ≡ w

  of_result :
      (w w' : World S T U P A O) (result : Result UserRoleRow)
      (r : Result UserRoleRow × World S T U P A O)
      → r ≡ (result, w')
      → GrantOutcome w result w'
      → GrantOutcome w r.0 r.1
  of_result w w' result r e h = rw e h

  module _ (w : World S T U P A O) where
    abbrev handled : Result UserRoleRow × World S T U P A O
    handled = grant_user_role stores env actor_id input w

    grant-no_user :
        is_some (find_user stores env input.user_id w) ≡ false → handled ≡ (err not_found, w)
    unfolding grant_user_role
    grant-no_user h = ground (arith, h)

    module _ (user_there : is_some (find_user stores env input.user_id w) ≡ true) where
      grant-no_role : find_role stores env input.role_id w ≡ none → handled ≡ (err not_found, w)
      unfolding grant_user_role
      grant-no_role h = ground (arith, user_there, h)

      module _ (role : RoleRow)
          (role_there : find_role stores env input.role_id w ≡ some role) where
        grant-other_kind :
            kind_eq role.scope_type input.scope_type ≡ false → handled ≡ (err bad_request, w)
        unfolding grant_user_role
        grant-other_kind h = ground (arith, user_there, role_there, h)

        module _ (kind_of_role : kind_eq role.scope_type input.scope_type ≡ true) where
          grant-no_scope :
              (e : HttpError)
              → resolve_scope_id stores env input.scope_type input.scope_id ≡ err e
              → handled ≡ (err e, w)
          unfolding grant_user_role
          grant-no_scope e h = ground (arith, user_there, role_there, kind_of_role, h)

          module _ (scope_id : Option String)
              (fits : resolve_scope_id stores env input.scope_type input.scope_id
                ≡ ok scope_id) where
            abbrev like : UserRoleRow → Bool
            like = is_grant stores env input.user_id input.role_id input.scope_type scope_id

            abbrev made : UserRoleRow
            made =
                new_grant stores env input.user_id input.role_id input.scope_type scope_id actor_id
                  w.user_roles

            grant-again :
                is_some (stores.user_roles.find_first like w.user_roles) ≡ true
                → handled ≡ (err (conflict already_exists), w)
            unfolding grant_user_role grant_scoped
            grant-again h = ground (arith, user_there, role_there, kind_of_role, fits, h)

            module _ (new : is_some (stores.user_roles.find_first like w.user_roles) ≡ false) where
              grant-clash :
                  stores.user_roles.create made w.user_roles ≡ none → handled ≡ (err internal, w)
              unfolding grant_user_role grant_scoped
              grant-clash h = ground (arith, user_there, role_there, kind_of_role, fits, new, h)

              grant-made :
                  (t : T)
                  → stores.user_roles.create made w.user_roles ≡ some t
                  → handled ≡ (
                    ok made,
                    record w { user_roles = t; effects = w.effects ++ grant_effects made },
                  )
              unfolding grant_user_role grant_scoped
              grant-made t h = ground (
                arith,
                user_there,
                role_there,
                kind_of_role,
                fits,
                new,
                h,
                append_assoc w.effects
                    (audit (some actor_id) "user_role.granted" "user_role" (some made.id) ∷ [])
                    (notify "access-granted"
                        (record { user_id = some input.user_id; email = none } ∷ [])
                      ∷ []),
              )

              grant-new : GrantOutcome w handled.0 handled.1
              grant-new = elim (Option-cases (stores.user_roles.create made w.user_roles)) [
                | inl clash ↦ of_result w w (err internal) _ (grant-clash clash) refl
                | inr (t, created) ↦ of_result w _ (ok made) _ (grant-made t created) record {
                  user_there = user_there;
                  role = role;
                  role_there = role_there;
                  kind_of_role =
                      ground (arith, kind_eq_iff role.scope_type input.scope_type, kind_of_role);
                  scope_id = scope_id;
                  scope_id_fits =
                      resolve_scope_id-ScopeFits input.scope_type input.scope_id scope_id fits;
                  not_granted = sym (stores.user_roles.find_first_listed like w.user_roles) ∙ new;
                  grant_is = refl;
                  rows = stores.user_roles.rows_create made w.user_roles t created;
                  rest = refl;
                }
              ]

    -- A role is granted only to a user that exists, as a role that exists, with the scope kind of the
    -- role and a scope id that fits it (none for an unscoped role, else the given one, which for a
    -- club or a zone names one that exists), and if there was no such grant; then there is one more
    -- grant, of this role and scope to this user by the caller, and the audit entry and the
    -- notification follow. Or it throws, and nothing has changed.
    pub grant_user_role-GrantOutcome : GrantOutcome w handled.0 handled.1
    grant_user_role-GrantOutcome =
        elim (Bool-cases (is_some (find_user stores env input.user_id w))) [
          | inr no_user ↦ of_result w w (err not_found) _ (grant-no_user no_user) refl
          | inl user_there ↦ elim (Option-cases (find_role stores env input.role_id w)) [
            | inl no_role ↦ of_result w w (err not_found) _ (grant-no_role user_there no_role) refl
            | inr (role, role_there) ↦
                elim (Bool-cases (kind_eq role.scope_type input.scope_type)) [
                  | inr other ↦
                      of_result w w (err bad_request) _
                        (grant-other_kind user_there role role_there other) refl
                  | inl kind ↦
                      elim (Result-cases
                        (resolve_scope_id stores env input.scope_type input.scope_id)) [
                          | inl (e, none_fits) ↦
                              of_result w w (err e) _
                                (grant-no_scope user_there role role_there kind e none_fits) refl
                          | inr (scope_id, fits) ↦
                              elim (Bool-cases (
                                is_some (
                                  stores.user_roles.find_first
                                    (is_grant stores env input.user_id input.role_id
                                      input.scope_type scope_id)
                                    w.user_roles))) [
                                      | inl again ↦
                                          of_result w w (err (conflict already_exists)) _
                                            (grant-again user_there role role_there kind scope_id
                                              fits again)
                                            refl
                                      | inr new ↦
                                          grant-new user_there role role_there kind scope_id fits
                                            new
                                    ]
                        ]
                ]
          ]
        ]
