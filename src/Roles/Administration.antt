-- ===== src/Roles/Administration.antt =====
-- src/rbac/roles.service.ts: requests of administrators in any order.
use rac3011_api.Base.{String, Result, ok, err}
use rac3011_api.Action.Triples.{Post}
use rac3011_api.Roles.Types.{
  Stores, World, CreateRoleInput, UpdateRoleInput, CreateUserRoleInput, CreateAdminUserInput,
  UpdateAdminUserInput, RolesEnv,
}
use rac3011_api.Roles.Service.{
  Handler, create_role, update_role, delete_role, grant_user_role, revoke_user_role,
}
use rac3011_api.Roles.Accounts.{create_user, update_user, delete_user}
use rac3011_api.Roles.Grounded.{
  IsGrounded, Keeps, create_role-Keeps, update_role-Keeps, delete_role-Keeps,
  revoke_user_role-Keeps,
}
use rac3011_api.Roles.Grounded.Users.{grant_user_role-Keeps}
use rac3011_api.Roles.Grounded.Creation.{create_user-Keeps}
use rac3011_api.Roles.Grounded.Accounts.{update_user-Keeps, delete_user-Keeps}

module _ {S T U P A O : Type 0} (stores : Stores S T U P A O) (env : RolesEnv S T U P A) where
  -- One request, whether it returns or throws.
  pub data Step : World S T U P A O → World S T U P A O → Type 0 where
    role_created :
        (w : World S T U P A O) (actor_id : String) (input : CreateRoleInput)
        → Step w (create_role stores env actor_id input w).1
    role_updated :
        (w : World S T U P A O) (actor_id id : String) (input : UpdateRoleInput)
        → Step w (update_role stores env actor_id id input w).1
    role_deleted :
        (w : World S T U P A O) (actor_id id : String)
        → Step w (delete_role stores env actor_id id w).1
    granted :
        (w : World S T U P A O) (actor_id : String) (input : CreateUserRoleInput)
        → Step w (grant_user_role stores env actor_id input w).1
    revoked :
        (w : World S T U P A O) (actor_id id : String)
        → Step w (revoke_user_role stores env actor_id id w).1
    user_created :
        (w : World S T U P A O) (actor_id : String) (input : CreateAdminUserInput)
        → Step w (create_user stores env actor_id input w).1
    user_updated :
        (w : World S T U P A O) (actor_id id : String) (input : UpdateAdminUserInput)
        → Step w (update_user stores env actor_id id input w).1
    user_deleted :
        (w : World S T U P A O) (actor_id id : String)
        → Step w (delete_user stores env actor_id id w).1

  -- Any sequence of requests.
  pub data Reach (start : World S T U P A O) : World S T U P A O → Type 0 where
    here : Reach start start
    next : {v w : World S T U P A O} → Reach start v → Step v w → Reach start w

  kept :
      {B : Type 0}
      → (m : Handler stores env B) → Keeps stores env m
      → (w : World S T U P A O) → IsGrounded stores env w
      → IsGrounded stores env (m w).1
  kept {B} m keeps w h = of_post (m w).0 (m w).1 (keeps.after w h)
    where
      of_post :
          (r : Result B) (w' : World S T U P A O)
          → Post (λ _. IsGrounded stores env) (IsGrounded stores env) (r, w')
          → IsGrounded stores env w'
      of_post (ok b) w' h = h
      of_post (err e) w' h = h

  Step-IsGrounded :
      {v w : World S T U P A O} → Step v w → IsGrounded stores env v → IsGrounded stores env w
  Step-IsGrounded (role_created w actor_id input) =
      kept (create_role stores env actor_id input) (create_role-Keeps stores env actor_id input) w
  Step-IsGrounded (role_updated w actor_id id input) =
      kept (update_role stores env actor_id id input)
        (update_role-Keeps stores env actor_id id input) w
  Step-IsGrounded (role_deleted w actor_id id) =
      kept (delete_role stores env actor_id id) (delete_role-Keeps stores env actor_id id) w
  Step-IsGrounded (granted w actor_id input) =
      kept (grant_user_role stores env actor_id input)
        (grant_user_role-Keeps stores env actor_id input) w
  Step-IsGrounded (revoked w actor_id id) =
      kept (revoke_user_role stores env actor_id id) (revoke_user_role-Keeps stores env actor_id id)
        w
  Step-IsGrounded (user_created w actor_id input) =
      kept (create_user stores env actor_id input) (create_user-Keeps stores env actor_id input) w
  Step-IsGrounded (user_updated w actor_id id input) =
      kept (update_user stores env actor_id id input)
        (update_user-Keeps stores env actor_id id input) w
  Step-IsGrounded (user_deleted w actor_id id) =
      kept (delete_user stores env actor_id id) (delete_user-Keeps stores env actor_id id) w

  -- Whatever requests are made, in whatever order, and whether they return or throw: if every grant is
  -- of a role that exists, to a user that exists, then this is still so.
  pub Reach-IsGrounded :
      {v w : World S T U P A O} → Reach v w → IsGrounded stores env v → IsGrounded stores env w
  Reach-IsGrounded here h = h
  Reach-IsGrounded (next before step) h = Step-IsGrounded step (Reach-IsGrounded before h)
