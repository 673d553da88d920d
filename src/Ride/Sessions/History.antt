-- ===== src/Ride/Sessions/History.antt =====
-- src/subdomains/ride/ride-auth.service.ts: what happens to the sessions in the course of time.
use rac3011_api.Base.{ℕ, String, Option, List}
use rac3011_api.Action.Triples.{Post_both}
use rac3011_api.Ride.Types.{World, RideEnv}
use rac3011_api.Ride.Sessions.{
  evict_expired_memory_sessions, create_session, sid_of, invalidate_session,
  validate_and_touch_session, revoke_user_sessions, revoke_all_sessions, list_active_sessions,
}
use rac3011_api.Ride.Sessions.Owners.{Owns-evict}
use rac3011_api.Ride.Sessions.Keys.{
  KeepsKeys, create_session-Keeps, validate_and_touch_session-Keeps, invalidate_sid-Keeps,
  revoke_user_sessions-Keeps, revoke_all_sessions-Keeps, list_active_sessions-Keeps,
}

-- What happens to the sessions: requests at any time, with any fresh id, and the timer.
module _ {R S : Type 0} (env : RideEnv R S) where
  abbrev pub at_request : ℕ → List ℕ → RideEnv R S
  at_request now new_id = record env { now = now; new_session_id = new_id }

  pub data Step : World R S → World R S → Type 0 where
    created :
        (now : ℕ) (new_id : List ℕ) (participant_id email : String)
        (ip_address user_agent : Option String) (w : World R S)
        → Step w
            (create_session (at_request now new_id) participant_id email ip_address user_agent w).1
    validated :
        (now : ℕ) (new_id sid : List ℕ) (client_ip : Option String) (w : World R S)
        → Step w (validate_and_touch_session (at_request now new_id) sid client_ip w).1
    invalidated :
        (now : ℕ) (new_id token_or_sid : List ℕ) (w : World R S)
        → Step w (invalidate_session (at_request now new_id) token_or_sid w)
    revoked :
        (now : ℕ) (new_id : List ℕ) (participant_id : String) (w : World R S)
        → Step w (revoke_user_sessions (at_request now new_id) participant_id w).1
    all_revoked :
        (now : ℕ) (new_id : List ℕ) (w : World R S)
        → Step w (revoke_all_sessions (at_request now new_id) w).1
    listed :
        (now : ℕ) (new_id : List ℕ) (w : World R S)
        → Step w (list_active_sessions (at_request now new_id) w).1
    evicted :
        (now : ℕ) (w : World R S)
        → Step w (record w { memory = evict_expired_memory_sessions now w.memory })

  pub data Reach (w : World R S) : World R S → Type 0 where
    here : Reach w w
    next : {v u : World R S} → Reach w v → Step v u → Reach w u

  Step-KeepsKeys : {w u : World R S} → Step w u → KeepsKeys env.redis w → KeepsKeys env.redis u
  unfolding invalidate_session
  Step-KeepsKeys (created now new_id id email ip agent w) k =
      Post_both (KeepsKeys env.redis) _
        ((create_session-Keeps (at_request now new_id) id email ip agent).after w k)
  Step-KeepsKeys (validated now new_id sid ip w) k =
      Post_both (KeepsKeys env.redis) _
        ((validate_and_touch_session-Keeps (at_request now new_id) sid ip).after w k)
  Step-KeepsKeys (invalidated now new_id t w) k =
      invalidate_sid-Keeps (at_request now new_id) (sid_of (at_request now new_id) t) w k
  Step-KeepsKeys (revoked now new_id id w) k =
      Post_both (KeepsKeys env.redis) _
        ((revoke_user_sessions-Keeps (at_request now new_id) id).after w k)
  Step-KeepsKeys (all_revoked now new_id w) k =
      Post_both (KeepsKeys env.redis) _
        ((revoke_all_sessions-Keeps (at_request now new_id)).after w k)
  Step-KeepsKeys (listed now new_id w) k =
      Post_both (KeepsKeys env.redis) _
        ((list_active_sessions-Keeps (at_request now new_id)).after w k)
  Step-KeepsKeys (evicted now w) (m, r) = (Owns-evict now w.memory m, r)

  -- However sessions are created, validated, ended, revoked and listed, at whatever times and in
  -- whatever order, whether these calls return or throw, whether or not Redis answers, and whenever
  -- the timer runs: if every session in memory and in Redis is kept under its own id, and Redis keeps
  -- each until it expires, then this is still so.
  pub Reach-KeepsKeys :
      {w u : World R S} → KeepsKeys env.redis w → Reach w u → KeepsKeys env.redis u
  Reach-KeepsKeys k here = k
  Reach-KeepsKeys k (next r s) = Step-KeepsKeys s (Reach-KeepsKeys k r)
