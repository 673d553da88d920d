-- ===== src/Ride/Sessions.antt =====
-- src/subdomains/ride/ride-auth.service.ts: the sessions of participants, in the memory of the
-- process and in Redis if there is one.
pub mod Bounds
pub mod Admission
pub mod Listing
pub mod Revocation
pub mod Owners
pub mod Keys
pub mod History
use rac3011_api.Base.{
  ℕ, zero, suc, ◌+◌, ◌*◌, ◌-◌, ◌/◌, String, Bool, true, false, not, ◌&&◌, ◌||◌, Option, none, some,
  List, [], ◌∷◌, ltb, leb, if◌then◌else◌, ◌==◌, truthy?, opt_eq, is_some, is_empty, all, keep, map,
  length, get_or, no_dot, Result, ok, err, unauthorized, get_key, set_key, delete_key, values,
}
use rac3011_api.Action.{Action, pure, raise, raise_if, gets, or_raise, modify, ◌>>=◌, ◌>>◌}
use rac3011_api.Ride.Types.{
  ParticipantSessionRecord, RawPayload, Redis, World, RideEnv, participant_session_ttl_seconds,
  max_memory_sessions,
}
use rac3011_api.Ride.Tokens.{verify_token}

abbrev pub Memory : Type 0
Memory = List (List ℕ × ParticipantSessionRecord)

-- Deletes the first entries, as many as there are to delete.
unfoldable pub drop_oldest : ℕ → Memory → Memory
drop_oldest zero m = m
drop_oldest (suc n) [] = []
drop_oldest (suc n) (entry ∷ m) = drop_oldest n m

-- `Math.floor(MAX_MEMORY_SESSIONS * 0.1)`
abbrev pub to_delete : ℕ
to_delete = max_memory_sessions / 10

unfoldable pub evict_expired_memory_sessions : ℕ → Memory → Memory
evict_expired_memory_sessions now m =
    let kept = keep (λ (sid, rec). not (ltb rec.expires_at now)) m in
    if leb max_memory_sessions (length kept) then drop_oldest to_delete kept else kept

-- The Map of listActiveSessions before Redis is asked, and what is left in memory.
abbrev pub unexpired : ℕ → Memory → Memory
unexpired now m = keep (λ (sid, rec). ltb now rec.expires_at) m

-- `map.set(rec.sessionId, rec)` for the sessions read from Redis.
unfoldable pub set_unexpired : ℕ → List ParticipantSessionRecord → Memory → Memory
set_unexpired now [] m = m
set_unexpired now (rec ∷ recs) m =
    set_unexpired now recs (if ltb now rec.expires_at then set_key rec.session_id rec m else m)

-- One step of `sort((a, b) => b.lastActiveAt - a.lastActiveAt)`, which is stable.
unfoldable pub insert_by_activity :
    ParticipantSessionRecord → List ParticipantSessionRecord → List ParticipantSessionRecord
insert_by_activity s [] = s ∷ []
insert_by_activity s (t ∷ ts) =
    let rest = insert_by_activity s ts in
    if leb t.last_active_at s.last_active_at then s ∷ t ∷ ts else t ∷ rest

unfoldable pub sort_by_activity : List ParticipantSessionRecord → List ParticipantSessionRecord
sort_by_activity [] = []
sort_by_activity (s ∷ ss) = insert_by_activity s (sort_by_activity ss)

-- `s.includes('.')`
abbrev pub has_dot : List ℕ → Bool
has_dot s = not (all no_dot s)

module _ {R S : Type 0} (env : RideEnv R S) where
  abbrev pub Handler : Type 0 → Type 0
  Handler A = Action (World R S) A

  abbrev pub ttl : ℕ
  ttl = participant_session_ttl_seconds * 1000

  abbrev pub new_session :
      String → String → Option String → Option String → ParticipantSessionRecord
  new_session participant_id email ip_address user_agent = record {
    session_id = env.new_session_id;
    participant_id = participant_id;
    email = email;
    ip_address = ip_address;
    user_agent = user_agent;
    created_at = env.now;
    last_active_at = env.now;
    expires_at = env.now + ttl;
  }

  -- Evicts if at capacity, and sets.
  unfoldable pub remember : ParticipantSessionRecord → Memory → Memory
  remember s m =
      set_key s.session_id s
        (if leb max_memory_sessions (length m) then evict_expired_memory_sessions env.now m else m)

  -- The `try` block around `redis.set`; `failed` is what its `catch` does.
  unfoldable pub write_session :
      Option (Redis R) → List ℕ → ParticipantSessionRecord → Handler (Unit {0}) → Handler (Unit {0})
  write_session none sid s failed w = (ok tt, w)
  write_session (some redis) sid s failed w =
      elim (redis.set env.now sid s participant_session_ttl_seconds w.redis) [
        | none ↦ failed w
        | some r ↦ (ok tt, record w { redis = r })
      ]

  unfoldable pub create_session :
      String → String → Option String → Option String → Handler ParticipantSessionRecord
  create_session participant_id email ip_address user_agent = do
    raise_if (env.production && not (is_some env.redis)) unauthorized
    let s = new_session participant_id email ip_address user_agent
    modify (λ w. record w { memory = remember s w.memory })
    write_session env.redis s.session_id s (raise_if env.production unauthorized)
    pure s

  -- `payload.sid` of a token that verifies, and what has no dot as it is; `none` where it returns.
  unfoldable pub sid_of : List ℕ → Option (List ℕ)
  sid_of token_or_sid =
      if has_dot token_or_sid
      then elim (verify_token env.crypto env.now token_or_sid) [
        | err e ↦ none
        | ok payload ↦ payload.sid
      ]
      else some token_or_sid

  unfoldable pub delete_session : Option (Redis R) → List ℕ → World R S → World R S
  delete_session none sid w = record w { memory = delete_key sid w.memory }
  delete_session (some redis) sid w = record w {
    memory = delete_key sid w.memory;
    redis = get_or (redis.del sid w.redis) w.redis;
  }

  unfoldable pub invalidate_sid : Option (List ℕ) → World R S → World R S
  invalidate_sid none w = w
  invalidate_sid (some sid) w = if is_empty sid then w else delete_session env.redis sid w

  unfoldable pub invalidate_session : List ℕ → World R S → World R S
  invalidate_session token_or_sid w = invalidate_sid (sid_of token_or_sid) w

  -- The record that validateAndTouchSession reads.
  unfoldable pub find_session :
      Option (Redis R) → ℕ → List ℕ → World R S → Option ParticipantSessionRecord
  find_session none now sid w = get_key sid w.memory
  find_session (some redis) now sid w = elim (redis.get now sid w.redis) [
    | none ↦ get_key sid w.memory
    | some found ↦ found
  ]

  abbrev pub touched : Option String → ParticipantSessionRecord → ParticipantSessionRecord
  touched client_ip s = record s {
    last_active_at = env.now;
    expires_at = env.now + ttl;
    ip_address = if truthy? client_ip then client_ip else s.ip_address;
  }

  abbrev pub is_touched : Option String → ParticipantSessionRecord → Bool
  is_touched client_ip s =
      ltb (30 * 1000) (env.now - s.last_active_at)
      || (truthy? client_ip && not (opt_eq client_ip s.ip_address))

  unfoldable pub touch :
      List ℕ → Option String → ParticipantSessionRecord → Handler ParticipantSessionRecord
  touch sid client_ip s = do
    modify (λ w. record w { memory = set_key sid (touched client_ip s) w.memory })
    write_session env.redis sid (touched client_ip s) (pure tt)
    pure (touched client_ip s)

  unfoldable pub validate_and_touch_session :
      List ℕ → Option String → Handler ParticipantSessionRecord
  validate_and_touch_session sid client_ip = do
    found ← gets (find_session env.redis env.now sid)
    s ← or_raise found unauthorized
    if ltb ttl (env.now - s.last_active_at)
        then modify (invalidate_session sid) >> raise unauthorized
        else if is_touched client_ip s
        then touch sid client_ip s
        else pure s

  unfoldable pub all_active : Option (Redis R) → World R S → Memory
  all_active none w = unexpired env.now w.memory
  all_active (some redis) w =
      set_unexpired env.now (get_or (redis.list env.now w.redis) []) (unexpired env.now w.memory)

  unfoldable pub list_active_sessions : Handler (List ParticipantSessionRecord)
  list_active_sessions w = (
    ok (sort_by_activity (values (all_active env.redis w))),
    record w { memory = unexpired env.now w.memory },
  )

  unfoldable pub invalidate_all : List ParticipantSessionRecord → World R S → World R S
  invalidate_all [] w = w
  invalidate_all (s ∷ ss) w = invalidate_all ss (invalidate_session s.session_id w)

  unfoldable pub revoke_user_sessions : String → Handler ℕ
  revoke_user_sessions participant_id = do
    sessions ← list_active_sessions
    let user_sessions = keep (λ s. s.participant_id == participant_id) sessions
    modify (invalidate_all user_sessions)
    pure (length user_sessions)

  unfoldable pub revoke_all_sessions : Handler ℕ
  revoke_all_sessions = do
    sessions ← list_active_sessions
    modify (invalidate_all sessions)
    pure (length sessions)
