-- ===== src/Ride/Sessions/Admission.antt =====
-- src/subdomains/ride/ride-auth.service.ts (createSession, validateAndTouchSession): a session that was
-- made is admitted until it runs out.
use rac3011_api.Base.{
  ◌*◌, ℕ, ◌+◌, ◌-◌, ◌≤◌, ◌≡◌, refl, ◌∙◌, ap, String, true, false, not, ◌&&◌, Option, none, some,
  List, arith, ltb, is_some, text_eq_refl, get_key, set_key, get_key-set_key, ok, unauthorized,
  Bool-cases, Option-cases, inl, inr,
}
use rac3011_api.Action.{raise_if, pure, bind_returns}
use rac3011_api.Ride.Types.{
  ParticipantSessionRecord, Redis, World, RideEnv, participant_session_ttl_seconds,
}
use rac3011_api.Ride.Sessions.{
  Memory, Handler, ttl, new_session, remember, write_session, create_session, find_session, touched,
  is_touched, touch, validate_and_touch_session,
}

module _ {R : Type 0} where
  -- No write to Redis throws, if there is one.
  abbrev pub IsWritable : Option (Redis R) → Type 0
  IsWritable none = Unit
  IsWritable (some c) =
      (now : ℕ) (sid : List ℕ) (s : ParticipantSessionRecord) (seconds : ℕ) (r : R)
      → is_some (c.set now sid s seconds r) ≡ true

module _ {R S : Type 0} where
  -- Redis, if there is one, has the session and keeps it until it expires.
  abbrev pub InRedis : Option (Redis R) → ParticipantSessionRecord → World R S → Type 0
  InRedis none s w = Unit
  InRedis (some c) s w =
      (c.stored w.redis s.session_id ≡ some s) × (s.expires_at ≤ c.runs_out w.redis s.session_id)

module _ {R S : Type 0} (env : RideEnv R S) where
  get_key-remember :
      (s : ParticipantSessionRecord) (m : Memory) → get_key s.session_id (remember env s m) ≡ some s
  unfolding remember
  get_key-remember s m =
      get_key-set_key s.session_id s.session_id s _ ∙ rw (text_eq_refl s.session_id)

  -- What a write leaves: the memory and the rows as they were, and the session in Redis.
  record Written (redis : Option (Redis R)) (s : ParticipantSessionRecord) (w w' : World R S)
      : Type 0 where
    memory_kept : w'.memory ≡ w.memory
    rows_kept : w'.participants ≡ w.participants
    in_redis : InRedis redis s w'

  -- The key of a session that is written stays until the session expires.
  kept_until :
      (c : Redis R) (s : ParticipantSessionRecord) (r r' : R)
      → c.set env.now s.session_id s participant_session_ttl_seconds r ≡ some r'
      → s.expires_at ≤ env.now + participant_session_ttl_seconds * 1000
      → s.expires_at ≤ c.runs_out r' s.session_id
  kept_until c s r r' done lasts =
      let until : c.runs_out r' s.session_id ≡ env.now + participant_session_ttl_seconds * 1000 =
        c.set_runs_out env.now s.session_id s participant_session_ttl_seconds r r' s.session_id done
        ∙ rw (text_eq_refl s.session_id) in
      ground (arith, until, lasts)

  write_session-Written :
      (redis : Option (Redis R)) (s : ParticipantSessionRecord) (failed : Handler env (Unit {0}))
      (w : World R S)
      → IsWritable redis
      → s.expires_at ≤ env.now + participant_session_ttl_seconds * 1000
      → (w' : World R S) × (write_session env redis s.session_id s failed w ≡ (ok tt, w'))
        × Written redis s w w'
  unfolding write_session
  write_session-Written none s failed w up lasts =
      (w, refl, record { memory_kept = refl; rows_kept = refl; in_redis = tt })
  write_session-Written (some c) s failed w up lasts =
      elim (Option-cases (c.set env.now s.session_id s participant_session_ttl_seconds w.redis)) [
        | inl thrown ↦ absurd (
            ground
              (arith, thrown, up env.now s.session_id s participant_session_ttl_seconds w.redis))
        | inr (r, done) ↦ (
          record w { redis = r },
          rw done,
          record {
            memory_kept = refl;
            rows_kept = refl;
            in_redis = (
              c.set_stored env.now s.session_id s participant_session_ttl_seconds w.redis r
                    s.session_id done
                  ∙ rw (text_eq_refl s.session_id),
              kept_until c s w.redis r done lasts,
            );
          },
        )
      ]

  -- What the creation of a session leaves: a request finds it, from memory or from Redis.
  pub record Created (s : ParticipantSessionRecord) (w w' : World R S) : Type 0 where
    pub rows_kept : w'.participants ≡ w.participants
    pub remembered : get_key s.session_id w'.memory ≡ some s
    pub in_redis : InRedis env.redis s w'

  pub create_session-Created :
      (participant_id email : String) (ip_address user_agent : Option String) (w : World R S)
      → IsWritable env.redis
      → (env.production && not (is_some env.redis)) ≡ false
      → let s = new_session env participant_id email ip_address user_agent in
        (w' : World R S) × (create_session env participant_id email ip_address user_agent w
          ≡ (ok s, w'))
        × Created s w w'
  unfolding create_session
  create_session-Created participant_id email ip_address user_agent w up allowed =
      let s = new_session env participant_id email ip_address user_agent in
      let stored : World R S = record w { memory = remember env s w.memory } in
      let (w', wrote, written) =
        write_session-Written env.redis s (raise_if env.production unauthorized) stored up
          (omega arith) in
      (
        w',
        rw allowed (
            bind_returns
              (write_session env env.redis s.session_id s (raise_if env.production unauthorized))
              (λ u. pure s) tt stored w' wrote),
        record {
          rows_kept = written.rows_kept;
          remembered = ap (get_key s.session_id) written.memory_kept ∙ get_key-remember s w.memory;
          in_redis = written.in_redis;
        },
      )

module _ {R S : Type 0} (env : RideEnv R S) where
  pub find_session-Created :
      (redis : Option (Redis R)) (now : ℕ) (s : ParticipantSessionRecord) (w : World R S)
      → get_key s.session_id w.memory ≡ some s
      → InRedis redis s w
      → now ≤ s.expires_at
      → find_session env redis now s.session_id w ≡ some s
  unfolding find_session
  find_session-Created none now s w remembered stored early = remembered
  find_session-Created (some c) now s w remembered (stored, lasts) early =
      elim (Option-cases (c.get now s.session_id w.redis)) [
        | inl thrown ↦ rw thrown remembered
        | inr (found, read) ↦ rw read (
            c.get_unexpired now s.session_id w.redis found s read stored
              (ground (arith, early, lasts)))
      ]

  -- Whether the session is touched or not, and whether or not Redis takes the touch.
  touch_returns :
      (redis : Option (Redis R)) (sid : List ℕ) (s : ParticipantSessionRecord) (w : World R S)
      → (w' : World R S) × (write_session env redis sid s (pure tt) w ≡ (ok tt, w'))
        × (w'.participants ≡ w.participants)
  unfolding write_session
  touch_returns none sid s w = (w, refl, refl)
  touch_returns (some c) sid s w =
      elim (Option-cases (c.set env.now sid s participant_session_ttl_seconds w.redis)) [
        | inl thrown ↦ (w, rw thrown, refl)
        | inr (r, done) ↦ (record w { redis = r }, rw done, refl)
      ]

  -- A session that is found and was active within the time to live is admitted.
  pub validate-found :
      (sid : List ℕ) (client_ip : Option String) (s : ParticipantSessionRecord) (w : World R S)
      → find_session env env.redis env.now sid w ≡ some s
      → env.now ≤ s.last_active_at + ttl env
      → (s' : ParticipantSessionRecord) × (w' : World R S) × (validate_and_touch_session env sid
            client_ip w
          ≡ (ok s', w'))
        × (w'.participants ≡ w.participants)
  unfolding validate_and_touch_session touch
  validate-found sid client_ip s w found early =
      let fresh : ltb (ttl env) (env.now - s.last_active_at) ≡ false = ground (arith, early) in
      elim (Bool-cases (is_touched env client_ip s)) [
        | inr kept ↦ (s, w, rw found (rw fresh (rw kept)), refl)
        | inl moved ↦
            let t = touched env client_ip s in
            let stored : World R S = record w { memory = set_key sid t w.memory } in
            let (w', wrote, rows) = touch_returns env.redis sid t stored in
            (
              t,
              w',
              rw found (
                  rw fresh (
                    rw moved (
                      bind_returns (write_session env env.redis sid t (pure tt)) (λ u. pure t) tt
                        stored w' wrote))),
              rows,
            )
      ]
