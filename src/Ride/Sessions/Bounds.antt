-- ===== src/Ride/Sessions/Bounds.antt =====
-- src/subdomains/ride/ride-auth.service.ts: how many sessions the memory of the process holds.
use rac3011_api.Base.{
  ℕ, zero, suc, ◌-◌, ◌≤◌, ◌<◌, ◌≡◌, String, Bool, Option, none, some, List, [], ◌∷◌, arith, keep,
  length, length-set_key, ok, is_some, not, ◌&&◌, ltb, unauthorized,
}
use rac3011_api.Action.{raise_if}
use rac3011_api.Action.Triples.{
  Triple, Post, Post_both, Triple-seq, Triple-pure, Triple-modify, Triple-raise_if,
}
use rac3011_api.Ride.Types.{
  ParticipantSessionRecord, Redis, World, RideEnv, max_memory_sessions,
  participant_session_ttl_seconds,
}
use rac3011_api.Ride.Sessions.{
  Memory, Handler, drop_oldest, evict_expired_memory_sessions, remember, write_session,
  create_session, new_session, to_delete,
}

length-keep-le :
    (p : List ℕ × ParticipantSessionRecord → Bool) (m : Memory) → length (keep p m) ≤ length m
length-keep-le p [] = omega arith
length-keep-le p (x ∷ m) = ground (arith, length-keep-le p m)

length-drop_oldest : (n : ℕ) (m : Memory) → length (drop_oldest n m) ≡ length m - n
unfolding drop_oldest
length-drop_oldest zero m = omega arith
length-drop_oldest (suc n) [] = omega arith
length-drop_oldest (suc n) (x ∷ m) = omega (arith, length-drop_oldest n m)

-- An eviction makes room.
length-evict :
    (now : ℕ) (m : Memory)
    → length m ≤ max_memory_sessions
    → length (evict_expired_memory_sessions now m) < max_memory_sessions
unfolding evict_expired_memory_sessions
length-evict now m h =
    let kept = keep (λ (sid, rec). not (ltb rec.expires_at now)) m in
    ground (
      arith,
      h,
      length-keep-le (λ (sid, rec). not (ltb rec.expires_at now)) m,
      length-drop_oldest to_delete kept,
    )

module _ {R S : Type 0} (env : RideEnv R S) where
  length-remember :
      (s : ParticipantSessionRecord) (m : Memory)
      → length m ≤ max_memory_sessions
      → length (remember env s m) ≤ max_memory_sessions
  unfolding remember
  length-remember s m h = ground (
    arith,
    h,
    length-evict env.now m h,
    length-set_key s.session_id s (evict_expired_memory_sessions env.now m),
    length-set_key s.session_id s m,
  )

  abbrev IsBounded : World R S → Type 0
  IsBounded w = length w.memory ≤ max_memory_sessions

  write_session-IsBounded :
      (redis : Option (Redis R)) (sid : List ℕ) (s : ParticipantSessionRecord)
      (failed : Handler env (Unit {0}))
      → Triple IsBounded failed (λ _. IsBounded) IsBounded
      → Triple IsBounded (write_session env redis sid s failed) (λ _. IsBounded) IsBounded
  unfolding write_session
  write_session-IsBounded none sid s failed h = record { after = λ w b. b }
  write_session-IsBounded (some redis) sid s failed h = record {
    after = λ w b.
        elim (redis.set env.now sid s participant_session_ttl_seconds w.redis)
          as (λ o.
            Post {A = Unit {0}} (λ _. IsBounded) IsBounded
              (elim o [ none ↦ failed w | some r ↦ (ok tt, record w { redis = r }) ])) [
                | none ↦ h.after w b
                | some r ↦ b
              ];
  }

  create_session-IsBounded :
      (participant_id email : String) (ip_address user_agent : Option String)
      → Triple IsBounded
          (create_session env participant_id email ip_address user_agent)
          (λ _. IsBounded)
          IsBounded
  unfolding create_session
  create_session-IsBounded participant_id email ip_address user_agent =
      let s = new_session env participant_id email ip_address user_agent in
      Triple-seq
        (Triple-raise_if (λ w b. b) (env.production && not (is_some env.redis)) unauthorized)
        (Triple-seq
          (Triple-modify (λ w. record w { memory = remember env s w.memory })
            (λ w. length-remember s w.memory))
          (Triple-seq
            (write_session-IsBounded env.redis s.session_id s (raise_if env.production unauthorized)
              (Triple-raise_if (λ w b. b) env.production unauthorized))
            (Triple-pure s (λ w b. b))))

  -- The creation of a session never takes the memory of the process beyond its maximum, whatever
  -- comes of it.
  pub length-create_session :
      (participant_id email : String) (ip_address user_agent : Option String) (w : World R S)
      → length w.memory ≤ max_memory_sessions
      → length (create_session env participant_id email ip_address user_agent w).1.memory
        ≤ max_memory_sessions
  length-create_session participant_id email ip_address user_agent w h =
      Post_both IsBounded (create_session env participant_id email ip_address user_agent w)
        ((create_session-IsBounded participant_id email ip_address user_agent).after w h)
