-- ===== src/Ride/Sessions/Keys.antt =====
-- src/subdomains/ride/ride-auth.service.ts: every session is kept under its own id, in memory and in
-- Redis, whatever is asked of the service.
use rac3011_api.Base.{
  ◌≤◌, ◌+◌, ◌*◌, arith, ℕ, ◌-◌, ◌≡◌, refl, sym, ap, ◌∙◌, String, not, ◌&&◌, Option, none, some,
  List, [], ◌∷◌, All, All-keep, keep, length, leb, ltb, is_some, is_empty, set_key, get_key, ◌==◌,
  if◌then◌else◌, Bool-cases, Option-cases, inl, inr, unauthorized,
}
use rac3011_api.Action.{raise_if, raise, pure, modify, or_raise, ◌>>◌}
use rac3011_api.Action.Triples.{
  Triple, Triple-bind, Triple-seq, Triple-pure, Triple-gets, Triple-modify, Triple-raise_if,
  Triple-if,
}
use rac3011_api.Ride.Types.{
  ParticipantSessionRecord, Redis, World, RideEnv, participant_session_ttl_seconds,
  max_memory_sessions,
}
use rac3011_api.Ride.Sessions.{
  Memory, Handler, remember, write_session, create_session, new_session, sid_of, delete_session,
  invalidate_sid, invalidate_session, find_session, ttl, touched, is_touched, touch,
  validate_and_touch_session, list_active_sessions, invalidate_all, revoke_user_sessions,
  revoke_all_sessions,
}
use rac3011_api.Ride.Sessions.Listing.{session_id_of}
use rac3011_api.Ride.Sessions.Owners.{
  Owns, Owns-set_key, Owns-delete_key, Owns-evict, RedisOwns, RedisOwns-set, RedisOwns-del,
}

module _ {R S : Type 0} where
  -- Every session, in memory and in Redis, is kept under its own id, and in Redis until it expires.
  abbrev pub KeepsKeys : Option (Redis R) → World R S → Type 0
  KeepsKeys redis w = All Owns w.memory × RedisOwns redis w.redis

module _ {R S : Type 0} (env : RideEnv R S) where
  write_session-Keeps :
      (redis : Option (Redis R)) (sid : List ℕ) (s : ParticipantSessionRecord)
      (failed : Handler env (Unit {0}))
      → s.session_id ≡ sid
      → s.expires_at ≤ env.now + participant_session_ttl_seconds * 1000
      → Triple (KeepsKeys redis) failed (λ _. KeepsKeys redis) (KeepsKeys redis)
      → Triple
          (KeepsKeys redis)
          (write_session env redis sid s failed)
          (λ _. KeepsKeys redis)
          (KeepsKeys redis)
  unfolding write_session
  write_session-Keeps none sid s failed own lasts h = record { after = λ w k. k }
  write_session-Keeps (some c) sid s failed own lasts h = record {
    after = λ w k.
        elim (Option-cases (c.set env.now sid s participant_session_ttl_seconds w.redis)) [
          | inl thrown ↦ rw thrown (h.after w k)
          | inr (r, done) ↦
              rw done (k.0, RedisOwns-set c env.now sid s _ w.redis r done own lasts k.1)
        ];
  }

  delete_session-Keeps :
      (redis : Option (Redis R)) (sid : List ℕ) (w : World R S)
      → KeepsKeys redis w
      → KeepsKeys redis (delete_session env redis sid w)
  unfolding delete_session
  delete_session-Keeps none sid w (m, r) = (Owns-delete_key sid w.memory m, r)
  delete_session-Keeps (some c) sid w (m, r) = elim (Option-cases (c.del sid w.redis)) [
    | inl thrown ↦ rw thrown (Owns-delete_key sid w.memory m, r)
    | inr (r', done) ↦
        rw done (Owns-delete_key sid w.memory m, RedisOwns-del c sid w.redis r' done r)
  ]

  pub invalidate_sid-Keeps :
      (sid : Option (List ℕ)) (w : World R S)
      → KeepsKeys env.redis w
      → KeepsKeys env.redis (invalidate_sid env sid w)
  unfolding invalidate_sid
  invalidate_sid-Keeps none w k = k
  invalidate_sid-Keeps (some sid) w k = elim (Bool-cases (is_empty sid)) [
    | inl empty ↦ rw empty k
    | inr full ↦ rw full (delete_session-Keeps env.redis sid w k)
  ]

  invalidate_all-Keeps :
      (ss : List ParticipantSessionRecord) (w : World R S)
      → KeepsKeys env.redis w
      → KeepsKeys env.redis (invalidate_all env ss w)
  unfolding invalidate_all invalidate_session
  invalidate_all-Keeps [] w k = k
  invalidate_all-Keeps (s ∷ ss) w k =
      invalidate_all-Keeps ss _ (invalidate_sid-Keeps (sid_of env s.session_id) w k)

  remember-Owns :
      (s : ParticipantSessionRecord) (m : Memory) → All Owns m → All Owns (remember env s m)
  unfolding remember
  remember-Owns s m h = elim (Bool-cases (leb max_memory_sessions (length m))) [
    | inl full ↦ rw full (Owns-set_key s.session_id s _ (Owns-evict env.now m h) refl)
    | inr room ↦ rw room (Owns-set_key s.session_id s m h refl)
  ]

  abbrev pub Keeping : {A : Type 0} → Handler env A → Type 0
  Keeping m = Triple (KeepsKeys env.redis) m (λ _. KeepsKeys env.redis) (KeepsKeys env.redis)

  pub create_session-Keeps :
      (participant_id email : String) (ip_address user_agent : Option String)
      → Keeping (create_session env participant_id email ip_address user_agent)
  unfolding create_session
  create_session-Keeps participant_id email ip_address user_agent =
      let s = new_session env participant_id email ip_address user_agent in
      Triple-seq
        (Triple-raise_if (λ w k. k) (env.production && not (is_some env.redis)) unauthorized)
        (Triple-seq
          (Triple-modify (λ w. record w { memory = remember env s w.memory })
            (λ w (m, r). (remember-Owns s w.memory m, r)))
          (Triple-seq
            (write_session-Keeps env.redis s.session_id s (raise_if env.production unauthorized)
              refl (omega arith) (Triple-raise_if (λ w k. k) env.production unauthorized))
            (Triple-pure s (λ w k. k))))

  found_own :
      (redis : Option (Redis R)) (now : ℕ) (sid : List ℕ) (s : ParticipantSessionRecord)
      (w : World R S)
      → KeepsKeys redis w
      → find_session env redis now sid w ≡ some s
      → s.session_id ≡ sid
  unfolding find_session
  found_own none now sid s w (m, r) found = session_id_of sid s w.memory m found
  found_own (some c) now sid s w (m, r) found = elim (Option-cases (c.get now sid w.redis)) [
    | inl thrown ↦
        let in_memory : get_key sid w.memory ≡ some s = sym (rw thrown) ∙ found in
        session_id_of sid s w.memory m in_memory
    | inr (x, read) ↦
        let here : x ≡ some s = sym (rw read) ∙ found in
        (r sid s (c.get_stored now sid w.redis s (read ∙ ap some here))).0
  ]

  Owned : List ℕ → ParticipantSessionRecord → World R S → Type 0
  Owned sid s w = (s.session_id ≡ sid) × KeepsKeys env.redis w

  read_own :
      (sid : List ℕ) (found : Option ParticipantSessionRecord)
      → Triple
          (λ w. (found ≡ find_session env env.redis env.now sid w) × KeepsKeys env.redis w)
          (or_raise found unauthorized)
          (Owned sid)
          (KeepsKeys env.redis)
  unfolding Owned
  read_own sid none = record { after = λ w (e, k). k }
  read_own sid (some s) = record {
    after = λ w (e, k). (found_own env.redis env.now sid s w k (sym e), k);
  }

  touch-Keeps :
      (sid : List ℕ) (client_ip : Option String) (s : ParticipantSessionRecord)
      → s.session_id ≡ sid
      → Keeping (touch env sid client_ip s)
  unfolding touch
  touch-Keeps sid client_ip s own =
      let t = touched env client_ip s in
      Triple-seq
        (Triple-modify (λ w. record w { memory = set_key sid t w.memory })
          (λ w (m, r). (Owns-set_key sid t w.memory m own, r)))
        (Triple-seq
          (write_session-Keeps env.redis sid t (pure tt) own (omega arith)
            (Triple-pure tt (λ w k. k)))
          (Triple-pure t (λ w k. k)))

  pub validate_and_touch_session-Keeps :
      (sid : List ℕ) (client_ip : Option String)
      → Keeping (validate_and_touch_session env sid client_ip)
  unfolding validate_and_touch_session Owned invalidate_session
  validate_and_touch_session-Keeps sid client_ip =
      Triple-bind
        (Triple-gets (find_session env env.redis env.now sid)
          {Q = λ found w.
            (found ≡ find_session env env.redis env.now sid w) × KeepsKeys env.redis w}
          (λ w k. (refl, k)))
        λ found.
          Triple-bind (read_own sid found)
            λ s. record { after = λ w (own, k). (owned_session_kept s own).after w k }
    where
      owned_session_kept :
          (s : ParticipantSessionRecord)
          → s.session_id ≡ sid
          → Keeping (
              if ltb (ttl env) (env.now - s.last_active_at)
              then modify (invalidate_session env sid) >> raise unauthorized
              else if is_touched env client_ip s
              then touch env sid client_ip s
              else pure s)
      owned_session_kept s own =
          let thrown : Keeping {A = ParticipantSessionRecord} (raise unauthorized) = record {
            after = λ w k. k;
          } in
          Triple-if (ltb (ttl env) (env.now - s.last_active_at))
            (Triple-seq
              (Triple-modify (invalidate_session env sid)
                (λ w. invalidate_sid-Keeps (sid_of env sid) w))
              thrown)
            (Triple-if (is_touched env client_ip s) (touch-Keeps sid client_ip s own)
              (Triple-pure s (λ w k. k)))

  pub list_active_sessions-Keeps : Keeping (list_active_sessions env)
  unfolding list_active_sessions
  list_active_sessions-Keeps = record {
    after = λ w (m, r).
        (All-keep (λ (sid, rec). ltb env.now rec.expires_at) (λ x p own. own) w.memory m, r);
  }

  pub revoke_user_sessions-Keeps :
      (participant_id : String) → Keeping (revoke_user_sessions env participant_id)
  unfolding revoke_user_sessions
  revoke_user_sessions-Keeps participant_id = Triple-bind list_active_sessions-Keeps λ sessions.
      let of_them = keep (λ s. s.participant_id == participant_id) sessions in
      Triple-seq (Triple-modify (invalidate_all env of_them) (invalidate_all-Keeps of_them))
        (Triple-pure (length of_them) (λ w k. k))

  pub revoke_all_sessions-Keeps : Keeping (revoke_all_sessions env)
  unfolding revoke_all_sessions
  revoke_all_sessions-Keeps = Triple-bind list_active_sessions-Keeps λ sessions.
      Triple-seq (Triple-modify (invalidate_all env sessions) (invalidate_all-Keeps sessions))
        (Triple-pure (length sessions) (λ w k. k))
