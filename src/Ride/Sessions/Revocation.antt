-- ===== src/Ride/Sessions/Revocation.antt =====
-- src/subdomains/ride/ride-auth.service.ts (invalidateSession, listActiveSessions,
-- revokeUserSessions): a session that was revoked is gone.
use rac3011_api.Base.{
  ℕ, ◌≤◌, ◌≡◌, refl, sym, ap, ◌∙◌, String, true, false, Option, none, some, List, [], ◌∷◌, arith,
  ltb, any, keep, is_empty, is_some, text_eq, text_eq_iff, text_eq_refl, ◌==◌, if◌then◌else◌,
  get_key, values, get_key-delete_key, any-values, Bool-cases, Option-cases, inl, inr, All, All-map,
  All-keep,
}
use rac3011_api.Ride.Types.{ParticipantSessionRecord, Redis, World, RideEnv}
use rac3011_api.Ride.Sessions.{
  set_unexpired, sort_by_activity, has_dot, sid_of, delete_session, invalidate_sid,
  invalidate_session, find_session, unexpired, all_active, list_active_sessions, invalidate_all,
  revoke_user_sessions,
}
use rac3011_api.Ride.Sessions.Listing.{
  any-sort, any-keep_both, Only, get_key-set_unexpired, is_session_of, session_id_of,
  is_session_of-own,
}

-- An id without dots, as randomUUID makes them.
abbrev pub IsSessionId : List ℕ → Type 0
IsSessionId sid = (has_dot sid ≡ false) × (is_empty sid ≡ false)

module _ {R : Type 0} where
  -- No command of Redis throws, if there is one.
  abbrev pub IsUp : Option (Redis R) → Type 0
  IsUp none = Unit
  IsUp (some c) =
      ((now : ℕ) (sid : List ℕ) (r : R) → is_some (c.get now sid r) ≡ true)
      × ((sid : List ℕ) (r : R) → is_some (c.del sid r) ≡ true)
      × ((now : ℕ) (r : R) → is_some (c.list now r) ≡ true)

module _ {R S : Type 0} where
  -- Every session is kept under its own id, and in Redis until it expires.
  abbrev pub IsKeyed : Option (Redis R) → World R S → Type 0
  IsKeyed none w = All (λ (sid, s). s.session_id ≡ sid) w.memory
  IsKeyed (some c) w =
      (sid : List ℕ) (s : ParticipantSessionRecord)
      → c.stored w.redis sid ≡ some s
      → (s.session_id ≡ sid) × (s.expires_at ≤ c.runs_out w.redis sid)

  -- What the next request would find.
  abbrev held : Option (Redis R) → List ℕ → World R S → Option ParticipantSessionRecord
  held none sid w = get_key sid w.memory
  held (some c) sid w = c.stored w.redis sid

module _ {R S : Type 0} (env : RideEnv R S) where
  held-delete_session :
      (redis : Option (Redis R)) (sid j : List ℕ) (w : World R S)
      → IsUp redis
      → held redis j (delete_session env redis sid w)
        ≡ (if text_eq sid j then none else held redis j w)
  unfolding delete_session
  held-delete_session none sid j w up = get_key-delete_key j sid w.memory
  held-delete_session (some c) sid j w (gets, dels, lists) =
      elim (Option-cases (c.del sid w.redis)) [
        | inl failed ↦ absurd (ground (arith, failed, dels sid w.redis))
        | inr (r, done) ↦ rw done (c.del_stored sid w.redis r j done)
      ]

  invalidate_sid-Gone :
      (sid : Option (List ℕ)) (j : List ℕ) (w : World R S)
      → IsUp env.redis
      → held env.redis j w ≡ none
      → held env.redis j (invalidate_sid env sid w) ≡ none
  unfolding invalidate_sid
  invalidate_sid-Gone none j w up gone = gone
  invalidate_sid-Gone (some sid) j w up gone = elim (Bool-cases (is_empty sid)) [
    | inl empty ↦ rw empty gone
    | inr full ↦ rw full (held-delete_session env.redis sid j w up ∙ ground (arith, gone))
  ]

  invalidate_sid-own :
      (sid : List ℕ) (w : World R S)
      → IsUp env.redis
      → is_empty sid ≡ false
      → held env.redis sid (invalidate_sid env (some sid) w) ≡ none
  unfolding invalidate_sid
  invalidate_sid-own sid w up full =
      rw full (held-delete_session env.redis sid sid w up ∙ rw (text_eq_refl sid))

  sid_of-own : (sid : List ℕ) → has_dot sid ≡ false → sid_of env sid ≡ some sid
  unfolding sid_of
  sid_of-own sid undotted = rw undotted

  invalidate_session-own :
      (sid : List ℕ) (w : World R S)
      → IsUp env.redis
      → IsSessionId sid
      → held env.redis sid (invalidate_session env sid w) ≡ none
  unfolding invalidate_session
  invalidate_session-own sid w up (undotted, full) =
      ap (λ o. held env.redis sid (invalidate_sid env o w)) (sid_of-own sid undotted)
      ∙ invalidate_sid-own sid w up full

  invalidate_all-Gone :
      (sid : List ℕ) (ss : List ParticipantSessionRecord) (w : World R S)
      → IsUp env.redis
      → held env.redis sid w ≡ none
      → held env.redis sid (invalidate_all env ss w) ≡ none
  unfolding invalidate_all invalidate_session
  invalidate_all-Gone sid [] w up gone = gone
  invalidate_all-Gone sid (s ∷ ss) w up gone =
      invalidate_all-Gone sid ss _ up (invalidate_sid-Gone (sid_of env s.session_id) sid w up gone)

  invalidate_all-listed :
      (sid : List ℕ) (ss : List ParticipantSessionRecord) (w : World R S)
      → IsUp env.redis
      → IsSessionId sid
      → any (λ s. text_eq s.session_id sid) ss ≡ true
      → held env.redis sid (invalidate_all env ss w) ≡ none
  unfolding invalidate_all invalidate_session
  invalidate_all-listed sid [] w up id h = cc
  invalidate_all-listed sid (s ∷ ss) w up id h = elim (Bool-cases (text_eq s.session_id sid)) [
    | inl own ↦
        ap (λ k. held env.redis sid (invalidate_all env ss (invalidate_session env k w)))
          ((text_eq_iff s.session_id sid).0 own)
        ∙ invalidate_all-Gone sid ss _ up (invalidate_session-own sid w up id)
    | inr other ↦ invalidate_all-listed sid ss _ up id (ground (arith, h, other))
  ]

  -- Nothing is put in.
  invalidate_sid-kept :
      (sid : Option (List ℕ)) (j : List ℕ) (s : ParticipantSessionRecord) (w : World R S)
      → IsUp env.redis
      → held env.redis j (invalidate_sid env sid w) ≡ some s
      → held env.redis j w ≡ some s
  unfolding invalidate_sid
  invalidate_sid-kept none j s w up h = h
  invalidate_sid-kept (some sid) j s w up h = elim (Bool-cases (is_empty sid)) [
    | inl empty ↦ ground (arith, h, empty)
    | inr full ↦ ground (arith, h, full, held-delete_session env.redis sid j w up)
  ]

  invalidate_all-kept :
      (sid : List ℕ) (ss : List ParticipantSessionRecord) (s : ParticipantSessionRecord)
      (w : World R S)
      → IsUp env.redis
      → held env.redis sid (invalidate_all env ss w) ≡ some s
      → held env.redis sid w ≡ some s
  unfolding invalidate_all invalidate_session
  invalidate_all-kept sid [] s w up h = h
  invalidate_all-kept sid (t ∷ ts) s w up h =
      invalidate_sid-kept (sid_of env t.session_id) sid s w up (invalidate_all-kept sid ts s _ up h)

  -- The list of active sessions has it.
  is_listed :
      (redis : Option (Redis R)) (sid : List ℕ) (s : ParticipantSessionRecord) (w : World R S)
      → IsUp redis
      → IsKeyed redis w
      → ltb env.now s.expires_at ≡ true
      → held redis sid (record w { memory = unexpired env.now w.memory }) ≡ some s
      → any (is_session_of sid s.participant_id) (values (all_active env redis w)) ≡ true
  unfolding all_active
  is_listed none sid s w up keyed active h =
      let own =
        session_id_of sid s (unexpired env.now w.memory)
          (All-keep (λ (k, x). ltb env.now x.expires_at) (λ x kept own. own) w.memory keyed) h in
      any-values (is_session_of sid s.participant_id) sid s (unexpired env.now w.memory) h
        (is_session_of-own sid s own)
  is_listed (some c) sid s w (gets, dels, lists) keyed active h =
      elim (Option-cases (c.list env.now w.redis)) [
        | inl failed ↦ absurd (ground (arith, failed, lists env.now w.redis))
        | inr (xs, read) ↦ rw read (
            any-values (is_session_of sid s.participant_id) sid s
              (set_unexpired env.now xs (unexpired env.now w.memory))
              (get_key-set_unexpired env.now sid s xs (unexpired env.now w.memory) active
                (only xs read)
                (c.list_stored env.now w.redis xs sid s (λ x. text_eq x.session_id sid) read h
                  (ground (arith, active, (keyed sid s h).1))
                  ((text_eq_iff s.session_id sid).1 (keyed sid s h).0)))
              (is_session_of-own sid s (keyed sid s h).0))
      ]
    where
      only : (xs : List ParticipantSessionRecord) → c.list env.now w.redis ≡ some xs → Only sid s xs
      only xs read =
          All-map
            (λ x (key, at_key) e.
              let same_key : key ≡ sid = sym (keyed key x at_key).0 ∙ e in
              let at_sid : c.stored w.redis sid ≡ some x =
                sym (ap (c.stored w.redis) same_key) ∙ at_key in
              let both : some x ≡ some s = sym at_sid ∙ h in cc)
            xs (c.list_sound env.now w.redis xs read)

  held_of_found :
      (redis : Option (Redis R)) (later : ℕ) (sid : List ℕ) (s : ParticipantSessionRecord)
      (w : World R S)
      → IsUp redis
      → find_session env redis later sid w ≡ some s
      → held redis sid w ≡ some s
  unfolding find_session
  held_of_found none later sid s w up found = found
  held_of_found (some c) later sid s w (gets, dels, lists) found =
      elim (Option-cases (c.get later sid w.redis)) [
        | inl failed ↦ absurd (ground (arith, failed, gets later sid w.redis))
        | inr (x, read) ↦
            let found' : x ≡ some s = sym (rw read) ∙ found in
            c.get_stored later sid w.redis s (read ∙ ap some found')
      ]

  -- Where Redis answers, if there is one, and sessions are kept under their own ids, without dots, and
  -- in Redis until they expire: after the sessions of a participant are revoked, every one of them
  -- that a request would still find had run out when they were revoked.
  pub revoke_user_sessions-found :
      (participant_id : String) (later : ℕ) (sid : List ℕ) (s : ParticipantSessionRecord)
      (w : World R S)
      → IsUp env.redis
      → IsKeyed env.redis w
      → IsSessionId sid
      → find_session env env.redis later sid (revoke_user_sessions env participant_id w).1 ≡ some s
      → s.participant_id ≡ participant_id
      → s.expires_at ≤ env.now
  unfolding revoke_user_sessions list_active_sessions is_session_of
  revoke_user_sessions-found participant_id later sid s w up keyed id found of_them =
      elim (Bool-cases (ltb env.now s.expires_at)) [
        | inr ran_out ↦ ground (arith, ran_out)
        | inl active ↦
            let w' : World R S = record w { memory = unexpired env.now w.memory } in
            let sessions = sort_by_activity (values (all_active env env.redis w)) in
            let revoked = keep (λ t. t.participant_id == participant_id) sessions in
            let still =
              held_of_found env.redis later sid s (invalidate_all env revoked w') up found in
            let before = invalidate_all-kept sid revoked s w' up still in
            let listed : any (is_session_of sid participant_id) sessions ≡ true =
              any-sort (is_session_of sid participant_id) (values (all_active env env.redis w))
              ∙ ap (λ q. any (is_session_of sid q) (values (all_active env env.redis w)))
                  (sym of_them)
              ∙ is_listed env.redis sid s w up keyed active before in
            let gone = invalidate_all-listed sid revoked w' up id (
              any-keep_both (λ t. text_eq t.session_id sid)
                (λ t. t.participant_id == participant_id) sessions listed) in
            absurd (ground (arith, gone, still))
      ]

  delete_session-rows :
      (redis : Option (Redis R)) (sid : List ℕ) (w : World R S)
      → (delete_session env redis sid w).participants ≡ w.participants
  unfolding delete_session
  delete_session-rows none sid w = refl
  delete_session-rows (some c) sid w = refl

  invalidate_sid-rows :
      (sid : Option (List ℕ)) (w : World R S)
      → (invalidate_sid env sid w).participants ≡ w.participants
  unfolding invalidate_sid
  invalidate_sid-rows none w = refl
  invalidate_sid-rows (some sid) w = ground (arith, delete_session-rows env.redis sid w)

  pub invalidate_all-rows :
      (ss : List ParticipantSessionRecord) (w : World R S)
      → (invalidate_all env ss w).participants ≡ w.participants
  unfolding invalidate_all invalidate_session
  invalidate_all-rows [] w = refl
  invalidate_all-rows (s ∷ ss) w =
      invalidate_all-rows ss _ ∙ invalidate_sid-rows (sid_of env s.session_id) w
