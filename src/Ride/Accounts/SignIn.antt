-- ===== src/Ride/Accounts/SignIn.antt =====
-- src/subdomains/ride/ride-auth.service.ts (login, getParticipantFromToken): who signs in is known by
-- the token from then on.
use rac3011_api.Base.{
  ℕ, ◌+◌, ◌/◌, ◌≤◌, ◌≡◌, refl, ap, ◌∙◌, String, Bool, true, false, not, ◌&&◌, Option, none, some,
  List, arith, truthy?, get_or, is_empty, is_some, ok, unauthorized,
}
use rac3011_api.Action.{pure, ◌>>=◌, ◌>>◌, bind_returns, raise_if, lift}
use rac3011_api.Ride.Types.{ParticipantSessionRecord, RawPayload, Participant, World, RideEnv}
use rac3011_api.Ride.Tokens.{session_payload, verify_token}
use rac3011_api.Ride.Tokens.Laws.{IsEncoding, verify_token-sign_token}
use rac3011_api.Ride.Sessions.{
  new_session, create_session, ttl, find_session, validate_and_touch_session,
}
use rac3011_api.Ride.Sessions.Admission.{
  IsWritable, Created, create_session-Created, find_session-Created, validate-found,
}
use rac3011_api.Ride.Accounts.{
  SignedIn, sanitize_participant, verify_password, is_identified_by, has_participant_id,
  find_participant, session_token, sign_in_result, check_password, login, check_session,
  active_participant, get_participant_from_token,
}

module _ {R S : Type 0} (env : RideEnv R S) where
  check_password_returns :
      (p : Participant) (password : List ℕ) (w : World R S)
      → p.is_active ≡ true
      → (truthy? p.password_hash && verify_password env password (get_or p.password_hash "")) ≡ true
      → check_password env p password w ≡ (ok tt, w)
  unfolding check_password
  check_password_returns p password w active passes = ground (arith, active, passes)

  login_returns :
      (identifier : String) (password : List ℕ) (ip_address user_agent : Option String)
      (p : Participant) (w : World R S)
      → find_participant env (is_identified_by env identifier) w ≡ some p
      → p.is_active ≡ true
      → (truthy? p.password_hash && verify_password env password (get_or p.password_hash "")) ≡ true
      → IsWritable env.redis
      → (env.production && not (is_some env.redis)) ≡ false
      → let s = new_session env p.id p.email ip_address user_agent in
        (w' : World R S) × (login env identifier password ip_address user_agent w
          ≡ (ok (sign_in_result env p s), w'))
        × Created env s w w'
  unfolding login
  login_returns identifier password ip_address user_agent p w found active passes up allowed =
      let creation = create_session env p.id p.email ip_address user_agent in
      let s = new_session env p.id p.email ip_address user_agent in
      let (w', made, created) =
        create_session-Created env p.id p.email ip_address user_agent w up allowed in
      (
        w',
        rw found (
            bind_returns (check_password env p password)
              (λ u. creation >>= λ t. pure (sign_in_result env p t)) tt w w
              (check_password_returns p password w active passes)
            ∙ bind_returns creation (λ t. pure (sign_in_result env p t)) s w w' made),
        created,
      )

module _ {R S : Type 0} (env : RideEnv R S) where
  -- An active participant who gives the right password.
  abbrev pub may_sign_in : List ℕ → Option Participant → Bool
  may_sign_in password none = false
  may_sign_in password (some p) =
      p.is_active
      && truthy? p.password_hash
      && verify_password env password (get_or p.password_hash "")

module _ {R S : Type 0} (env : RideEnv R S) where
  check_session_returns :
      (sid : List ℕ) (client_ip : Option String) (s : ParticipantSessionRecord) (w w' : World R S)
      → validate_and_touch_session env sid client_ip w ≡ (ok s, w')
      → is_empty sid ≡ false
      → check_session env (some sid) client_ip w ≡ (ok tt, w')
  unfolding check_session
  check_session_returns sid client_ip s w w' admitted full =
      rw full
        (bind_returns (validate_and_touch_session env sid client_ip) (λ t. pure tt) s w w' admitted)

  pub active_participant_returns :
      (id : String) (p : Participant) (w : World R S)
      → find_participant env (has_participant_id env id) w ≡ some p
      → p.is_active ≡ true
      → active_participant env (some id) w ≡ (ok (sanitize_participant p), w)
  unfolding active_participant
  active_participant_returns id p w found active =
      rw found (ap (λ b. (raise_if (not b) unauthorized >> pure (sanitize_participant p)) w) active)

  pub get_participant_returns :
      (token : List ℕ) (client_ip : Option String) (payload : RawPayload) (id : String)
      (p : Participant) (w w' : World R S)
      → verify_token env.crypto env.now token ≡ ok payload
      → check_session env payload.sid client_ip w ≡ (ok tt, w')
      → payload.participant_id ≡ some id
      → find_participant env (has_participant_id env id) w' ≡ some p
      → p.is_active ≡ true
      → get_participant_from_token env token client_ip w ≡ (ok (sanitize_participant p), w')
  unfolding get_participant_from_token
  get_participant_returns token client_ip payload id p w w' verified checked named found active =
      bind_returns (lift (verify_token env.crypto env.now token))
        (λ t. check_session env t.sid client_ip >> active_participant env t.participant_id) payload
        w w (ap (λ r. (r, w)) verified)
      ∙ bind_returns (check_session env payload.sid client_ip)
          (λ u. active_participant env payload.participant_id) tt w w' checked
      ∙ ap (λ o. active_participant env o w') named
      ∙ active_participant_returns id p w' found active

  -- The check of a session that was made and has not run out.
  session_returns :
      (client_ip : Option String) (s : ParticipantSessionRecord) (w : World R S)
      → find_session env env.redis env.now s.session_id w ≡ some s
      → env.now ≤ s.last_active_at + ttl env
      → is_empty s.session_id ≡ false
      → (w' : World R S) × (check_session env (some s.session_id) client_ip w ≡ (ok tt, w'))
        × (w'.participants ≡ w.participants)
  session_returns client_ip s w found early full =
      let (t, w', admitted, rows) = validate-found env s.session_id client_ip s w found early in
      (w', check_session_returns s.session_id client_ip t w w' admitted full, rows)

module _ {R S : Type 0} (env : RideEnv R S) where
  abbrev pub at_time : ℕ → RideEnv R S
  at_time later = record env { now = later }

  -- An active participant who gives the right password, where Redis takes writes, or is absent and
  -- this is not production, is signed in; and for two hours the token that is returned gives back
  -- that participant, if the participant is the one that the database finds by its id, the new
  -- session's id is not empty, and the encoded texts have no dot and are read back.
  pub get_participant-login :
      (identifier : String) (password : List ℕ) (ip_address user_agent client_ip : Option String)
      (p : Participant) (later : ℕ) (w : World R S)
      → find_participant env (is_identified_by env identifier) w ≡ some p
      → find_participant env (has_participant_id env p.id) w ≡ some p
      → p.is_active ≡ true
      → (truthy? p.password_hash && verify_password env password (get_or p.password_hash "")) ≡ true
      → IsWritable env.redis
      → (env.production && not (is_some env.redis)) ≡ false
      → is_empty env.new_session_id ≡ false
      → IsEncoding env.crypto (
          session_payload env.new_session_id p.id p.email p.full_name p.home_district
            (env.now / 1000))
      → later ≤ env.now + ttl env
      → (r : SignedIn) × (w' : World R S) × (login env identifier password ip_address user_agent w
          ≡ (ok r, w'))
        × (r.participant ≡ sanitize_participant p)
        × ((get_participant_from_token (at_time later) r.token client_ip w').0
            ≡ ok (sanitize_participant p))
  get_participant-login identifier password ip_address user_agent client_ip p later w found by_id
        active passes up allowed full encoding early =
      let s = new_session env p.id p.email ip_address user_agent in
      let (w', signed, created) =
        login_returns env identifier password ip_address user_agent p w found active passes up
          allowed in
      let there =
        find_session-Created (at_time later) env.redis later s w' created.remembered
          created.in_redis early in
      let (w'', checked, rows) = session_returns (at_time later) client_ip s w' there early full in
      let still : find_participant env (has_participant_id env p.id) w'' ≡ some p =
        ap (env.table.find_first (has_participant_id env p.id)) (rows ∙ created.rows_kept)
        ∙ by_id in
      (
        sign_in_result env p s,
        w',
        signed,
        refl,
        ap (λ r. r.0)
            (get_participant_returns (at_time later) (session_token env p s) client_ip
              (session_payload env.new_session_id p.id p.email p.full_name p.home_district
                (env.now / 1000))
              p.id p w' w''
              (verify_token-sign_token env.crypto env.now later env.new_session_id p.id p.email
                p.full_name p.home_district encoding early)
              checked refl still active),
      )
