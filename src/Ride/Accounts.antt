-- ===== src/Ride/Accounts.antt =====
-- src/subdomains/ride/ride-auth.service.ts: signing in, the participant behind a token, and the
-- reset of a password.
pub mod SignIn
pub mod Resets
use rac3011_api.Base.{
  ℕ, String, Bool, true, false, not, ◌&&◌, ◌||◌, Option, none, some, List, [], ◌∷◌, ◌++◌, ltb, eqb,
  if◌then◌else◌, ◌==◌, truthy, truthy?, is_text, get_or, is_empty, length, codes, Result, ok, err,
  bad_request, unauthorized, internal,
}
use rac3011_api.Action.{Action, pure, raise_if, lift, gets, or_raise, modify, ◌>>=◌, ◌>>◌}
use rac3011_api.Effects.{notify}
use rac3011_api.Ride.Types.{ParticipantSessionRecord, RawPayload, Participant, World, RideEnv}
use rac3011_api.Ride.Tokens.{
  sign_token, sign_password_reset_token, verify_token, verify_password_reset_token,
}
use rac3011_api.Ride.Sessions.{create_session, validate_and_touch_session, revoke_user_sessions}

-- A participant without `passwordHash`.
pub record SafeParticipant : Type 0 where
  pub id : String
  pub email : String
  pub rotary_id : Option String
  pub full_name : String
  pub home_district : String
  pub is_active : Bool

abbrev pub sanitize_participant : Participant → SafeParticipant
sanitize_participant p = record {
  id = p.id;
  email = p.email;
  rotary_id = p.rotary_id;
  full_name = p.full_name;
  home_district = p.home_district;
  is_active = p.is_active;
}

pub record SignedIn : Type 0 where
  pub participant : SafeParticipant
  pub token : List ℕ
  pub session_id : List ℕ
  pub ip_address : Option String
  pub expires_at : ℕ

-- `hash.startsWith('$2')`
starts_as_bcrypt : List ℕ → Bool
starts_as_bcrypt (c ∷ d ∷ _) = eqb c 36 && eqb d 50
starts_as_bcrypt _ = false

module _ {R S : Type 0} (env : RideEnv R S) where
  abbrev pub Handler : Type 0 → Type 0
  Handler A = Action (World R S) A

  unfoldable pub verify_password : List ℕ → String → Bool
  unfolding starts_as_bcrypt
  verify_password password hash =
      if not (truthy hash) || not (starts_as_bcrypt (codes hash))
      then false
      else env.compare password hash

  -- The condition of the query in login and requestPasswordReset.
  abbrev pub is_identified_by : String → Participant → Bool
  is_identified_by identifier p =
      env.same_ignoring_case p.email (env.to_lower_case (env.trim identifier))
      || is_text p.rotary_id (env.trim identifier)

  abbrev pub has_participant_id : String → Participant → Bool
  has_participant_id id p = p.id == id

  abbrev pub find_participant : (Participant → Bool) → World R S → Option Participant
  find_participant p w = env.table.find_first p w.participants

  abbrev pub session_token : Participant → ParticipantSessionRecord → List ℕ
  session_token p s =
      sign_token env.crypto env.now s.session_id p.id p.email p.full_name p.home_district

  -- The checks of login on the participant that was found.
  unfoldable pub check_password : Participant → List ℕ → Handler (Unit {0})
  check_password p password = do
    raise_if (not p.is_active) unauthorized
    raise_if (not (truthy? p.password_hash)) unauthorized
    raise_if (not (verify_password password (get_or p.password_hash ""))) unauthorized

  abbrev pub sign_in_result : Participant → ParticipantSessionRecord → SignedIn
  sign_in_result p s = record {
    participant = sanitize_participant p;
    token = session_token p s;
    session_id = s.session_id;
    ip_address = s.ip_address;
    expires_at = s.expires_at;
  }

  unfoldable pub login : String → List ℕ → Option String → Option String → Handler SignedIn
  login identifier password ip_address user_agent = do
    found ← gets (find_participant (is_identified_by identifier))
    p ← or_raise found unauthorized
    check_password p password
    s ← create_session env p.id p.email ip_address user_agent
    pure (sign_in_result p s)

  -- `if (payload.sid) await this.validateAndTouchSession(...)`
  unfoldable pub check_session : Option (List ℕ) → Option String → Handler (Unit {0})
  check_session none client_ip w = (ok tt, w)
  check_session (some sid) client_ip w =
      if is_empty sid
      then (ok tt, w)
      else (validate_and_touch_session env sid client_ip >>= λ s. pure tt) w

  -- From the query for the participant on. A payload without an id is no condition of the client's,
  -- and makes it throw.
  unfoldable pub active_participant : Option String → Handler SafeParticipant
  active_participant participant_id = do
    id ← or_raise participant_id internal
    found ← gets (find_participant (has_participant_id id))
    p ← or_raise found unauthorized
    raise_if (not p.is_active) unauthorized
    pure (sanitize_participant p)

  unfoldable pub get_participant_from_token : List ℕ → Option String → Handler SafeParticipant
  get_participant_from_token token client_ip = do
    payload ← lift (verify_token env.crypto env.now token)
    check_session payload.sid client_ip
    active_participant payload.participant_id

  -- The token goes into the mail, whose data is left out. Its sending is caught if it throws.
  unfoldable pub request_password_reset : String → Handler (Unit {0})
  request_password_reset identifier w = elim (find_participant (is_identified_by identifier) w) [
    | none ↦ (ok tt, w)
    | some p ↦
        if p.is_active && env.has_notifications
        then (
          ok tt,
          record w {
            effects =
                w.effects
                ++ notify "password-reset" (record { user_id = none; email = some p.email } ∷ [])
                  ∷ [];
          },
        )
        else (ok tt, w)
  ]

  unfoldable pub reset_password : List ℕ → List ℕ → Handler (Unit {0})
  reset_password token new_password = do
    raise_if (ltb (length new_password) 6) bad_request
    reset ← lift (verify_password_reset_token env.crypto env.now token)
    found ← gets (find_participant (has_participant_id reset.0))
    p ← or_raise found bad_request
    raise_if (not p.is_active) bad_request
    modify (λ w. record w {
      participants =
          env.table.update_many (has_participant_id reset.0)
            (λ r. record r { password_hash = some (env.hash new_password) }) w.participants;
    })
    revoked ← revoke_user_sessions env reset.0
    pure tt
