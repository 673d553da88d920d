-- ===== src/Ride/Accounts/Resets.antt =====
-- src/subdomains/ride/ride-auth.service.ts (resetPassword): what a reset does, and what else its token
-- is good for.
use mathlib.Core.Path.{subst}
use rac3011_api.Base.{
  ℕ, ◌+◌, ◌*◌, ◌/◌, ◌≤◌, ◌≡◌, refl, ap, ◌∙◌, sym, String, true, false, Option, none, some, List,
  map, ltb, length, if◌then◌else◌, Result, ok, err, HttpError, bad_request, Option-cases,
  Bool-cases, Result-cases, ◌==◌, inl, inr,
}
use rac3011_api.Ride.Types.{ParticipantSessionRecord, Participant, Redis, World, RideEnv}
use rac3011_api.Ride.Tokens.{reset_payload, sign_password_reset_token, verify_password_reset_token}
use rac3011_api.Ride.Tokens.Laws.{IsEncoding, verify_token-sign_password_reset_token}
use rac3011_api.Ride.Sessions.{find_session, revoke_user_sessions, list_active_sessions}
use rac3011_api.Ride.Sessions.Revocation.{
  IsUp, IsKeyed, IsSessionId, invalidate_all-rows, revoke_user_sessions-found,
}
use rac3011_api.Ride.Sessions.Keys.{KeepsKeys}
use rac3011_api.Ride.Accounts.{
  sanitize_participant, has_participant_id, find_participant, check_session,
  get_participant_from_token, reset_password,
}
use rac3011_api.Ride.Accounts.SignIn.{get_participant_returns}

module _ {R S : Type 0} (env : RideEnv R S) where
  -- For an hour, and with no session at all, the token that was mailed for the reset of a password
  -- is taken for a signed-in active participant's, and nothing is changed. The encoded texts have
  -- no dot and are read back.
  pub get_participant-reset_token :
      (signed_at : ℕ) (id email : String) (client_ip : Option String) (p : Participant)
      (w : World R S)
      → IsEncoding env.crypto (reset_payload id email (signed_at / 1000))
      → env.now ≤ signed_at + 3600 * 1000
      → find_participant env (has_participant_id env id) w ≡ some p
      → p.is_active ≡ true
      → get_participant_from_token env
          (sign_password_reset_token env.crypto signed_at id email)
          client_ip
          w
        ≡ (ok (sanitize_participant p), w)
  unfolding check_session
  get_participant-reset_token signed_at id email client_ip p w encoding early found active =
      get_participant_returns env (sign_password_reset_token env.crypto signed_at id email)
        client_ip (reset_payload id email (signed_at / 1000)) id p w w
        (verify_token-sign_password_reset_token env.crypto signed_at env.now id email encoding
          early)
        refl refl found active

  IsKeyed-rows :
      (redis : Option (Redis R)) (w : World R S) (rows : S)
      → KeepsKeys redis w
      → IsKeyed redis (record w { participants = rows })
  IsKeyed-rows none w rows (m, r) = m
  IsKeyed-rows (some c) w rows (m, r) = r

  abbrev reset_rows : String → List ℕ → World R S → World R S
  reset_rows id new_password w = record w {
    participants =
        env.table.update_many (has_participant_id env id)
          (λ r. record r { password_hash = some (env.hash new_password) }) w.participants;
  }

  reset_password_returns :
      (token new_password : List ℕ) (id : String) (email : Option String) (p : Participant)
      (w : World R S)
      → ltb (length new_password) 6 ≡ false
      → verify_password_reset_token env.crypto env.now token ≡ ok (id, email)
      → find_participant env (has_participant_id env id) w ≡ some p
      → p.is_active ≡ true
      → reset_password env token new_password w
        ≡ (ok tt, (revoke_user_sessions env id (reset_rows id new_password w)).1)
  unfolding reset_password revoke_user_sessions list_active_sessions
  reset_password_returns token new_password id email p w long verified found active =
      rw long (rw verified (rw found (rw active)))

  pub data ResetOutcome (token new_password : List ℕ) (w : World R S)
      : Result (Unit {0}) → World R S → Type 0 where
    thrown : (e : HttpError) → ResetOutcome token new_password w (err e) w
    done :
        (id : String) (email : Option String) (p : Participant) (w' : World R S)
        → ltb (length new_password) 6 ≡ false
        → verify_password_reset_token env.crypto env.now token ≡ ok (id, email)
        → find_participant env (has_participant_id env id) w ≡ some p
        → p.is_active ≡ true
        → env.table.rows w'.participants
          ≡ map
              (λ r.
                if r.id == id then record r { password_hash = some (env.hash new_password) } else r)
              (env.table.rows w.participants)
        → ((later : ℕ) (sid : List ℕ) (s : ParticipantSessionRecord)
            → IsSessionId sid
            → find_session env env.redis later sid w' ≡ some s
            → s.participant_id ≡ id
            → s.expires_at ≤ env.now)
        → ResetOutcome token new_password w (ok tt) w'

  module _ (token new_password : List ℕ) (w : World R S) where
    refused :
        (e : HttpError)
        → reset_password env token new_password w ≡ (err e, w)
        → let (r, w') = reset_password env token new_password w in
          ResetOutcome token new_password w r w'
    refused e h = subst (λ q. ResetOutcome token new_password w q.0 q.1) (sym h) (thrown e)

    was_reset :
        (id : String) (email : Option String) (p : Participant)
        → ltb (length new_password) 6 ≡ false
        → verify_password_reset_token env.crypto env.now token ≡ ok (id, email)
        → find_participant env (has_participant_id env id) w ≡ some p
        → p.is_active ≡ true
        → IsUp env.redis
        → KeepsKeys env.redis w
        → let (r, w') = reset_password env token new_password w in
          ResetOutcome token new_password w r w'
    unfolding revoke_user_sessions list_active_sessions
    was_reset id email p long verified found active up keyed =
        let w1 = reset_rows id new_password w in
        let w' = (revoke_user_sessions env id w1).1 in
        subst (λ q. ResetOutcome token new_password w q.0 q.1)
          (sym (reset_password_returns token new_password id email p w long verified found active))
          (done id email p w' long verified found active
            (ap env.table.rows (invalidate_all-rows env _ _)
              ∙ env.table.rows_update_many (has_participant_id env id)
                  (λ r. record r { password_hash = some (env.hash new_password) }) w.participants)
            (λ later sid s named there of_them.
              revoke_user_sessions-found env id later sid s w1 up (IsKeyed-rows env.redis w _ keyed)
                named there of_them))

    -- Where Redis answers, if there is one, and sessions are kept under their own ids, and in Redis
    -- until they expire: the reset of a password either throws and changes nothing, or the token
    -- verifies as one for a reset, the password has at least six code units, the participant of the
    -- token is found and active, and then every row with that id and no other has the hash of the
    -- new password, and every session of that participant that a request would still find, under an
    -- id that is not empty and has no dots, had run out by then.
    pub reset_password-ResetOutcome :
        IsUp env.redis
        → KeepsKeys env.redis w
        → let (r, w') = reset_password env token new_password w in
          ResetOutcome token new_password w r w'
    unfolding reset_password
    reset_password-ResetOutcome up keyed = elim (Bool-cases (ltb (length new_password) 6)) [
      | inl short ↦ refused bad_request (rw short)
      | inr long ↦ elim (Result-cases (verify_password_reset_token env.crypto env.now token)) [
        | inl (e, failed) ↦ refused e (rw long (rw failed))
        | inr ((id, email), verified) ↦
            elim (Option-cases (find_participant env (has_participant_id env id) w)) [
              | inl missing ↦ refused bad_request (rw long (rw verified (rw missing)))
              | inr (p, found) ↦ elim (Bool-cases p.is_active) [
                | inl active ↦ was_reset id email p long verified found active up keyed
                | inr left ↦ refused bad_request (rw long (rw verified (rw found (rw left))))
              ]
            ]
      ]
    ]
