-- ===== src/Ride/Tokens.antt =====
-- src/subdomains/ride/ride-auth.service.ts: signing and verifying the tokens of sessions and of
-- password resets.
pub mod Laws
use rac3011_api.Base.{
  ℕ, ◌+◌, ◌/◌, ◌*◌, String, Bool, true, false, not, ◌&&◌, ◌||◌, Option, none, some, List, [], ◌∷◌,
  ◌++◌, eqb, ltb, if◌then◌else◌, truthy?, is_text, text_eq, is_empty, split_dots, HttpError, Result,
  ok, err, bad_request, unauthorized,
}
use rac3011_api.Ride.Types.{RawPayload, Crypto, participant_session_ttl_seconds}

abbrev pub reset_kind : String
reset_kind = "participant_password_reset"

-- `payload.exp && payload.exp < now`
abbrev pub is_expired : ℕ → Option ℕ → Bool
is_expired now none = false
is_expired now (some exp) = not (eqb exp 0) && ltb exp now

abbrev pub session_payload : List ℕ → String → String → String → String → ℕ → RawPayload
session_payload sid participant_id email full_name home_district now = record {
  sid = some sid;
  participant_id = some participant_id;
  email = some email;
  full_name = some full_name;
  home_district = some home_district;
  kind = none;
  iat = some now;
  exp = some (now + participant_session_ttl_seconds);
}

abbrev pub reset_payload : String → String → ℕ → RawPayload
reset_payload participant_id email now = record {
  sid = none;
  participant_id = some participant_id;
  email = some email;
  full_name = none;
  home_district = none;
  kind = some reset_kind;
  iat = some now;
  exp = some (now + 3600);
}

module _ (crypto : Crypto) where
  abbrev pub signed : List ℕ → List ℕ → List ℕ
  signed header body = header ++ 46 ∷ body

  abbrev pub sign : RawPayload → List ℕ
  sign payload =
      let body = crypto.encode payload in
      crypto.header ++ 46 ∷ (body ++ 46 ∷ crypto.digest (signed crypto.header body))

  -- `now` is in milliseconds, as it is for the others below.
  unfoldable pub sign_token : ℕ → List ℕ → String → String → String → String → List ℕ
  sign_token now sid participant_id email full_name home_district =
      sign (session_payload sid participant_id email full_name home_district (now / 1000))

  unfoldable pub sign_password_reset_token : ℕ → String → String → List ℕ
  sign_password_reset_token now participant_id email =
      sign (reset_payload participant_id email (now / 1000))

  check_expiry : HttpError → ℕ → Option RawPayload → Result RawPayload
  check_expiry e now none = err e
  check_expiry e now (some payload) =
      if is_expired (now / 1000) payload.exp then err e else ok payload

  -- From `parts.length !== 3` on; both kinds of token are checked alike, with other exceptions.
  verify_parts : HttpError → ℕ → List (List ℕ) → Result RawPayload
  unfolding check_expiry
  verify_parts e now (header ∷ body ∷ signature ∷ []) =
      if not (text_eq signature (crypto.digest (signed header body)))
      then err e
      else check_expiry e now (crypto.decode body)
  verify_parts e now _ = err e

  verify_signed : HttpError → ℕ → List ℕ → Result RawPayload
  unfolding verify_parts
  verify_signed e now token =
      if is_empty token then err e else verify_parts e now (split_dots [] token)

  unfoldable pub verify_token : ℕ → List ℕ → Result RawPayload
  unfolding verify_signed
  verify_token now token = verify_signed unauthorized now token

  -- `{ participantId, email }` of a payload of the kind for resets.
  reset_of : RawPayload → Result (String × Option String)
  reset_of payload = elim payload.participant_id [
    | none ↦ err bad_request
    | some id ↦
        if not (is_text payload.kind reset_kind) || not (truthy? (some id))
        then err bad_request
        else ok (id, payload.email)
  ]

  reset_result : Result RawPayload → Result (String × Option String)
  unfolding reset_of
  reset_result (err e) = err e
  reset_result (ok payload) = reset_of payload

  unfoldable pub verify_password_reset_token : ℕ → List ℕ → Result (String × Option String)
  unfolding verify_signed reset_result
  verify_password_reset_token now token = reset_result (verify_signed bad_request now token)
