-- ===== src/Ride/Tokens/Laws.antt =====
-- src/subdomains/ride/ride-auth.service.ts: what was signed is verified until it expires, and each
-- kind of token as what it is.
use rac3011_api.Base.{
  ℕ, ◌+◌, ◌/◌, ◌≤◌, ◌≡◌, ap, ◌∙◌, String, true, false, some, List, [], ◌∷◌, ◌++◌, arith, all,
  truthy, text_eq_refl, is_empty-append, split_dots, no_dot, split_dots-part, split_dots-last,
  HttpError, ok, err, bad_request, Bool-cases, inl, inr, ◌*◌,
}
use rac3011_api.Ride.Types.{RawPayload, Crypto, participant_session_ttl_seconds}
use rac3011_api.Ride.Tokens.{
  session_payload, reset_payload, signed, sign, sign_token, sign_password_reset_token, check_expiry,
  is_expired, verify_parts, verify_signed, verify_token, reset_of, reset_result,
  verify_password_reset_token,
}

-- What is relied on for one payload: base64url has no dot, and the body is read back.
pub record IsEncoding (crypto : Crypto) (p : RawPayload) : Type 0 where
  pub header_no_dot : all no_dot crypto.header ≡ true
  pub encode_no_dot : all no_dot (crypto.encode p) ≡ true
  pub digest_no_dot : (s : List ℕ) → all no_dot (crypto.digest s) ≡ true
  pub decode_encode : crypto.decode (crypto.encode p) ≡ some p

module _ (crypto : Crypto) where
  -- What is left to check of a signed token is its expiry.
  verify-sign_checked :
      (e : HttpError) (later : ℕ) (p : RawPayload)
      → IsEncoding crypto p
      → verify_signed crypto e later (sign crypto p) ≡ check_expiry crypto e later (some p)
  unfolding verify_signed verify_parts
  verify-sign_checked e later p encoding =
      let body = crypto.encode p in
      let signature = crypto.digest (signed crypto crypto.header body) in
      let parts : split_dots [] (sign crypto p) ≡ crypto.header ∷ body ∷ signature ∷ [] =
        split_dots-part [] crypto.header (body ++ 46 ∷ signature) encoding.header_no_dot
        ∙ ap (λ t. crypto.header ∷ t)
            (split_dots-part [] body signature encoding.encode_no_dot
              ∙ ap (λ t. body ∷ t) (split_dots-last [] signature (encoding.digest_no_dot _))) in
      rw (is_empty-append crypto.header (body ++ 46 ∷ signature) 46)
        (rw parts (rw (text_eq_refl signature) (rw encoding.decode_encode)))

  verify-sign :
      (e : HttpError) (later : ℕ) (p : RawPayload)
      → IsEncoding crypto p
      → is_expired (later / 1000) p.exp ≡ false
      → verify_signed crypto e later (sign crypto p) ≡ ok p
  unfolding check_expiry
  verify-sign e later p encoding fresh = verify-sign_checked e later p encoding ∙ rw fresh

  verify-sign_expired :
      (e : HttpError) (later : ℕ) (p : RawPayload)
      → IsEncoding crypto p
      → is_expired (later / 1000) p.exp ≡ true
      → verify_signed crypto e later (sign crypto p) ≡ err e
  unfolding check_expiry
  verify-sign_expired e later p encoding old = verify-sign_checked e later p encoding ∙ rw old

-- Where the encoded texts have no dot and the body is read back: the token of a session is verified
-- for two hours after it was signed, and gives back what was signed.
pub verify_token-sign_token :
    (crypto : Crypto) (now later : ℕ) (sid : List ℕ) (id email full_name home_district : String)
    → IsEncoding crypto (session_payload sid id email full_name home_district (now / 1000))
    → later ≤ now + participant_session_ttl_seconds * 1000
    → verify_token crypto later (sign_token crypto now sid id email full_name home_district)
      ≡ ok (session_payload sid id email full_name home_district (now / 1000))
unfolding verify_token sign_token
verify_token-sign_token crypto now later sid id email full_name home_district encoding early =
    verify-sign crypto _ later _ encoding (ground (arith, early))

-- Where the encoded texts have no dot and the body is read back: the token of a password reset gives
-- back the participant it was signed for, for an hour after it was signed.
pub verify_password_reset_token-sign :
    (crypto : Crypto) (now later : ℕ) (id email : String)
    → IsEncoding crypto (reset_payload id email (now / 1000))
    → later ≤ now + 3600 * 1000
    → truthy id ≡ true
    → verify_password_reset_token crypto later (sign_password_reset_token crypto now id email)
      ≡ ok (id, some email)
unfolding verify_password_reset_token sign_password_reset_token reset_result reset_of
verify_password_reset_token-sign crypto now later id email encoding early named =
    rw
      (verify-sign crypto bad_request later (reset_payload id email (now / 1000)) encoding
        (ground (arith, early)))
      (ground (arith, named))

-- Where the encoded texts have no dot and the body is read back: the token of a session resets no
-- password, expired or not.
pub verify_password_reset_token-sign_token :
    (crypto : Crypto) (now later : ℕ) (sid : List ℕ) (id email full_name home_district : String)
    → IsEncoding crypto (session_payload sid id email full_name home_district (now / 1000))
    → verify_password_reset_token crypto later
        (sign_token crypto now sid id email full_name home_district)
      ≡ err bad_request
unfolding verify_password_reset_token sign_token reset_result reset_of
verify_password_reset_token-sign_token crypto now later sid id email full_name home_district
      encoding =
    let p = session_payload sid id email full_name home_district (now / 1000) in
    elim (Bool-cases (is_expired (later / 1000) p.exp)) [
      | inl old ↦ rw (verify-sign_expired crypto bad_request later p encoding old)
      | inr fresh ↦ rw (verify-sign crypto bad_request later p encoding fresh)
    ]

-- The check of session tokens takes the token of a password reset as well.
pub verify_token-sign_password_reset_token :
    (crypto : Crypto) (now later : ℕ) (id email : String)
    → IsEncoding crypto (reset_payload id email (now / 1000))
    → later ≤ now + 3600 * 1000
    → verify_token crypto later (sign_password_reset_token crypto now id email)
      ≡ ok (reset_payload id email (now / 1000))
unfolding verify_token sign_password_reset_token
verify_token-sign_password_reset_token crypto now later id email encoding early =
    verify-sign crypto _ later _ encoding (ground (arith, early))
