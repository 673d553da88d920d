-- ===== src/Events/Token/RoundTrip.antt =====
-- src/events/event-checkin-token.util.ts: a signed token is verified until it expires, and only what
-- was signed with the secret is.
use rac3011_api.Base.{
  ℕ, ◌+◌, ◌≤◌, ◌≡◌, ap, ◌∙◌, String, true, false, some, List, [], ◌∷◌, ◌++◌, arith, all, truthy,
  is_empty, is_empty-append, no_dot, split_dots, split_dots-last, split_dots-part, text_eq_refl,
}
use rac3011_api.Events.Types.{Payload}
use rac3011_api.Events.Token.{
  Crypto, check_payload, signed, sign_checkin_token, verify_parts, verify_checkin_token,
}

-- What is relied on for one payload: base64url has no dot, and the body is read back.
pub record IsEncoding (crypto : Crypto) (p : Payload) : Type 0 where
  pub header_no_dot : all no_dot crypto.header ≡ true
  pub encode_no_dot : all no_dot (crypto.encode p) ≡ true
  pub digest_no_dot : (s : List ℕ) → all no_dot (crypto.digest s) ≡ true
  pub decode_encode :
      crypto.decode (crypto.encode p)
      ≡ some record {
        jti = some p.jti;
        eid = some p.eid;
        mid = some p.mid;
        iat = some p.iat;
        exp = some p.exp;
      }

abbrev pub signed_payload : ℕ → String → String → String → ℕ → Payload
signed_payload now jti event_id member_id ttl = record {
  jti = jti;
  eid = event_id;
  mid = member_id;
  iat = now;
  exp = now + ttl;
}

module _ (crypto : Crypto) (now later : ℕ) (jti event_id member_id : String) (ttl : ℕ)
    (encoding : IsEncoding crypto (signed_payload now jti event_id member_id ttl)) where
  abbrev body_of : Payload
  body_of = signed_payload now jti event_id member_id ttl

  split_token :
      split_dots [] (sign_checkin_token crypto now jti event_id member_id ttl)
      ≡ crypto.header
        ∷ crypto.encode body_of
        ∷ crypto.digest (signed crypto crypto.header (crypto.encode body_of))
        ∷ []
  unfolding sign_checkin_token
  split_token =
      let body = crypto.encode body_of in
      let signature = crypto.digest (signed crypto crypto.header body) in
      split_dots-part [] crypto.header (body ++ 46 ∷ signature) encoding.header_no_dot
      ∙ ap (λ t. crypto.header ∷ t)
          (split_dots-part [] body signature encoding.encode_no_dot
            ∙ ap (λ t. body ∷ t) (split_dots-last [] signature (encoding.digest_no_dot _)))

  verify_own :
      later ≤ now + ttl
      → truthy jti ≡ true
      → truthy event_id ≡ true
      → truthy member_id ≡ true
      → verify_parts crypto later (
          crypto.header
          ∷ crypto.encode body_of
          ∷ crypto.digest (signed crypto crypto.header (crypto.encode body_of))
          ∷ [])
        ≡ some body_of
  unfolding verify_parts check_payload
  verify_own fresh j e m =
      rw (text_eq_refl (crypto.digest (signed crypto crypto.header (crypto.encode body_of))))
        (rw encoding.decode_encode (ground (arith, fresh, j, e, m)))

  -- Where the encoded texts have no dot and the body is read back: a token that is signed with ids that are not
  -- empty is verified until it expires, and gives back the payload that was signed.
  pub verify-sign_checkin_token :
      later ≤ now + ttl
      → truthy jti ≡ true
      → truthy event_id ≡ true
      → truthy member_id ≡ true
      → verify_checkin_token crypto later (sign_checkin_token crypto now jti event_id member_id ttl)
        ≡ some (signed_payload now jti event_id member_id ttl)
  unfolding verify_checkin_token
  verify-sign_checkin_token fresh j e m =
      let full : is_empty (sign_checkin_token crypto now jti event_id member_id ttl) ≡ false =
        unfold sign_checkin_token in is_empty-append crypto.header _ 46 in
      rw full (rw split_token (verify_own fresh j e m))
