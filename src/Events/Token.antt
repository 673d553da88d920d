-- ===== src/Events/Token.antt =====
-- src/events/event-checkin-token.util.ts: signing and verifying the token of an entry pass. The
-- digest, the encodings and JSON (node:crypto, Buffer, JSON) are parameters.
pub mod RoundTrip
use rac3011_api.Base.{
  ℕ, ◌+◌, ◌*◌, String, Bool, true, false, not, ◌&&◌, ◌||◌, Option, none, some, List, [], ◌∷◌, ◌++◌,
  eqb, ltb, if◌then◌else◌, truthy?, get_or, is_empty, split_dots, text_eq,
}
use rac3011_api.Events.Types.{Payload}

-- What a decoded body may hold: any field can be missing.
pub record RawPayload : Type 0 where
  pub jti : Option String
  pub eid : Option String
  pub mid : Option String
  pub iat : Option ℕ
  pub exp : Option ℕ

pub record Crypto : Type 0 where
  -- The encoded header `{ alg: 'HS256', typ: 'JWT' }`.
  pub header : List ℕ
  -- `Buffer.from(JSON.stringify(payload)).toString('base64url')`
  pub encode : Payload → List ℕ
  -- `JSON.parse` of the decoded body; `none` where the code throws.
  pub decode : List ℕ → Option RawPayload
  -- The digest of a text under the secret, in base64url.
  pub digest : List ℕ → List ℕ

abbrev pub checkin_token_ttl_seconds : ℕ
checkin_token_ttl_seconds = 86400 * 7

-- `payload.exp && payload.exp < now`
abbrev pub is_expired : ℕ → Option ℕ → Bool
is_expired now none = false
is_expired now (some exp) = not (eqb exp 0) && ltb exp now

abbrev pub payload_of : RawPayload → Payload
payload_of raw = record {
  jti = get_or raw.jti "";
  eid = get_or raw.eid "";
  mid = get_or raw.mid "";
  iat = get_or raw.iat 0;
  exp = get_or raw.exp 0;
}

-- The checks of the decoded body.
unfoldable pub check_payload : ℕ → Option RawPayload → Option Payload
check_payload now none = none
check_payload now (some raw) =
    if is_expired now raw.exp
    then none
    else if not (truthy? raw.eid) || not (truthy? raw.mid) || not (truthy? raw.jti)
    then none
    else some (payload_of raw)

module _ (crypto : Crypto) where
  abbrev pub signed : List ℕ → List ℕ → List ℕ
  signed header body = header ++ 46 ∷ body

  -- `now` is in seconds, `jti` the random id.
  unfoldable pub sign_checkin_token : ℕ → String → String → String → ℕ → List ℕ
  sign_checkin_token now jti event_id member_id ttl_seconds =
      let body =
        crypto.encode record {
          jti = jti;
          eid = event_id;
          mid = member_id;
          iat = now;
          exp = now + ttl_seconds;
        } in
      crypto.header ++ 46 ∷ (body ++ 46 ∷ crypto.digest (signed crypto.header body))

  -- From the comparison of the signatures on.
  unfoldable pub verify_parts : ℕ → List (List ℕ) → Option Payload
  verify_parts now (header ∷ body ∷ signature ∷ []) =
      if not (text_eq signature (crypto.digest (signed header body)))
      then none
      else check_payload now (crypto.decode body)
  verify_parts now _ = none

  unfoldable pub verify_checkin_token : ℕ → List ℕ → Option Payload
  verify_checkin_token now token =
      if is_empty token then none else verify_parts now (split_dots [] token)
