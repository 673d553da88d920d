-- ===== src/Ride/Tests.antt =====
-- Runs of the sign-in of participants, and instances of its theorems.
mod ListRedis
use rac3011_api.Base.{
  ℕ, ◌+◌, ◌*◌, ◌/◌, ◌≤◌, String, ◌≡◌, refl, true, false, Option, none, some, List, [], ◌∷◌, arith,
  eqb, length, codes, get_key, set_key, delete_key, split_dots, ok, err, bad_request, unauthorized,
  ◌==◌, ◌&&◌, truthy?, get_or, text_eq, text_eq_iff, Bool-cases, inl, inr, ap, sym, ◌∙◌,
}
use rac3011_api.Db.ListTable.{list_table}
use rac3011_api.Ride.Types.{
  ParticipantSessionRecord, RawPayload, Crypto, Participant, Redis, World, RideEnv,
  same_participant, max_memory_sessions,
}
use rac3011_api.Ride.Tokens.{
  session_payload, reset_payload, sign_token, sign_password_reset_token, verify_token,
  verify_password_reset_token,
}
use rac3011_api.Ride.Tokens.Laws.{
  IsEncoding, verify_token-sign_token, verify_password_reset_token-sign,
  verify_password_reset_token-sign_token,
}
use rac3011_api.Ride.Sessions.{
  Memory, drop_oldest, evict_expired_memory_sessions, set_unexpired, insert_by_activity,
  sort_by_activity, remember, write_session, create_session, sid_of, delete_session, invalidate_sid,
  invalidate_session, find_session, touch, validate_and_touch_session, all_active,
  list_active_sessions, invalidate_all, revoke_user_sessions, new_session,
}
use rac3011_api.Ride.Sessions.Bounds.{length-create_session}
use rac3011_api.Ride.Sessions.Keys.{KeepsKeys}
use rac3011_api.Ride.Sessions.History.{here, next, created, revoked, Reach-KeepsKeys}
use rac3011_api.Ride.Accounts.{
  SignedIn, sanitize_participant, verify_password, is_identified_by, find_participant,
  check_password, login, check_session, active_participant, get_participant_from_token,
  request_password_reset, reset_password,
}
use rac3011_api.Ride.Accounts.SignIn.{get_participant-login, at_time}
use rac3011_api.Ride.Accounts.Resets
use rac3011_api.Ride.Accounts.Resets.{get_participant-reset_token, reset_password-ResetOutcome}
use rac3011_api.Ride.Tests.ListRedis.{Entries, list_redis, redis_without_del}

run : Unit {0}
unfolding split_dots sign_token sign_password_reset_token verify_token verify_password_reset_token
    drop_oldest evict_expired_memory_sessions set_unexpired insert_by_activity sort_by_activity
    remember write_session create_session sid_of delete_session invalidate_sid invalidate_session
    find_session touch validate_and_touch_session all_active list_active_sessions invalidate_all
    revoke_user_sessions verify_password check_password login check_session active_participant
    get_participant_from_token request_password_reset reset_password
run = tt

abbrev sid : List ℕ
sid = codes "s1"

abbrev crypto : RawPayload → Crypto
crypto payload = record {
  header = codes "h";
  encode = λ p. codes "body";
  decode = λ s. some payload;
  digest = λ s. codes "s";
}

encodes : (payload : RawPayload) → IsEncoding (crypto payload) payload
encodes payload = record {
  header_no_dot = refl;
  encode_no_dot = refl;
  digest_no_dot = λ s. refl;
  decode_encode = refl;
}

abbrev session_of_p1 : RawPayload
session_of_p1 = session_payload sid "p1" "a@b" "Ann" "3011" 10

abbrev reset_of_p1 : RawPayload
reset_of_p1 = reset_payload "p1" "a@b" 10

abbrev env : RideEnv Entries (List Participant)
env = record {
  now = 10000;
  production = true;
  redis = some list_redis;
  table = list_table same_participant;
  crypto = crypto session_of_p1;
  new_session_id = sid;
  has_notifications = true;
  hash = λ password. "$2new";
  compare = λ password hash. hash == "$2old";
  trim = λ s. s;
  to_lower_case = λ s. s;
  same_ignoring_case = λ a b. a == b;
}

-- The same at the time of a reset, whose token is the one that can be read.
abbrev reset_env : RideEnv Entries (List Participant)
reset_env = record env { now = 20000; crypto = crypto reset_of_p1 }

abbrev ann : Participant
ann = record {
  id = "p1";
  email = "a@b";
  rotary_id = none;
  full_name = "Ann";
  home_district = "3011";
  is_active = true;
  password_hash = some "$2old";
}

abbrev world : World Entries (List Participant)
world = record { memory = []; redis = []; participants = ann ∷ []; effects = [] }

abbrev session : ParticipantSessionRecord
session = new_session env "p1" "a@b" none none

abbrev after_sign_in : World Entries (List Participant)
after_sign_in = record world {
  memory = (sid, session) ∷ [];
  redis = (sid, (session, 7210000)) ∷ [];
}

-- Signing in with the right password and with a hash that is not of bcrypt.
sign_ins :
    ((login env "a@b" (codes "secret") none none world).1 ≡ after_sign_in)
    × (login env "c@d" (codes "secret") none none world ≡ (err unauthorized, world))
    × (login env "a@b"
        (codes "secret")
        none
        none
        (record world { participants = record ann { password_hash = some "old" } ∷ [] })).0
      ≡ err unauthorized
unfolding run
sign_ins = (refl, refl, refl)

-- Two hours later the session has not run out, and a second later it has and is gone.
rolling :
    ((validate_and_touch_session (at_time env 7210000) sid none after_sign_in).0
      ≡ ok (record session { last_active_at = 7210000; expires_at = 14410000 }))
    × (validate_and_touch_session (at_time env 7211000) sid none after_sign_in
        ≡ (err unauthorized, world))
unfolding run
rolling = (refl, refl)

-- A sign-out whose deletion in Redis throws does not show, and the session is admitted again.
undone_sign_out :
    let flaky : RideEnv Entries (List Participant) = record env {
      redis = some redis_without_del;
    } in
    (validate_and_touch_session flaky sid none (invalidate_session flaky sid after_sign_in)).0
    ≡ ok session
unfolding run
undone_sign_out = refl

resets :
    reset_password reset_env (codes "h.body.s") (codes "secret") after_sign_in
    ≡ (ok tt, record world { participants = record ann { password_hash = some "$2new" } ∷ [] })
unfolding run
resets = refl

length-create_session_example :
    length (create_session env "p1" "a@b" none none world).1.memory ≤ max_memory_sessions
length-create_session_example = length-create_session env "p1" "a@b" none none world (omega arith)

Reach-KeepsKeys_example :
    KeepsKeys env.redis
      (revoke_user_sessions env "p1" (create_session env "p1" "a@b" none none world).1).1
Reach-KeepsKeys_example =
    Reach-KeepsKeys env {w = world} (tt, λ j s h. absurd cc)
      (next (next here (created 10000 sid "p1" "a@b" none none world))
        (revoked 10000 sid "p1" (create_session env "p1" "a@b" none none world).1))

right_password : verify_password env (codes "secret") "$2old" ≡ true
unfolding run
right_password = refl

passes :
    (truthy? ann.password_hash
      && verify_password env (codes "secret") (get_or ann.password_hash ""))
    ≡ true
unfolding run
passes = refl

get_participant-login_example :
    (r : SignedIn) × (w' : World Entries (List Participant)) × (login env "a@b"
        (codes "secret")
        none
        none
        world
      ≡ (ok r, w'))
    × (r.participant ≡ sanitize_participant ann)
    × ((get_participant_from_token (at_time env 20000) r.token none w').0
        ≡ ok (sanitize_participant ann))
get_participant-login_example =
    get_participant-login env "a@b" (codes "secret") none none none ann 20000 world refl refl refl
      passes (λ now j s seconds r. refl) refl refl (encodes session_of_p1) (omega arith)

get_participant-reset_token_example :
    get_participant_from_token reset_env
      (sign_password_reset_token reset_env.crypto 10000 "p1" "a@b")
      none
      world
    ≡ (ok (sanitize_participant ann), world)
get_participant-reset_token_example =
    get_participant-reset_token reset_env 10000 "p1" "a@b" none ann world (encodes reset_of_p1)
      (omega arith) refl refl

own :
    (j : List ℕ) (s : ParticipantSessionRecord)
    → list_redis.stored after_sign_in.redis j ≡ some s
    → (s.session_id ≡ j) × (s.expires_at ≤ list_redis.runs_out after_sign_in.redis j)
own j s h = elim (Bool-cases (text_eq sid j)) [
  | inl same ↦
      let here : session ≡ s = ground (arith, h, same) in
      let expires : 7210000 ≡ s.expires_at = ap (λ x. x.expires_at) here in
      (
        ap (λ x. x.session_id) (sym here) ∙ (text_eq_iff sid j).0 same,
        ground (arith, same, expires),
      )
  | inr other ↦ absurd (ground (arith, h, other))
]

reset_password-ResetOutcome_example :
    let (r, w') = reset_password reset_env (codes "h.body.s") (codes "secret") after_sign_in in
    Resets.ResetOutcome reset_env (codes "h.body.s") (codes "secret") after_sign_in r w'
reset_password-ResetOutcome_example =
    reset_password-ResetOutcome reset_env (codes "h.body.s") (codes "secret") after_sign_in
      (λ now j r. refl, λ j r. refl, λ now r. refl) ((refl, tt), own)
