-- ===== src/Ride/Types.antt =====
-- src/subdomains/ride/ride-auth.service.ts: its data, and what it is given. Session ids, tokens and
-- passwords are lists of code units. Redis, bcrypt, JSON and the encodings are parameters.
use rac3011_api.Base.{
  ℕ, ◌+◌, ◌*◌, ◌≤◌, ◌≡◌, Bool, true, false, ltb, Option, none, some, List, any, String, text_eq,
  if◌then◌else◌, ◌==◌, All,
}
use rac3011_api.Db.{Table}
use rac3011_api.Effects.{Effect}

pub record ParticipantSessionRecord : Type 0 where
  pub session_id : List ℕ
  pub participant_id : String
  pub email : String
  pub ip_address : Option String
  pub user_agent : Option String
  pub created_at : ℕ
  pub last_active_at : ℕ
  pub expires_at : ℕ

-- What the body of a token may hold: any field can be missing.
pub record RawPayload : Type 0 where
  pub sid : Option (List ℕ)
  pub participant_id : Option String
  pub email : Option String
  pub full_name : Option String
  pub home_district : Option String
  pub kind : Option String
  pub iat : Option ℕ
  pub exp : Option ℕ

pub record Crypto : Type 0 where
  -- The encoded header `{ alg: 'HS256', typ: 'JWT' }`.
  pub header : List ℕ
  -- `Buffer.from(JSON.stringify(payload)).toString('base64url')`
  pub encode : RawPayload → List ℕ
  -- `JSON.parse` of the decoded body; `none` where it throws.
  pub decode : List ℕ → Option RawPayload
  -- The digest of a text under the secret, in base64url.
  pub digest : List ℕ → List ℕ

-- The columns of a row of ride_participants that the service reads and writes.
pub record Participant : Type 0 where
  pub id : String
  pub email : String
  pub rotary_id : Option String
  pub full_name : String
  pub home_district : String
  pub is_active : Bool
  pub password_hash : Option String

abbrev pub same_participant : Participant → Participant → Bool
same_participant new old = old.id == new.id

-- Redis under the keys that begin with `ride:session:`, each written without that prefix. A command
-- that throws is `none` and has changed nothing. Reads take the time, at which keys may have run out.
pub record Redis (R : Type 0) : Type 0 where
  pub get : ℕ → List ℕ → R → Option (Option ParticipantSessionRecord)
  -- `SET key value EX seconds`, at a time.
  pub set : ℕ → List ℕ → ParticipantSessionRecord → ℕ → R → Option R
  pub del : List ℕ → R → Option R
  -- `KEYS ride:session:*`, and the values of these keys by `MGET`.
  pub list : ℕ → R → Option (List ParticipantSessionRecord)
  pub stored : R → List ℕ → Option ParticipantSessionRecord
  -- The time up to which a key is there, in milliseconds.
  pub runs_out : R → List ℕ → ℕ
  pub get_stored :
      (now : ℕ) (key : List ℕ) (r : R) (x : ParticipantSessionRecord)
      → get now key r ≡ some (some x)
      → stored r key ≡ some x
  pub get_unexpired :
      (now : ℕ) (key : List ℕ) (r : R) (found : Option ParticipantSessionRecord)
      (x : ParticipantSessionRecord)
      → get now key r ≡ some found
      → stored r key ≡ some x
      → now ≤ runs_out r key
      → found ≡ some x
  pub set_stored :
      (now : ℕ) (key : List ℕ) (x : ParticipantSessionRecord) (ttl : ℕ) (r r' : R) (j : List ℕ)
      → set now key x ttl r ≡ some r'
      → stored r' j ≡ (if text_eq key j then some x else stored r j)
  pub set_runs_out :
      (now : ℕ) (key : List ℕ) (x : ParticipantSessionRecord) (ttl : ℕ) (r r' : R) (j : List ℕ)
      → set now key x ttl r ≡ some r'
      → runs_out r' j ≡ (if text_eq key j then now + ttl * 1000 else runs_out r j)
  pub del_stored :
      (key : List ℕ) (r r' : R) (j : List ℕ)
      → del key r ≡ some r'
      → stored r' j ≡ (if text_eq key j then none else stored r j)
  pub del_runs_out :
      (key : List ℕ) (r r' : R) (j : List ℕ)
      → del key r ≡ some r'
      → text_eq key j ≡ false
      → runs_out r' j ≡ runs_out r j
  pub list_sound :
      (now : ℕ) (r : R) (xs : List ParticipantSessionRecord)
      → list now r ≡ some xs
      → All (λ x. (key : List ℕ) × (stored r key ≡ some x)) xs
  pub list_stored :
      (now : ℕ) (r : R) (xs : List ParticipantSessionRecord) (key : List ℕ)
      (x : ParticipantSessionRecord) (p : ParticipantSessionRecord → Bool)
      → list now r ≡ some xs
      → stored r key ≡ some x
      → ltb now (runs_out r key) ≡ true
      → p x ≡ true
      → any p xs ≡ true

pub record World (R S : Type 0) : Type 0 where
  -- memorySessions
  pub memory : List (List ℕ × ParticipantSessionRecord)
  pub redis : R
  pub participants : S
  pub effects : List Effect

pub record RideEnv (R S : Type 0) : Type 0 where
  -- `Date.now()`, in milliseconds.
  pub now : ℕ
  pub production : Bool
  pub redis : Option (Redis R)
  pub table : Table S Participant same_participant
  pub crypto : Crypto
  -- `randomUUID()`
  pub new_session_id : List ℕ
  pub has_notifications : Bool
  -- bcrypt
  pub hash : List ℕ → String
  pub compare : List ℕ → String → Bool
  pub trim : String → String
  pub to_lower_case : String → String
  -- `equals` with the mode `insensitive` of the database.
  pub same_ignoring_case : String → String → Bool

abbrev pub participant_session_ttl_seconds : ℕ
participant_session_ttl_seconds = 2 * 60 * 60

abbrev pub max_memory_sessions : ℕ
max_memory_sessions = 5000
