-- ===== src/Events/Types.antt =====
-- src/events/events-admin.types.ts, dto/*.dto.ts, and what the services of src/events meet outside.
-- Titles, slugs and tokens are lists of code points; times are numbers.
use rac3011_api.Base.{
  ℕ, String, ◌≡◌, Bool, false, not, ◌&&◌, ◌||◌, Option, none, some, List, ◌==◌, is_some, is_text,
  text_eq,
}
use rac3011_api.Db.{Table}
use rac3011_api.Effects.{Effect}

pub data RsvpStatus : Type 0 where
  going maybe not_going : RsvpStatus

pub data CheckinMethod : Type 0 where
  qr manual walk_in : CheckinMethod

pub record EventRow : Type 0 where
  pub id : String
  pub title : List ℕ
  pub slug : List ℕ
  pub starts_at : ℕ
  pub ends_at : Option ℕ
  pub location : Option String
  pub description : Option String
  pub cover_url : Option String
  pub is_district_event : Bool
  pub club_id : Option String
  pub project_key : Option String
  pub rsvp_open : Bool
  pub capacity : Option ℕ
  pub photos : List String
  pub created_by_id : String
  pub created_at : ℕ
  pub updated_at : ℕ

pub record RsvpRow : Type 0 where
  pub event_id : String
  pub member_id : String
  pub status : RsvpStatus

pub record CheckinRow : Type 0 where
  pub id : String
  pub event_id : String
  pub member_id : Option String
  pub walk_in_name : Option (List ℕ)
  pub club_id : String
  pub method : CheckinMethod
  pub checked_in_at : ℕ
  pub checked_in_by_id : String

-- The keys of the tables. A check-in with no member clashes with no other.
abbrev pub same_event : EventRow → EventRow → Bool
same_event a b = a.id == b.id || text_eq a.slug b.slug

abbrev pub same_member : Option String → Option String → Bool
same_member none member_id = false
same_member (some m) member_id = is_text member_id m

abbrev pub same_checkin : CheckinRow → CheckinRow → Bool
same_checkin a b = a.id == b.id || (a.event_id == b.event_id && same_member a.member_id b.member_id)

abbrev pub same_rsvp : RsvpRow → RsvpRow → Bool
same_rsvp a b = a.event_id == b.event_id && a.member_id == b.member_id

-- An absent field is `none`; a field that may be `null` is an option of an option.
pub record CreateEventInput : Type 0 where
  pub title : List ℕ
  pub slug : Option (List ℕ)
  pub starts_at : ℕ
  pub ends_at : Option ℕ
  pub location : Option String
  pub description : Option String
  pub cover_url : Option String
  pub is_district_event : Option Bool
  pub club_id : Option String
  pub project_key : Option String
  pub rsvp_open : Option Bool
  pub capacity : Option ℕ
  pub photos : Option (List String)

pub record UpdateEventInput : Type 0 where
  pub title : Option (List ℕ)
  pub slug : Option (List ℕ)
  pub starts_at : Option ℕ
  pub ends_at : Option (Option ℕ)
  pub location : Option (Option String)
  pub description : Option (Option String)
  pub cover_url : Option (Option String)
  pub is_district_event : Option Bool
  pub club_id : Option (Option String)
  pub project_key : Option (Option String)
  pub rsvp_open : Option Bool
  pub capacity : Option (Option ℕ)
  pub photos : Option (List String)

pub record CheckinInput : Type 0 where
  pub qr_token : Option (List ℕ)
  pub member_id : Option String
  pub walk_in_name : Option (List ℕ)
  pub club_id : Option String

-- A member profile, in the columns that are read here.
pub record Member : Type 0 where
  pub id : String
  pub club_id : String

-- `BurnerCheckinPayload`
pub record Payload : Type 0 where
  pub jti : String
  pub eid : String
  pub mid : String
  pub iat : ℕ
  pub exp : ℕ

-- The store of used passes (Redis, not part of this repository), with `SET key 1 EX ttl NX` on the
-- key of a pass: it fails exactly if the key is there, and is there afterwards. A key outlives its
-- pass: both have seven days, and the pass is signed before it is scanned.
pub record PassStore (R : Type 0) : Type 0 where
  pub used : R → String → Bool
  pub set_nx : String → R → Option R
  pub set_nx_used : (jti : String) (r : R) → is_some (set_nx jti r) ≡ not (used r jti)
  pub used_after :
      (jti : String) (r r' : R) (other : String)
      → set_nx jti r ≡ some r'
      → used r' other ≡ (jti == other || used r other)

pub record Stores (E C V R : Type 0) : Type 0 where
  pub events : Table E EventRow same_event
  pub checkins : Table C CheckinRow same_checkin
  pub rsvps : Table V RsvpRow same_rsvp
  -- `none` if no Redis is configured.
  pub passes : Option (PassStore R)

pub record World (E C V R : Type 0) : Type 0 where
  pub events : E
  pub checkins : C
  pub rsvps : V
  pub passes : R
  pub effects : List Effect
