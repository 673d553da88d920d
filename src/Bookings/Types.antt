-- ===== src/Bookings/Types.antt =====
-- src/drr-bookings/drr-bookings.types.ts and the inputs of its dto folder, after validation. Times
-- are milliseconds since 1970; a reference is a list of code points.
use rac3011_api.Base.{ℕ, String, Bool, true, false, Option, List, text_eq}

pub data BookingPurpose : Type 0 where
  installation club_event meeting : BookingPurpose

pub data BookingStatus : Type 0 where
  requested held confirmed declined cancelled : BookingStatus

-- `BookingDecision`; `confirm` is 'confirmed' and `decline` is 'declined'.
pub data BookingDecision : Type 0 where
  confirm decline : BookingDecision

abbrev pub status_of : BookingDecision → BookingStatus
status_of confirm = confirmed
status_of decline = declined

-- `DECIDABLE_FROM.includes(status)`
unfoldable pub decidable_from : BookingStatus → Bool
decidable_from requested = true
decidable_from held = true
decidable_from confirmed = true
decidable_from declined = true
decidable_from cancelled = false

pub record DrrBookingRow : Type 0 where
  pub id : String
  pub reference : List ℕ
  pub purpose : BookingPurpose
  pub club_id : Option String
  pub requester_name : String
  pub requester_email : String
  pub requester_phone : String
  pub starts_at : ℕ
  pub ends_at : ℕ
  pub notes : Option String
  pub status : BookingStatus
  pub decision_reason : Option String
  pub decided_by_id : Option String
  pub decided_at : Option ℕ
  pub created_at : ℕ
  pub updated_at : ℕ

-- `CreateDrrBookingInput`
pub record CreateInput : Type 0 where
  pub purpose : BookingPurpose
  pub club_id : Option String
  pub requester_name : String
  pub requester_email : String
  pub requester_phone : String
  pub starts_at : ℕ
  pub ends_at : ℕ
  pub notes : Option String
  pub website : Option String

-- `DecideDrrBookingInput`
pub record DecideInput : Type 0 where
  pub status : BookingDecision
  pub decision_reason : Option String

-- The unique column `reference` of the table.
abbrev pub same_reference : DrrBookingRow → DrrBookingRow → Bool
same_reference new old = text_eq old.reference new.reference
