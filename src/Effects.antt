-- ===== src/Effects.antt =====
-- What a service does beside its own tables, in the order of the calls: the audit trail, outgoing
-- notifications, purged cache tags, emitted events, events of the district calendar. The payload of
-- an audit entry and the data of a notification are left out.
use rac3011_api.Base.{ℕ, String, Option, List}

-- `{ userId?, email? }`
pub record Recipient : Type 0 where
  pub user_id : Option String
  pub email : Option String

pub data Effect : Type 0 where
  -- actorId, action, resourceType, resourceId
  audit : Option String → String → String → Option String → Effect
  -- template, to
  notify : String → List Recipient → Effect
  purge : List String → Effect
  -- the event's name, and the id that it is about
  emit : String → String → Effect
  -- the reference of the booking, and who decided it
  sync_calendar_event : List ℕ → String → Effect
  remove_calendar_event : List ℕ → Effect
  -- a job of the attendance queue: the event and the club
  schedule_attendance : String → String → Effect
  purge_asset : String → Effect
