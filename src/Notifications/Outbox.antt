-- ===== src/Notifications/Outbox.antt =====
-- src/notifications/notification-outbox.repository.ts: the rows of the outbox. `P` is the type of
-- payloads. An `update` by id, which the client refuses for a missing row, is only called with the
-- id of a row that was just read.
pub mod Updates
use rac3011_api.Base.{ℕ, ◌+◌, String, Bool, true, false, Option, some, if◌then◌else◌, ◌==◌}
use rac3011_api.Db.{Table}

pub data OutboxStatus : Type 0 where
  queued sent failed : OutboxStatus

pub record OutboxRow (P : Type 0) : Type 0 where
  pub id : String
  pub to_user_id : Option String
  pub to_address : String
  pub template : String
  pub subject : Option String
  pub payload : P
  pub status : OutboxStatus
  pub provider : Option String
  pub attempts : ℕ
  pub last_error : Option String
  pub sent_at : Option ℕ
  pub created_at : ℕ

abbrev pub same_id : {P : Type 0} → OutboxRow P → OutboxRow P → Bool
same_id a b = a.id == b.id

abbrev pub sent_row : {P : Type 0} → ℕ → String → OutboxRow P → OutboxRow P
sent_row now provider r = record r { status = sent; sent_at = some now; provider = some provider }

abbrev pub failed_row : {P : Type 0} → String → Bool → OutboxRow P → OutboxRow P
failed_row error final r = record r {
  attempts = r.attempts + 1;
  last_error = some error;
  status = if final then failed else queued;
}

module _ {S P : Type 0} (table : Table S (OutboxRow P) same_id) where
  abbrev pub has_id : String → OutboxRow P → Bool
  has_id id r = r.id == id

  unfoldable pub find_by_id : String → S → Option (OutboxRow P)
  find_by_id id = table.find_first (has_id id)

  unfoldable pub mark_sent : String → String → ℕ → S → S
  mark_sent id provider now = table.update_many (has_id id) (sent_row now provider)

  unfoldable pub record_failed_attempt : String → String → Bool → S → S
  record_failed_attempt id error final = table.update_many (has_id id) (failed_row error final)
