-- ===== src/Notifications/Tests/Jobs.antt =====
-- Runs of send jobs on a concrete outbox, and of the choice of recipients.
use rac3011_api.Base.{
  ℕ, String, ◌≡◌, refl, true, false, none, some, List, [], ◌∷◌, inl, inr, map, any, includes,
  IsSetOf, Option, keep, All, ◌==◌, if◌then◌else◌, Bool-cases, is_some, ap, ◌∙◌, arith, eq_iff,
}
use rac3011_api.Db.{Table}
use rac3011_api.Db.ListTable.{list_table}
use rac3011_api.Effects.{Recipient}
use rac3011_api.Notifications.Rewrite.{rewrite_recipient}
use rac3011_api.Notifications.Usage.{usage_for, increment, decrement}
use rac3011_api.Notifications.Pool.{PoolState, is_cooling_down, deliver, turn, send_from, pool_send}
use rac3011_api.Notifications.Outbox.{
  OutboxRow, queued, sent, failed, same_id, find_by_id, mark_sent, record_failed_attempt,
}
use rac3011_api.Notifications.Sender.{
  SendJob, SendEnv, SendWorld, completed, absent, off, in_templates, suppressed,
  is_outgoing_emails_muted, fail_attempt, process_send, SettingRead,
}
use rac3011_api.Notifications.Sender.Laws.Runs.{process_send-last, process_send-again, is_queued}
use rac3011_api.Notifications.Dispatch.{email_of, resolve_from, resolve_recipients}
use rac3011_api.Notifications.Dispatch.Laws.{resolve_recipients-addresses, is_address_of, IsQuery}
use rac3011_api.Notifications.Tests.{now, transports, config, trim, lower, start}

run : Unit {0}
unfolding rewrite_recipient usage_for increment decrement is_cooling_down deliver turn send_from
    pool_send find_by_id mark_sent record_failed_attempt in_templates suppressed
    is_outgoing_emails_muted fail_attempt process_send email_of resolve_from resolve_recipients
run = tt

abbrev row : String → String → OutboxRow String
row id template = record {
  id = id;
  to_user_id = none;
  to_address = "guest@y";
  template = template;
  subject = some "Hello";
  payload = "";
  status = queued;
  provider = none;
  attempts = 0;
  last_error = none;
  sent_at = none;
  created_at = 0;
}

abbrev table : Table (List (OutboxRow String)) (OutboxRow String) same_id
table = list_table same_id

abbrev env : SettingRead → SendEnv String (PoolState ℕ)
env setting = record {
  mute_outgoing_emails = none;
  setting = setting;
  now = 50;
  render = λ template payload. inr (record { subject = "S"; html = "<p>"; text = "p" });
  send = pool_send now config transports trim lower;
}

abbrev world : SendWorld (List (OutboxRow String)) (PoolState ℕ)
world = record {
  outbox = row "n1" "announcement" ∷ row "n2" "otp" ∷ row "n3" "lost" ∷ [];
  pool = start;
}

abbrev job : String → ℕ → SendJob
job id made = record { outbox_id = id; attempts_made = made; attempts = some 5 }

abbrev outbox_after : SettingRead → SendJob → List (OutboxRow String)
outbox_after setting j = (process_send table (env setting) j world).1.outbox

-- A muted announcement counts as sent, a muted one-time password is mailed, an unknown template
-- fails at once, a row that is not there is no error.
runs :
    (outbox_after off (job "n1" 0)
      ≡ record (row "n1" "announcement") {
        status = sent;
        provider = some "muted";
        sent_at = some 50;
      }
        ∷ row "n2" "otp"
        ∷ row "n3" "lost"
        ∷ [])
    × (outbox_after off (job "n2" 0)
        ≡ row "n1" "announcement"
          ∷ record (row "n2" "otp") { status = sent; provider = some "gmail"; sent_at = some 50 }
          ∷ row "n3" "lost"
          ∷ [])
    × (outbox_after absent (job "n3" 0)
        ≡ row "n1" "announcement"
          ∷ row "n2" "otp"
          ∷ record (row "n3" "lost") {
            status = failed;
            attempts = 1;
            last_error = some "unknown template lost";
          }
          ∷ [])
    × (process_send table (env absent) (job "n4" 0) world ≡ (completed, world))
unfolding run
runs = (refl, refl, refl, refl)

-- No mail can go anywhere: the last attempt settles the row.
abbrev closed : SendEnv String (PoolState ℕ)
closed = record (env absent) {
  send = pool_send now (record config { allowlist = [] }) transports trim lower;
}

abbrev given_up : OutboxRow String
given_up = record (row "n1" "announcement") {
  status = failed;
  attempts = 1;
  last_error = some "MAIL_LIVE is off and MAIL_ALLOWLIST is empty; refusing to send";
}

given_up_found :
    find_by_id table "n1" (process_send table closed (job "n1" 4) world).1.outbox ≡ some given_up
unfolding run
given_up_found = refl

process_send-last_example : is_queued given_up.status ≡ false
process_send-last_example =
    process_send-last table closed (job "n1" 4) world given_up refl given_up_found

first_found : find_by_id table "n1" world.outbox ≡ some (row "n1" "announcement")
unfolding run
first_found = refl

first_known : in_templates "announcement" ≡ true
unfolding run
first_known = refl

first_completes : (process_send table (env absent) (job "n1" 0) world).0 ≡ completed
unfolding run
first_completes = refl

process_send-again_example :
    process_send table
      (env absent)
      (job "n1" 1)
      (process_send table (env absent) (job "n1" 0) world).1
    ≡ (completed, (process_send table (env absent) (job "n1" 0) world).1)
process_send-again_example =
    process_send-again table (env absent) (job "n1" 0) (job "n1" 1) world (row "n1" "announcement")
      refl first_found first_known first_completes

abbrev people : List Recipient
people =
    record { user_id = none; email = some "qa@x" }
    ∷ record { user_id = some "u1"; email = none }
    ∷ record { user_id = some "u2"; email = none }
    ∷ record { user_id = some "u3"; email = some "" }
    ∷ []

abbrev users : List String → List (String × String)
users ids = ("u1", "QA@x") ∷ ("u2", "b@x") ∷ []

people_resolved :
    resolve_recipients lower users people
    ≡ record { email = "qa@x"; user_id = none } ∷ record { email = "b@x"; user_id = some "u2" } ∷ []
unfolding run
people_resolved = refl

-- The users of the database, and the query for some of them.
abbrev accounts : List (String × String)
accounts = ("u1", "QA@x") ∷ ("u2", "b@x") ∷ []

abbrev account_email : String → Option String
account_email id = if "u1" == id then some "QA@x" else if "u2" == id then some "b@x" else none

abbrev query_users : List String → List (String × String)
query_users ids = keep (λ (id, email). includes id ids) accounts

query_users_sound :
    (ids : List String) → All (λ (id, email). account_email id ≡ some email) (query_users ids)
query_users_sound ids = elim (Bool-cases (includes "u1" ids)) [
  | inl one ↦ elim (Bool-cases (includes "u2" ids)) [
    | inl two ↦ rw one (rw two (refl, (refl, tt)))
    | inr no_two ↦ rw one (rw no_two (refl, tt))
  ]
  | inr no_one ↦ elim (Bool-cases (includes "u2" ids)) [
    | inl two ↦ rw no_one (rw two (refl, tt))
    | inr no_two ↦ rw no_one (rw no_two tt)
  ]
]

query_users_complete :
    (ids : List String) (id : String)
    → includes id ids ≡ true
    → any (λ (key, email). key == id) (query_users ids) ≡ is_some (account_email id)
query_users_complete ids id asked = elim (Bool-cases ("u1" == id)) [
  | inl one ↦
      let here : includes "u1" ids ≡ true =
        ap (λ j. includes j ids) ((eq_iff "u1" id).0 one) ∙ asked in
      ground (arith, one, here)
  | inr not_one ↦ elim (Bool-cases ("u2" == id)) [
    | inl two ↦
        let here : includes "u2" ids ≡ true =
          ap (λ j. includes j ids) ((eq_iff "u2" id).0 two) ∙ asked in
        ground (arith, not_one, two, here)
    | inr not_two ↦ ground (arith, not_one, not_two)
  ]
]

query_users-IsQuery : IsQuery account_email query_users
query_users-IsQuery = record { sound = query_users_sound; complete = query_users_complete }

resolve_recipients-addresses_example :
    let keys = map (λ r. lower r.email) (resolve_recipients lower query_users people) in
    IsSetOf keys
    × ((key : String) → includes key keys ≡ any (is_address_of lower account_email key) people)
resolve_recipients-addresses_example =
    resolve_recipients-addresses lower account_email query_users people query_users-IsQuery
