-- ===== src/Notifications/Sender.antt =====
-- src/notifications/notification-send.processor.ts: one run of a job of the queue. The templates are
-- rendered by `render`, which answers a text of an error if one throws; `send` is the pool.
pub mod Laws
use Prim.Native.String.{◌++◌}
use rac3011_api.Base.{
  ℕ, ◌+◌, String, Bool, true, false, not, ◌&&◌, ◌||◌, Option, none, some, List, [], ◌∷◌,
  if◌then◌else◌, ◌==◌, leb, includes, get_or, is_text, ◌⊎◌, inl, inr,
}
use rac3011_api.Db.{Table}
use rac3011_api.Notifications.Usage.{EmailProviderName, oracle, resend, mailgun, gmail}
use rac3011_api.Notifications.Pool.{
  EmailPoolMessage, EmailPoolResult, sent_by, refused, unavailable,
}
use rac3011_api.Notifications.Outbox.{
  OutboxRow, OutboxStatus, queued, sent, failed, same_id, find_by_id, mark_sent,
  record_failed_attempt,
}

-- The keys of `TEMPLATES`.
abbrev pub template_keys : List String
template_keys =
    "otp" ∷ "member-registered" ∷ "member-approved" ∷ "member-rejected" ∷ "report-queried"
    ∷ "report-replied" ∷ "report-scored" ∷ "showcase-submitted" ∷ "showcase-published"
    ∷ "showcase-rejected" ∷ "announcement" ∷ "feedback-replied" ∷ "booking-requested"
    ∷ "booking-received" ∷ "booking-confirmed" ∷ "booking-declined" ∷ "booking-reminder"
    ∷ "link-broken" ∷ "event-reminder" ∷ "enquiry-received" ∷ "listing-verify" ∷ "listing-verified"
    ∷ "camp-submitted" ∷ "camp-approved" ∷ "ride-host-assigned" ∷ "contribution-approved"
    ∷ "certificate-issued" ∷ "password-reset-required" ∷ "password-reset" ∷ []

-- The names that `in` finds on every object literal.
abbrev pub object_names : List String
object_names =
    "constructor" ∷ "__defineGetter__" ∷ "__defineSetter__" ∷ "hasOwnProperty" ∷ "__lookupGetter__"
    ∷ "__lookupSetter__" ∷ "isPrototypeOf" ∷ "propertyIsEnumerable" ∷ "toString" ∷ "valueOf"
    ∷ "__proto__" ∷ "toLocaleString" ∷ []

-- `template in TEMPLATES`
unfoldable pub in_templates : String → Bool
in_templates template = includes template template_keys || includes template object_names

pub record Rendered : Type 0 where
  pub subject : String
  pub html : String
  pub text : String

-- What the query for the setting comes to.
pub data SettingRead : Type 0 where
  unreadable absent off other_value : SettingRead

pub record SendJob : Type 0 where
  pub outbox_id : String
  pub attempts_made : ℕ
  pub attempts : Option ℕ

-- The job is done, or it throws and the queue runs it again while attempts are left.
pub data JobResult : Type 0 where
  completed : JobResult
  thrown : String → JobResult

pub record SendWorld (S Q : Type 0) : Type 0 where
  pub outbox : S
  pub pool : Q

pub record SendEnv (P Q : Type 0) : Type 0 where
  -- `process.env.MUTE_OUTGOING_EMAILS`
  pub mute_outgoing_emails : Option String
  pub setting : SettingRead
  pub now : ℕ
  pub render : String → P → String ⊎ Rendered
  pub send : EmailPoolMessage → Q → EmailPoolResult × Q

abbrev pub is_off : SettingRead → Bool
is_off off = true
is_off unreadable = false
is_off absent = false
is_off other_value = false

abbrev pub is_sent_status : OutboxStatus → Bool
is_sent_status sent = true
is_sent_status queued = false
is_sent_status failed = false

abbrev pub provider_text : EmailProviderName → String
provider_text oracle = "oracle"
provider_text resend = "resend"
provider_text mailgun = "mailgun"
provider_text gmail = "gmail"

module _ {S P Q : Type 0} (table : Table S (OutboxRow P) same_id) (env : SendEnv P Q) where
  unfoldable pub is_outgoing_emails_muted : Bool
  is_outgoing_emails_muted = is_text env.mute_outgoing_emails "true" || is_off env.setting

  -- The test before the second suppression, with the switch.
  unfoldable pub suppressed : String → Bool
  suppressed template =
      not (template == "otp") && not (template == "password-reset") && is_outgoing_emails_muted

  -- The `catch`.
  unfoldable pub fail_attempt :
      SendJob → OutboxRow P → String → SendWorld S Q → JobResult × SendWorld S Q
  fail_attempt job row message w =
      let final = leb (get_or job.attempts 1) (job.attempts_made + 1) in
      (
        thrown message,
        record w { outbox = record_failed_attempt table row.id message final w.outbox },
      )

  -- What the `try` does with the pool's answer.
  abbrev pub conclude :
      SendJob → OutboxRow P → EmailPoolResult → SendWorld S Q → JobResult × SendWorld S Q
  conclude job row (sent_by name) w = (
    completed,
    record w { outbox = mark_sent table row.id (provider_text name) env.now w.outbox },
  )
  conclude job row refused w =
      fail_attempt job row "MAIL_LIVE is off and MAIL_ALLOWLIST is empty; refusing to send" w
  conclude job row unavailable w =
      fail_attempt job row
        "No email provider is available (all at cap, cooling down, or unconfigured)" w

  -- The `try` and its `catch`.
  abbrev pub send_rendered :
      SendJob → OutboxRow P → String ⊎ Rendered → SendWorld S Q → JobResult × SendWorld S Q
  send_rendered job row (inl message) w = fail_attempt job row message w
  send_rendered job row (inr rendered) w =
      let (result, pool) =
        env.send
          record {
            to = row.to_address;
            subject = get_or row.subject rendered.subject;
            html = rendered.html;
            text = rendered.text;
          }
          w.pool in
      conclude job row result (record w { pool = pool })

  abbrev pub process_row :
      SendJob → Option (OutboxRow P) → SendWorld S Q → JobResult × SendWorld S Q
  process_row job none w = (completed, w)
  process_row job (some row) w =
      if is_sent_status row.status
      then (completed, w)
      else if not (in_templates row.template)
      then (
        completed,
        record w {
          outbox =
              record_failed_attempt table row.id ("unknown template " ++ row.template) true
                w.outbox;
        },
      )
      else if suppressed row.template
      then (completed, record w { outbox = mark_sent table row.id "muted" env.now w.outbox })
      else send_rendered job row (env.render row.template row.payload) w

  unfoldable pub process_send : SendJob → SendWorld S Q → JobResult × SendWorld S Q
  process_send job w = process_row job (find_by_id table job.outbox_id w.outbox) w
