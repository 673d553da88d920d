-- ===== src/Notifications/Tests.antt =====
-- Runs of the notification code on concrete mail, and instances of its theorems.
pub mod Jobs
pub mod Dispatches
use rac3011_api.Base.{
  ℕ, String, ◌≡◌, ◌≤◌, refl, Bool, true, false, none, some, List, [], ◌∷◌, ◌+◌, inr, if◌then◌else◌,
  arith, ◌==◌, keep, not, map, any, includes, IsSetOf,
}
use rac3011_api.Db.{Table}
use rac3011_api.Db.ListTable.{list_table}
use rac3011_api.Effects.{Recipient}
use rac3011_api.Notifications.Rewrite.{send, rewrite_recipient}
use rac3011_api.Notifications.Rewrite.Laws.{StaysOnList, rewrite_recipient-StaysOnList}
use rac3011_api.Notifications.Usage.{
  EmailProviderName, oracle, resend, mailgun, gmail, usage_for, increment, decrement,
}
use rac3011_api.Notifications.Pool.{
  EmailPoolMessage, EmailTransport, EmailPoolConfig, PoolState, sent_by, unavailable,
  is_cooling_down, deliver, turn, send_from, pool_send,
}
use rac3011_api.Notifications.Pool.Delivery
use rac3011_api.Notifications.Pool.Delivery.{
  pool_send-Outcome, pool_send-WithinCaps, pool_send-CallsOnList,
}
use rac3011_api.Notifications.Pool.Success.{IsReady, is_sent, pool_send-is_sent}
use rac3011_api.Notifications.Outbox.{
  OutboxRow, queued, sent, failed, same_id, find_by_id, mark_sent, record_failed_attempt, has_id,
}
use rac3011_api.Notifications.Sender.{
  SendJob, SendEnv, SendWorld, completed, absent, off, in_templates, suppressed,
  is_outgoing_emails_muted, fail_attempt, process_send, SettingRead,
}
use rac3011_api.Notifications.Sender.Laws.Runs.{
  process_send-last, process_send-again, process_send-others, is_queued,
}
use rac3011_api.Notifications.Dispatch.{email_of, resolve_from, resolve_recipients}
use rac3011_api.Notifications.Dispatch.Laws.{resolve_recipients-addresses, key_of, resolves_to}

run : Unit {0}
unfolding rewrite_recipient usage_for increment decrement is_cooling_down deliver turn send_from
    pool_send
run = tt

-- The outside is the clock, in milliseconds; every call of a transport takes 5 of them.
abbrev pub now : ℕ → ℕ × ℕ
now o = (o, o + 1)

abbrev pub transport : EmailProviderName → Bool → Bool → EmailTransport ℕ
transport name configured taken = record {
  name = name;
  is_configured = configured;
  send_mail = λ m o. (taken, o + 5);
}

-- oracle is not configured, resend refuses, mailgun is at its cap, gmail takes every mail.
abbrev pub transports : List (EmailTransport ℕ)
transports =
    transport oracle false true
    ∷ transport resend true false
    ∷ transport mailgun true true
    ∷ transport gmail true true
    ∷ []

abbrev pub caps : EmailProviderName → ℕ
caps oracle = 100
caps resend = 100
caps mailgun = 0
caps gmail = 2

abbrev pub config : EmailPoolConfig
config = record {
  caps = caps;
  may_send_to_real_recipients = false;
  allowlist = "qa@x" ∷ "drr@x" ∷ [];
}

-- Texts of the tests have no blanks and no capitals, save one.
abbrev pub trim : String → String
trim s = s

abbrev pub lower : String → String
lower s = if s == "QA@x" then "qa@x" else s

abbrev mail : EmailPoolMessage
mail = record { to = "guest@y"; subject = "Hello"; html = "<p>"; text = "p" }

abbrev pub start : PoolState ℕ
start = record { usage = λ n d. none; failed_at = λ n. none; outside = 7; calls = [] }

abbrev forwarded : EmailPoolMessage
forwarded = record { to = "qa@x"; subject = "[guest@y] Hello"; html = "<p>"; text = "p" }

first_mail :
    ((pool_send now config transports trim lower mail start).0 ≡ sent_by gmail)
    × ((pool_send now config transports trim lower mail start).1.calls
        ≡ (resend, forwarded, false) ∷ (gmail, forwarded, true) ∷ [])
    × ((pool_send now config transports trim lower mail start).1.failed_at resend ≡ some 13)
    × (usage_for 0 (pool_send now config transports trim lower mail start).1.usage gmail ≡ 1)
    × (usage_for 0 (pool_send now config transports trim lower mail start).1.usage resend ≡ 0)
unfolding run
first_mail = (refl, refl, refl, refl, refl)

abbrev after : ℕ → PoolState ℕ → PoolState ℕ
after n w = record w { outside = w.outside + n }

-- The second mail leaves resend alone for ten minutes; gmail has had its two mails after it.
later_mails :
    let w1 = (pool_send now config transports trim lower mail start).1 in
    let w2 = (pool_send now config transports trim lower mail (after 1000 w1)).1 in
    ((pool_send now config transports trim lower mail (after 1000 w1)).0 ≡ sent_by gmail)
    × ((pool_send now config transports trim lower mail (after 1000 w2)).0 ≡ unavailable)
unfolding run
later_mails = (refl, refl)

pool_send-Outcome_example :
    Delivery.PoolOutcome now config transports trim lower mail
      (send "qa@x" "[guest@y] Hello")
      (pool_send now config transports trim lower mail start).0
      start
      (pool_send now config transports trim lower mail start).1
unfolding run
pool_send-Outcome_example = pool_send-Outcome now config transports trim lower mail start

nothing_used : Delivery.WithinCaps now config transports trim lower start
unfolding run
nothing_used n d = omega arith

pool_send-WithinCaps_example :
    usage_for 0 (pool_send now config transports trim lower mail start).1.usage gmail ≤ caps gmail
pool_send-WithinCaps_example =
    pool_send-WithinCaps now config transports trim lower mail start nothing_used gmail 0

pool_send-CallsOnList_example :
    Delivery.CallsOnList now config transports trim lower
      (pool_send now config transports trim lower mail start).1
pool_send-CallsOnList_example =
    pool_send-CallsOnList now config transports trim lower mail start (λ s. refl) refl refl tt

gmail_IsReady : IsReady now config transports gmail
gmail_IsReady = record {
  transport = transport gmail true true;
  found = refl;
  configured = refl;
  takes = λ m o. refl;
}

pool_send-is_sent_example : is_sent (pool_send now config transports trim lower mail start).0 ≡ true
unfolding run
pool_send-is_sent_example =
    pool_send-is_sent now config transports trim lower mail "qa@x" "[guest@y] Hello" gmail start
      refl gmail_IsReady refl (omega arith)
