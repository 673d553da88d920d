-- ===== src/Notifications/Pool/Delivery.antt =====
-- What a mail that is handed to the pool comes to: the caps, the allowlist, and delivery.
use rac3011_api.Base.{
  ℕ, ◌≤◌, ◌≡◌, refl, Bool, true, false, ◌&&◌, List, [], ◌∷◌, map, all, arith, inl, inr, String, eqb,
  eqb→eq, Bool-cases, All, All-append, truthy,
}
use rac3011_api.Notifications.Rewrite.{RewriteResult, send, refuse, rewrite_recipient, norm}
use rac3011_api.Notifications.Rewrite.Laws.{IsAllowed, StaysOnList, rewrite_recipient-StaysOnList}
use rac3011_api.Notifications.Usage.{EmailProviderName, same_provider, usage_for, provider_order}
use rac3011_api.Notifications.Usage.Laws.{same_provider→eq}
use rac3011_api.Notifications.Pool.{
  EmailMessage, EmailPoolMessage, EmailTransport, EmailPoolConfig, PoolState, sent_by, refused,
  unavailable, EmailPoolResult, send_rewritten, pool_send, start_of_day,
}
use rac3011_api.Notifications.Pool.Laws.{SendOutcome, send_from-Outcome}

module _ {O : Type 0} (now : O → ℕ × O) (config : EmailPoolConfig)
    (transports : List (EmailTransport O)) (trim lower : String → String) where
  -- Where the mail may go.
  abbrev pub rewritten : EmailPoolMessage → RewriteResult
  rewritten message = rewrite_recipient trim lower record {
    to = message.to;
    subject = message.subject;
    may_send_to_real_recipients = config.may_send_to_real_recipients;
    allowlist = config.allowlist;
  }

  -- The state once the clock is read, and the day it shows.
  abbrev pub started : PoolState O → PoolState O
  started w = record w { outside = (now w.outside).1 }

  abbrev pub day_of : PoolState O → ℕ
  day_of w = start_of_day (now w.outside).0

  abbrev pub PoolOutcome :
      EmailPoolMessage → RewriteResult → EmailPoolResult → PoolState O → PoolState O → Type 0
  PoolOutcome message refuse result w w' = (result ≡ refused) × (w' ≡ w)
  PoolOutcome message (send to subject) result w w' =
      SendOutcome now config (usage_for (day_of w) w.usage) (day_of w)
        (record message { to = to; subject = subject }) result (started w) w'

  send_rewritten-Outcome :
      (message : EmailPoolMessage) (to : RewriteResult) (w : PoolState O)
      → let (result, w') = send_rewritten now config transports trim lower message to w in
        PoolOutcome message to result w w'
  send_rewritten-Outcome message refuse w = (refl, refl)
  send_rewritten-Outcome message (send to subject) w =
      send_from-Outcome now config (usage_for (day_of w) w.usage) (day_of w)
        (record message { to = to; subject = subject }) transports provider_order (started w)

  -- A mail that may go nowhere changes nothing. Any other is sent by a provider that was below its
  -- cap, or finds no provider; the transports called are the ones that refused it, in order, and
  -- last the one that took it; and the counts change by the one mail that was taken, if any.
  pub pool_send-Outcome :
      (message : EmailPoolMessage) (w : PoolState O)
      → let (result, w') = pool_send now config transports trim lower message w in
        PoolOutcome message (rewritten message) result w w'
  unfolding pool_send
  pool_send-Outcome message w = send_rewritten-Outcome message (rewritten message) w

  -- No count is above its provider's cap.
  abbrev pub WithinCaps : PoolState O → Type 0
  WithinCaps w = (n : EmailProviderName) (d : ℕ) → usage_for d w.usage n ≤ config.caps n

  counted_within :
      (message : EmailPoolMessage) (to : RewriteResult) (result : EmailPoolResult)
      (w w' : PoolState O)
      → PoolOutcome message to result w w'
      → WithinCaps w
      → WithinCaps w'
  counted_within message refuse result w w' (_, same) h n d = rw same (h n d)
  counted_within message (send to subject) (sent_by name) w w' (_, _, counts, below) h n d =
      rw (counts n d) (elim (Bool-cases (same_provider name n && eqb (day_of w) d)) [
        | inl here ↦
            let provider : name ≡ n = same_provider→eq name n (ground arith) in
            let day : day_of w ≡ d = eqb→eq (day_of w) d (ground arith) in
            rw here (rw (← provider, ← day) (omega arith))
        | inr there ↦ rw there (h n d)
      ])
  counted_within message (send to subject) unavailable w w' (_, _, counts) h n d =
      rw (counts n d) (h n d)
  counted_within message (send to subject) refused w w' outcome h n d = absurd outcome

  -- If no provider's count is above its cap on any day, no mail puts one above.
  pub pool_send-WithinCaps :
      (message : EmailPoolMessage) (w : PoolState O)
      → WithinCaps w
      → WithinCaps (pool_send now config transports trim lower message w).1
  pool_send-WithinCaps message w =
      let (result, w') = pool_send now config transports trim lower message w in
      counted_within message (rewritten message) result w w' (pool_send-Outcome message w)

  abbrev pub IsOnList : EmailProviderName × EmailMessage × Bool → Type 0
  IsOnList (_, message, _) = IsAllowed trim lower config.allowlist message.to

  -- Every mail that a transport was handed is for an address of the list.
  abbrev pub CallsOnList : PoolState O → Type 0
  CallsOnList w = All IsOnList w.calls

  rejections-IsOnList :
      (message : EmailMessage) (failed : List EmailProviderName)
      → IsAllowed trim lower config.allowlist message.to
      → All IsOnList (map (λ name. (name, message, false)) failed)
  rejections-IsOnList message [] h = tt
  rejections-IsOnList message (name ∷ failed) h = (h, rejections-IsOnList message failed h)

  listed :
      (message : EmailPoolMessage) (to : RewriteResult) (result : EmailPoolResult)
      (w w' : PoolState O)
      → PoolOutcome message to result w w'
      → StaysOnList trim lower config.allowlist to
      → CallsOnList w
      → CallsOnList w'
  listed message refuse result w w' (_, same) on h = rw same h
  listed message (send to subject) (sent_by name) w w' (failed, calls, _, _) on h = rw calls (
      All-append IsOnList w.calls _ h
        (All-append IsOnList (map _ failed) _ (rejections-IsOnList _ failed on) (on, tt)))
  listed message (send to subject) unavailable w w' (failed, calls, _) on h =
      rw calls (All-append IsOnList w.calls _ h (rejections-IsOnList _ failed on))
  listed message (send to subject) refused w w' outcome on h = absurd outcome

  -- Unless mail is live, and if every address of the list is more than blanks and a second `trim`
  -- changes nothing: if the transports have been handed only mail for addresses of the list, that
  -- is still so after any mail.
  pub pool_send-CallsOnList :
      (message : EmailPoolMessage) (w : PoolState O)
      → ((s : String) → trim (trim s) ≡ trim s)
      → all (λ a. truthy (norm trim lower a)) config.allowlist ≡ true
      → config.may_send_to_real_recipients ≡ false
      → CallsOnList w
      → CallsOnList (pool_send now config transports trim lower message w).1
  pool_send-CallsOnList message w trims full off =
      let (result, w') = pool_send now config transports trim lower message w in
      listed message (rewritten message) result w w' (pool_send-Outcome message w)
        (rewrite_recipient-StaysOnList trim lower _ trims full off)
