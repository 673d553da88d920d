-- ===== src/Notifications/Pool.antt =====
-- src/notifications/email/email-provider-pool.service.ts: the providers are tried in turn. The
-- clock and the providers are outside: their answers are functions of a state of type `O` that every
-- question may change. Of a day the start is kept, in milliseconds.
pub mod Laws
pub mod Delivery
pub mod Success
use rac3011_api.Base.{
  ℕ, ◌-◌, ◌*◌, ◌/◌, String, Bool, true, false, not, ◌&&◌, ◌||◌, Option, none, some, List, [], ◌∷◌,
  ◌++◌, if◌then◌else◌, leb, ltb, find,
}
use rac3011_api.Notifications.Rewrite.{RewriteResult, send, refuse, rewrite_recipient}
use rac3011_api.Notifications.Usage.{
  EmailProviderName, provider_order, same_provider, UsageTable, increment, decrement, usage_for,
}

pub record EmailPoolMessage : Type 0 where
  pub to : String
  pub subject : String
  pub html : String
  pub text : String

-- What a transport is handed; `from` is the same for all and is left out.
abbrev pub EmailMessage : Type 0
EmailMessage = EmailPoolMessage

-- `send_mail` answers whether the provider took the mail; otherwise its promise is rejected.
pub record EmailTransport (O : Type 0) : Type 0 where
  pub name : EmailProviderName
  pub is_configured : Bool
  pub send_mail : EmailMessage → O → Bool × O

pub record EmailPoolConfig : Type 0 where
  pub caps : EmailProviderName → ℕ
  pub may_send_to_real_recipients : Bool
  pub allowlist : List String

-- `startOfDay`
abbrev pub start_of_day : ℕ → ℕ
start_of_day ms = (ms / 86400000) * 86400000

abbrev pub failure_cooldown_ms : ℕ
failure_cooldown_ms = 10 * 60 * 1000

-- The state of the pool, and the calls of the transports so far with what came of them.
pub record PoolState (O : Type 0) : Type 0 where
  pub usage : UsageTable
  pub failed_at : EmailProviderName → Option ℕ
  pub outside : O
  pub calls : List (EmailProviderName × EmailMessage × Bool)

pub data EmailPoolResult : Type 0 where
  sent_by : EmailProviderName → EmailPoolResult
  -- `throw new Error(rewritten.reason)`
  refused : EmailPoolResult
  -- `throw new NoEmailProviderAvailableError()`
  unavailable : EmailPoolResult

-- What one turn of the loop comes to.
pub data Turn : Type 0 where
  skipped delivered rejected : Turn

-- `map.set(name, ms)`
abbrev pub set_failed :
    EmailProviderName → ℕ → (EmailProviderName → Option ℕ) → EmailProviderName → Option ℕ
set_failed name ms m n = if same_provider name n then some ms else m n

module _ {O : Type 0} (now : O → ℕ × O) (config : EmailPoolConfig) where
  -- `isCoolingDown`: the clock is read only for a provider that has failed.
  unfoldable pub is_cooling_down : EmailProviderName → PoolState O → Bool × PoolState O
  is_cooling_down name w = elim (w.failed_at name) [
    | none ↦ (false, w)
    | some ms ↦
        let (t, o) = now w.outside in (ltb (t - ms) failure_cooldown_ms, record w { outside = o })
  ]

  -- From `increment` to the end of the `catch`.
  unfoldable pub deliver :
      EmailTransport O → EmailProviderName → ℕ → EmailMessage → PoolState O → Turn × PoolState O
  deliver transport name day message w =
      let counted = increment name day w.usage in
      let (taken, o) = transport.send_mail message w.outside in
      let (t, o') = now o in
      let calls = w.calls ++ (name, message, taken) ∷ [] in
      if taken then (delivered, record w { usage = counted; outside = o; calls = calls }) else (
        rejected,
        record {
          usage = decrement name day counted;
          failed_at = set_failed name t w.failed_at;
          outside = o';
          calls = calls;
        },
      )

  module _ (transports : List (EmailTransport O)) where
    -- One turn of the loop, with the usage that was read before it.
    unfoldable pub turn :
        (EmailProviderName → ℕ)
        → ℕ
        → EmailMessage
        → EmailProviderName
        → PoolState O
        → Turn × PoolState O
    turn usage day message name w = elim (find (λ t. same_provider t.name name) transports) [
      | none ↦ (skipped, w)
      | some transport ↦
          if not transport.is_configured
          then (skipped, w)
          else if leb (config.caps name) (usage name)
          then (skipped, w)
          else let (cooling, w') = is_cooling_down name w in
            (if cooling then (skipped, w') else deliver transport name day message w')
    ]

    unfoldable pub send_from :
        (EmailProviderName → ℕ)
        → ℕ
        → EmailMessage
        → List EmailProviderName
        → PoolState O
        → EmailPoolResult × PoolState O
    send_from usage day message [] w = (unavailable, w)
    send_from usage day message (name ∷ names) w =
        let (what, w') = turn usage day message name w in
        let later = send_from usage day message names w' in
        elim what [ delivered ↦ (sent_by name, w') | skipped ↦ later | rejected ↦ later ]

    module _ (trim : String → String) (lower : String → String) where
      -- From the reading of the clock on; `refuse` is the `throw` before it.
      abbrev pub send_rewritten :
          EmailPoolMessage → RewriteResult → PoolState O → EmailPoolResult × PoolState O
      send_rewritten message refuse w = (refused, w)
      send_rewritten message (send to subject) w =
          let (t, o) = now w.outside in
          let day = start_of_day t in
          send_from (usage_for day w.usage) day (record message { to = to; subject = subject })
            provider_order (record w { outside = o })

      unfoldable pub pool_send : EmailPoolMessage → PoolState O → EmailPoolResult × PoolState O
      pool_send message w =
          send_rewritten message
            (rewrite_recipient trim lower record {
              to = message.to;
              subject = message.subject;
              may_send_to_real_recipients = config.may_send_to_real_recipients;
              allowlist = config.allowlist;
            })
            w
