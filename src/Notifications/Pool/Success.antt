-- ===== src/Notifications/Pool/Success.antt =====
-- One good provider is enough for a mail to be sent.
use rac3011_api.Base.{
  ℕ, ◌<◌, ◌≡◌, refl, Bool, true, false, none, some, List, [], ◌∷◌, any, arith, inl, inr, ◌⊎◌, ◌∙◌,
  String, find, Bool-cases, leb,
}
use rac3011_api.Notifications.Rewrite.{send}
use rac3011_api.Notifications.Usage.{
  EmailProviderName, oracle, resend, mailgun, gmail, same_provider, usage_for, provider_order,
}
use rac3011_api.Notifications.Usage.Laws.{same_provider→eq}
use rac3011_api.Notifications.Pool.{
  EmailMessage, EmailPoolMessage, EmailTransport, EmailPoolConfig, PoolState, Turn, skipped,
  delivered, rejected, turn, send_from, sent_by, refused, unavailable, EmailPoolResult, pool_send,
  is_cooling_down, deliver,
}
use rac3011_api.Notifications.Pool.Laws.{turn-Outcome, TurnOutcome}
use rac3011_api.Notifications.Pool.Delivery.{rewritten, day_of}

abbrev pub is_sent : EmailPoolResult → Bool
is_sent (sent_by name) = true
is_sent refused = false
is_sent unavailable = false

module _ {O : Type 0} (now : O → ℕ × O) (config : EmailPoolConfig)
    (transports : List (EmailTransport O)) where
  -- The provider has a transport, that is configured and takes every mail.
  pub record IsReady (name : EmailProviderName) : Type 0 where
    pub transport : EmailTransport O
    pub found : find (λ t. same_provider t.name name) transports ≡ some transport
    pub configured : transport.is_configured ≡ true
    pub takes : (message : EmailMessage) (o : O) → (transport.send_mail message o).0 ≡ true

  module _ (usage : EmailProviderName → ℕ) (day : ℕ) (message : EmailMessage)
      (good : EmailProviderName) (ready : IsReady good)
      (below : usage good < config.caps good) where
    deliver-taken :
        (w : PoolState O) → (deliver now config ready.transport good day message w).0 ≡ delivered
    unfolding deliver
    deliver-taken w = rw (ready.takes message w.outside) refl

    turn-good :
        (w : PoolState O)
        → w.failed_at good ≡ none
        → (turn now config transports usage day message good w).0 ≡ delivered
    unfolding turn is_cooling_down
    turn-good w fine =
        let room : leb (config.caps good) (usage good) ≡ false = ground arith in
        rw (turn, ready.found)
          (simp ready.configured (rw room (rw (is_cooling_down, fine) (deliver-taken w))))

    still_fine :
        (name : EmailProviderName) (what : Turn) (w w' : PoolState O)
        → TurnOutcome now config usage day message name what w w'
        → same_provider name good ≡ false
        → (what ≡ delivered) ⊎ (w'.failed_at good ≡ w.failed_at good)
    still_fine name skipped w w' (_, _, others) other = inr (others good other)
    still_fine name rejected w w' (_, _, others) other = inr (others good other)
    still_fine name delivered w w' t other = inl refl

    sent_after :
        (name : EmailProviderName) (what : Turn) (w' : PoolState O)
        (later : EmailPoolResult × PoolState O)
        → (what ≡ delivered) ⊎ (is_sent later.0 ≡ true)
        → is_sent
            (elim what as (λ _. EmailPoolResult × PoolState O) [
              | delivered ↦ (sent_by name, w')
              | skipped ↦ later
              | rejected ↦ later
            ]).0
          ≡ true
    sent_after name delivered w' later h = refl
    sent_after name skipped w' later (inl wrong) = absurd (cc)
    sent_after name skipped w' later (inr sent) = sent
    sent_after name rejected w' later (inl wrong) = absurd (cc)
    sent_after name rejected w' later (inr sent) = sent

    send_from-good :
        (names : List EmailProviderName) (w : PoolState O)
        → any (λ n. same_provider n good) names ≡ true
        → w.failed_at good ≡ none
        → is_sent (send_from now config transports usage day message names w).0 ≡ true
    unfolding send_from
    send_from-good [] w h fine = absurd (cc)
    send_from-good (name ∷ names) w h fine =
        let (what, w') = turn now config transports usage day message name w in
        sent_after name what w' _ (elim (Bool-cases (same_provider name good)) [
          | inl it ↦ inl (rw (same_provider→eq name good it) (turn-good w fine))
          | inr other ↦
              elim (still_fine name what w w'
                (turn-Outcome now config usage day message transports name w) other) [
                  | inl sent ↦ inl sent
                  | inr kept ↦ inr (send_from-good names w' (ground arith) (kept ∙ fine))
                ]
        ])

  tried : (name : EmailProviderName) → any (λ n. same_provider n name) provider_order ≡ true
  tried oracle = refl
  tried resend = refl
  tried mailgun = refl
  tried gmail = refl

  -- A mail that may go somewhere is sent, if one of the providers is ready, is not known to have
  -- failed, and is below its cap on the day that the clock shows.
  pub pool_send-is_sent :
      (trim lower : String → String) (message : EmailPoolMessage) (to subject : String)
      (good : EmailProviderName) (w : PoolState O)
      → rewritten now config transports trim lower message ≡ send to subject
      → IsReady good
      → w.failed_at good ≡ none
      → usage_for (day_of now config transports trim lower w) w.usage good < config.caps good
      → is_sent (pool_send now config transports trim lower message w).0 ≡ true
  unfolding pool_send
  pool_send-is_sent trim lower message to subject good w goes ready fine below =
      rw goes (send_from-good _ _ _ good ready below provider_order _ (tried good) fine)
