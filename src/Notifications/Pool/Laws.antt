-- ===== src/Notifications/Pool/Laws.antt =====
-- What one turn of the loop over the providers does, and what a whole mail comes to.
use mathlib.Core.List.{append_assoc, append-nil}
use rac3011_api.Base.{
  ℕ, ◌+◌, ◌<◌, ◌≡◌, refl, Bool, true, false, ◌&&◌, List, [], ◌∷◌, ◌++◌, map, arith, inl, inr,
  if◌then◌else◌, eqb, leb, find, Bool-cases, Option-cases, ltb, ◌-◌, sym, ◌∙◌,
}
use rac3011_api.Notifications.Usage.{EmailProviderName, same_provider, usage_for}
use rac3011_api.Notifications.Usage.Laws.{usage_for-increment, usage_for-decrement-increment}
use rac3011_api.Notifications.Pool.{
  EmailMessage, EmailTransport, EmailPoolConfig, PoolState, Turn, skipped, delivered, rejected,
  is_cooling_down, deliver, turn, failure_cooldown_ms, send_from, sent_by, refused, unavailable,
  EmailPoolResult,
}

module _ {O : Type 0} where
  -- No count has changed.
  abbrev pub SameCounts : PoolState O → PoolState O → Type 0
  SameCounts w w' = (n : EmailProviderName) (d : ℕ) → usage_for d w'.usage n ≡ usage_for d w.usage n

  -- The count of one provider on one day is one higher, and no other has changed.
  abbrev pub CountedOnce : EmailProviderName → ℕ → PoolState O → PoolState O → Type 0
  CountedOnce name day w w' =
      (n : EmailProviderName) (d : ℕ)
      → usage_for d w'.usage n ≡ (
          if same_provider name n && eqb day d
          then usage_for d w.usage n + 1
          else usage_for d w.usage n)

  -- No failure of another provider is noted or forgotten.
  abbrev pub OthersFail : EmailProviderName → PoolState O → PoolState O → Type 0
  OthersFail name w w' =
      (n : EmailProviderName) → same_provider name n ≡ false → w'.failed_at n ≡ w.failed_at n

module _ {O : Type 0} (now : O → ℕ × O) (config : EmailPoolConfig) where
  module _ (usage : EmailProviderName → ℕ) (day : ℕ) (message : EmailMessage) where
    -- What one turn for `name` may do, by what it comes to.
    abbrev pub TurnOutcome : EmailProviderName → Turn → PoolState O → PoolState O → Type 0
    TurnOutcome name skipped w w' = (w'.calls ≡ w.calls) × SameCounts w w' × OthersFail name w w'
    TurnOutcome name rejected w w' =
        (w'.calls ≡ w.calls ++ (name, message, false) ∷ []) × SameCounts w w' × OthersFail name w w'
    TurnOutcome name delivered w w' =
        (w'.calls ≡ w.calls ++ (name, message, true) ∷ [])
        × CountedOnce name day w w'
        × (usage name < config.caps name)

    abbrev pub rejection : EmailProviderName → EmailProviderName × EmailMessage × Bool
    rejection name = (name, message, false)

    -- What the loop may do, by what it returns: every provider that was asked before has refused.
    abbrev pub SendOutcome : EmailPoolResult → PoolState O → PoolState O → Type 0
    SendOutcome (sent_by name) w w' =
        (failed : List EmailProviderName) × (w'.calls
          ≡ w.calls ++ (map rejection failed ++ (name, message, true) ∷ []))
        × CountedOnce name day w w'
        × (usage name < config.caps name)
    SendOutcome unavailable w w' =
        (failed : List EmailProviderName) × (w'.calls ≡ w.calls ++ map rejection failed)
        × SameCounts w w'
    SendOutcome refused w w' = ⊥

    deliver-Outcome :
        (name : EmailProviderName) (transport : EmailTransport O) (w : PoolState O)
        → usage name < config.caps name
        → TurnOutcome name
            (deliver now config transport name day message w).0
            w
            (deliver now config transport name day message w).1
    unfolding deliver
    deliver-Outcome name transport w below =
        elim (Bool-cases (transport.send_mail message w.outside).0) [
          | inl taken ↦ rw taken (refl, (λ n d. usage_for-increment name n day d w.usage), below)
          | inr back ↦ rw back (
            refl,
            (λ n d. usage_for-decrement-increment name n day d w.usage),
            (λ n other. rw other refl),
          )
        ]

    same_turn : (name : EmailProviderName) (w : PoolState O) → TurnOutcome name skipped w w
    same_turn name w = (refl, (λ n d. refl), (λ n other. refl))

    -- Reading the clock alone changes nothing that a turn is judged by.
    after_reading :
        (name : EmailProviderName) (w : PoolState O) (o : O) (what : Turn) (w' : PoolState O)
        → TurnOutcome name what (record w { outside = o }) w'
        → TurnOutcome name what w w'
    after_reading name w o skipped w' t = t
    after_reading name w o rejected w' t = t
    after_reading name w o delivered w' t = t

    cooling-Outcome :
        (name : EmailProviderName) (transport : EmailTransport O) (w : PoolState O)
        → usage name < config.caps name
        → let (cooling, w') = is_cooling_down now config name w in
          let (what, w'') =
            (if cooling then (skipped, w') else deliver now config transport name day message w') in
          TurnOutcome name what w w''
    unfolding is_cooling_down
    cooling-Outcome name transport w below = elim (Option-cases (w.failed_at name)) [
      | inl fine ↦ rw (is_cooling_down, fine) (deliver-Outcome name transport w below)
      | inr (ms, bad) ↦
          rw (is_cooling_down, bad)
            (elim (Bool-cases (ltb ((now w.outside).0 - ms) failure_cooldown_ms)) [
              | inl still ↦ rw still (same_turn name w)
              | inr over ↦ rw over (
                  after_reading name w (now w.outside).1 _ _ (
                    deliver-Outcome name transport (record w { outside = (now w.outside).1 })
                      below))
            ])
    ]

    after_skip :
        (name : EmailProviderName) (w w1 : PoolState O) (result : EmailPoolResult)
        (w2 : PoolState O)
        → TurnOutcome name skipped w w1
        → SendOutcome result w1 w2
        → SendOutcome result w w2
    after_skip name w w1 (sent_by n) w2 (calls, counts, _) (failed, calls', counts', below) =
        (failed, rw (← calls) calls', (λ m d. rw (← counts m d) (counts' m d)), below)
    after_skip name w w1 unavailable w2 (calls, counts, _) (failed, calls', counts') =
        (failed, rw (← calls) calls', (λ m d. rw (← counts m d) (counts' m d)))
    after_skip name w w1 refused w2 t r = r

    after_reject :
        (name : EmailProviderName) (w w1 : PoolState O) (result : EmailPoolResult)
        (w2 : PoolState O)
        → TurnOutcome name rejected w w1
        → SendOutcome result w1 w2
        → SendOutcome result w w2
    after_reject name w w1 (sent_by n) w2 (calls, counts, _) (failed, calls', counts', below) = (
      name ∷ failed,
      calls' ∙ (rw calls (append_assoc w.calls _ _)),
      (λ m d. rw (← counts m d) (counts' m d)),
      below,
    )
    after_reject name w w1 unavailable w2 (calls, counts, _) (failed, calls', counts') = (
      name ∷ failed,
      calls' ∙ (rw calls (append_assoc w.calls _ _)),
      (λ m d. rw (← counts m d) (counts' m d)),
    )
    after_reject name w w1 refused w2 t r = r

    -- The rest of the loop after a turn.
    after_turn :
        (name : EmailProviderName) (w w1 : PoolState O) (what : Turn)
        (later : EmailPoolResult × PoolState O)
        → TurnOutcome name what w w1
        → SendOutcome later.0 w1 later.1
        → let (result, w2) = elim what as (λ _. EmailPoolResult × PoolState O) [
          | delivered ↦ (sent_by name, w1)
          | skipped ↦ later
          | rejected ↦ later
        ] in
          SendOutcome result w w2
    after_turn name w w1 skipped later t r = after_skip name w w1 later.0 later.1 t r
    after_turn name w w1 rejected later t r = after_reject name w w1 later.0 later.1 t r
    after_turn name w w1 delivered later (calls, counts, below) r = ([], calls, counts, below)

    module _ (transports : List (EmailTransport O)) where
      pub turn-Outcome :
          (name : EmailProviderName) (w : PoolState O)
          → let (what, w') = turn now config transports usage day message name w in
            TurnOutcome name what w w'
      unfolding turn
      turn-Outcome name w = elim (Option-cases (find (λ t. same_provider t.name name) transports)) [
        | inl missing ↦ rw (turn, missing) (same_turn name w)
        | inr (transport, found) ↦
            rw (turn, found)
              (elim (Bool-cases transport.is_configured) [
                | inr off ↦ simp off (same_turn name w)
                | inl on ↦ simp on (elim (Bool-cases (leb (config.caps name) (usage name))) [
                  | inl full ↦ rw full (same_turn name w)
                  | inr below ↦ rw below (cooling-Outcome name transport w (ground arith))
                ])
              ])
      ]

      pub send_from-Outcome :
          (names : List EmailProviderName) (w : PoolState O)
          → let (result, w') = send_from now config transports usage day message names w in
            SendOutcome result w w'
      unfolding send_from
      send_from-Outcome [] w = ([], sym (append-nil w.calls), (λ n d. refl))
      send_from-Outcome (name ∷ names) w =
          let (what, w') = turn now config transports usage day message name w in
          after_turn name w w' what _ (turn-Outcome name w) (send_from-Outcome names w')
