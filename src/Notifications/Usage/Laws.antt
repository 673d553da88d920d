-- ===== src/Notifications/Usage/Laws.antt =====
-- The daily counts after a mail has been counted, and after it has been taken back.
use rac3011_api.Base.{
  ℕ, ◌+◌, ◌-◌, max, ◌≡◌, refl, true, ◌&&◌, none, some, if◌then◌else◌, eqb, eqb→eq, arith, inl, inr,
  Bool-cases, Option-cases,
}
use rac3011_api.Notifications.Usage.{
  EmailProviderName, oracle, resend, mailgun, gmail, same_provider, UsageTable, put, increment,
  decrement, usage_for,
}

pub same_provider→eq : (a b : EmailProviderName) → same_provider a b ≡ true → a ≡ b
same_provider→eq oracle oracle h = refl
same_provider→eq resend resend h = refl
same_provider→eq mailgun mailgun h = refl
same_provider→eq gmail gmail h = refl
same_provider→eq oracle resend h = absurd (cc)
same_provider→eq oracle mailgun h = absurd (cc)
same_provider→eq oracle gmail h = absurd (cc)
same_provider→eq resend oracle h = absurd (cc)
same_provider→eq resend mailgun h = absurd (cc)
same_provider→eq resend gmail h = absurd (cc)
same_provider→eq mailgun oracle h = absurd (cc)
same_provider→eq mailgun resend h = absurd (cc)
same_provider→eq mailgun gmail h = absurd (cc)
same_provider→eq gmail oracle h = absurd (cc)
same_provider→eq gmail resend h = absurd (cc)
same_provider→eq gmail mailgun h = absurd (cc)

pub same_provider_refl : (a : EmailProviderName) → same_provider a a ≡ true
same_provider_refl oracle = refl
same_provider_refl resend = refl
same_provider_refl mailgun = refl
same_provider_refl gmail = refl

usage_for-put :
    (name n : EmailProviderName) (day d count : ℕ) (t : UsageTable)
    → usage_for d (put name day count t) n
      ≡ (if same_provider name n && eqb day d then count else usage_for d t n)
unfolding usage_for
usage_for-put name n day d count t = ground arith

-- A count read under the key that was written.
usage_at :
    (name n : EmailProviderName) (day d : ℕ) (t : UsageTable)
    → (same_provider name n && eqb day d) ≡ true
    → usage_for d t n ≡ usage_for day t name
usage_at name n day d t h =
    rw (← same_provider→eq name n (ground arith)) (rw (← eqb→eq day d (ground arith)) refl)

module _ (name : EmailProviderName) (day : ℕ) (t : UsageTable) where
  increment_absent : t name day ≡ none → increment name day t ≡ put name day 1 t
  unfolding increment
  increment_absent h = rw (increment, h) refl

  increment_present :
      (count : ℕ) → t name day ≡ some count → increment name day t ≡ put name day (count + 1) t
  unfolding increment
  increment_present count h = rw (increment, h) refl

  decrement_present :
      (count : ℕ)
      → t name day ≡ some count
      → decrement name day t ≡ put name day (max (count - 1) 0) t
  unfolding decrement
  decrement_present count h = rw (decrement, h) refl

  usage_for_absent : t name day ≡ none → usage_for day t name ≡ 0
  unfolding usage_for
  usage_for_absent h = rw h refl

  usage_for_present : (count : ℕ) → t name day ≡ some count → usage_for day t name ≡ count
  unfolding usage_for
  usage_for_present count h = rw h refl

  put_here : (count : ℕ) → put name day count t name day ≡ some count
  put_here count = ground (arith, same_provider_refl name)

  increment_eq : increment name day t ≡ put name day (usage_for day t name + 1) t
  increment_eq = elim (Option-cases (t name day)) [
    | inl absent ↦ rw (increment_absent absent, usage_for_absent absent) refl
    | inr (count, present) ↦
        rw (increment_present count present, usage_for_present count present) refl
  ]

module _ (name n : EmailProviderName) (day d : ℕ) (t : UsageTable) where
  pub usage_for-increment :
      usage_for d (increment name day t) n
      ≡ (if same_provider name n && eqb day d then usage_for d t n + 1 else usage_for d t n)
  usage_for-increment =
      rw (increment_eq name day t) (elim (Bool-cases (same_provider name n && eqb day d)) [
        | inl here ↦ ground (
          arith,
          usage_for-put name n day d (usage_for day t name + 1) t,
          usage_at name n day d t here,
        )
        | inr there ↦ ground (arith, usage_for-put name n day d (usage_for day t name + 1) t)
      ])

  pub usage_for-decrement-increment :
      usage_for d (decrement name day (increment name day t)) n ≡ usage_for d t n
  usage_for-decrement-increment =
      let count = usage_for day t name in
      let counted = put name day (count + 1) t in
      rw (increment_eq name day t) (
        rw (decrement_present name day counted (count + 1) (put_here name day t (count + 1)))
          (elim (Bool-cases (same_provider name n && eqb day d)) [
            | inl here ↦ ground (
              arith,
              usage_for-put name n day d (max (count + 1 - 1) 0) counted,
              usage_at name n day d t here,
            )
            | inr there ↦ ground (
              arith,
              usage_for-put name n day d (max (count + 1 - 1) 0) counted,
              usage_for-put name n day d (count + 1) t,
            )
          ]))
