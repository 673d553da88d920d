-- ===== src/Notifications/Usage.antt =====
-- src/notifications/email/email-provider.ts and src/notifications/email-usage.repository.ts. The
-- table `email_provider_usage` is a function from its key (provider, day) to the row's count.
pub mod Laws
use rac3011_api.Base.{
  ℕ, ◌+◌, ◌-◌, Bool, true, false, ◌&&◌, Option, none, some, List, [], ◌∷◌, if◌then◌else◌, eqb, max,
  get_or,
}

pub data EmailProviderName : Type 0 where
  oracle resend mailgun gmail : EmailProviderName

abbrev pub provider_order : List EmailProviderName
provider_order = oracle ∷ resend ∷ mailgun ∷ gmail ∷ []

abbrev pub same_provider : EmailProviderName → EmailProviderName → Bool
same_provider oracle oracle = true
same_provider resend resend = true
same_provider mailgun mailgun = true
same_provider gmail gmail = true
same_provider _ _ = false

abbrev pub UsageTable : Type 0
UsageTable = EmailProviderName → ℕ → Option ℕ

-- The table with one row inserted or replaced.
abbrev pub put : EmailProviderName → ℕ → ℕ → UsageTable → UsageTable
put name day count t n d = if same_provider name n && eqb day d then some count else t n d

-- `INSERT … ON CONFLICT … DO UPDATE SET count = count + 1`
unfoldable pub increment : EmailProviderName → ℕ → UsageTable → UsageTable
increment name day t = elim (t name day) [
  | none ↦ put name day 1 t
  | some count ↦ put name day (count + 1) t
]

-- `UPDATE … SET count = GREATEST(count - 1, 0)`
unfoldable pub decrement : EmailProviderName → ℕ → UsageTable → UsageTable
decrement name day t = elim (t name day) [
  | none ↦ t
  | some count ↦ put name day (max (count - 1) 0) t
]

-- `usage.get(name) ?? 0` of the map that `usageFor(day)` returns.
unfoldable pub usage_for : ℕ → UsageTable → EmailProviderName → ℕ
usage_for day t name = get_or (t name day) 0
