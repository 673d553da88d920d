-- ===== src/Points/Evaluation/Laws.antt =====
-- A tiered rule awards the points of a tier that the number falls into.
use mathlib.Core.List.{Memᴰ}
use rac3011_api.Base.{◌≡◌, refl, Bool, true, false, Option, none, some, find, arith, any, ◌&&◌}
use rac3011_api.Db.ListTable.{find-Memᴰ, find_holds, is_some-find}
use rac3011_api.Points.Evaluation.{
  RuleInput, TierSpec, EvalRule, Trace, Numbers, tiered, is_once, in_tier, ratio_or_value,
  award_found, evaluate_rule, trace,
}

module _ {N : Type 0} (num : Numbers N) where
  -- What a tiered rule comes to for the number `x`.
  abbrev pub TierOutcome : EvalRule N → RuleInput N → N → Option (Trace N) → Type 0
  TierOutcome rule input x none = any (in_tier num x) rule.tiers ≡ false
  TierOutcome rule input x (some t) =
      (tier : TierSpec N) × Memᴰ tier rule.tiers
      × (in_tier num x tier ≡ true)
      × (t ≡ trace num rule input tier.points (some (tier.min, tier.max)))

  award_found-Outcome :
      (rule : EvalRule N) (input : RuleInput N) (x : N) (found : Option (TierSpec N))
      → find (in_tier num x) rule.tiers ≡ found
      → TierOutcome rule input x (award_found num rule input found)
  award_found-Outcome rule input x none h =
      ground (arith, is_some-find (in_tier num x) rule.tiers, h)
  award_found-Outcome rule input x (some tier) h = (
    tier,
    find-Memᴰ (in_tier num x) rule.tiers tier h,
    find_holds (in_tier num x) rule.tiers tier h,
    refl,
  )

  -- A tiered rule that is not spent, for an input that gives the number `x`, awards the points of a
  -- tier of the rule that `x` falls into; it awards nothing only if `x` falls into none.
  pub evaluate_rule-tiered :
      (rule : EvalRule N) (input : RuleInput N) (already : Bool) (x : N)
      → rule.rule_type ≡ tiered
      → (is_once rule.period && already) ≡ false
      → ratio_or_value num input ≡ some x
      → TierOutcome rule input x (evaluate_rule num rule input already)
  unfolding evaluate_rule
  evaluate_rule-tiered rule input already x type open_rule number =
      rw open_rule (simp type (rw number (award_found-Outcome rule input x _ refl)))
