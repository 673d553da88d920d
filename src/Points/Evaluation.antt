-- ===== src/Points/Evaluation.antt =====
-- src/points/engine/evaluate-rule.ts and rule-eval.types.ts, and src/points/adapters/dues-bracket.ts.
-- `N` is the type of JavaScript's numbers, with the operations that the code uses.
pub mod Laws
use rac3011_api.Base.{
  ℕ, String, Bool, true, false, not, ◌&&◌, ◌||◌, Option, none, some, List, [], ◌∷◌, if◌then◌else◌,
  is_some, get_or, find, leb, ltb,
}

pub record RuleInput (N : Type 0) : Type 0 where
  pub value : Option N
  pub numerator : Option N
  pub denominator : Option N
  pub count : Option N

pub record TierSpec (N : Type 0) : Type 0 where
  pub min : N
  pub max : Option N
  pub points : N

pub data EvalRuleType : Type 0 where
  flat per_unit tiered penalty : EvalRuleType

pub data EvalRulePeriod : Type 0 where
  monthly yearly once : EvalRulePeriod

pub record EvalRule (N : Type 0) : Type 0 where
  pub id : String
  pub key : String
  pub label : String
  pub category_key : String
  pub rule_type : EvalRuleType
  pub period : EvalRulePeriod
  pub points : Option N
  pub per_unit_cap : Option N
  pub tiers : List (TierSpec N)

pub record Trace (N : Type 0) : Type 0 where
  pub rule_id : String
  pub rule_key : String
  pub label : String
  pub category_key : String
  pub inputs : RuleInput N
  pub tier_matched : Option (N × Option N)
  pub points : N

-- 0, 100, `<`, `<=`, `*`, `/` and `Math.min`.
pub record Numbers (N : Type 0) : Type 0 where
  pub nought : N
  pub hundred : N
  pub lt : N → N → Bool
  pub le : N → N → Bool
  pub times : N → N → N
  pub over : N → N → N
  pub smaller : N → N → N

abbrev pub is_once : EvalRulePeriod → Bool
is_once once = true
is_once monthly = false
is_once yearly = false

module _ {N : Type 0} (num : Numbers N) where
  -- `value > 0`; `undefined` is not.
  abbrev pub positive : Option N → Bool
  positive none = false
  positive (some x) = num.lt num.nought x

  abbrev pub trace : EvalRule N → RuleInput N → N → Option (N × Option N) → Trace N
  trace rule input points tier_matched = record {
    rule_id = rule.id;
    rule_key = rule.key;
    label = rule.label;
    category_key = rule.category_key;
    inputs = input;
    tier_matched = tier_matched;
    points = points;
  }

  unfoldable pub ratio_or_value : RuleInput N → Option N
  ratio_or_value input =
      let denominator = get_or input.denominator num.nought in
      if not (is_some input.numerator || is_some input.denominator)
      then input.value
      else if num.le denominator num.nought
      then none
      else some (num.times (num.over (get_or input.numerator num.nought) denominator) num.hundred)

  -- `t.min <= x && (t.max === null || x < t.max)`
  abbrev pub in_tier : N → TierSpec N → Bool
  in_tier x t = num.le t.min x && (elim t.max [ none ↦ true | some max ↦ num.lt x max ])

  abbrev pub or_value : Option N → Option N → N
  or_value (some count) value = count
  or_value none value = get_or value num.nought

  abbrev pub capped : Option N → N → N
  capped none units = units
  capped (some cap) units = num.smaller units cap

  -- The three cases of the `switch`.
  abbrev pub award_flat : EvalRule N → RuleInput N → Option (Trace N)
  award_flat rule input =
      if positive input.value
      then some (trace rule input (get_or rule.points num.nought) none)
      else none

  abbrev pub award_units : EvalRule N → RuleInput N → Option (Trace N)
  award_units rule input =
      let units = capped rule.per_unit_cap (or_value input.count input.value) in
      if num.le units num.nought
      then none
      else some (trace rule input (num.times units (get_or rule.points num.nought)) none)

  abbrev pub award_found : EvalRule N → RuleInput N → Option (TierSpec N) → Option (Trace N)
  award_found rule input none = none
  award_found rule input (some tier) =
      some (trace rule input tier.points (some (tier.min, tier.max)))

  abbrev pub award_tier : EvalRule N → RuleInput N → Option N → Option (Trace N)
  award_tier rule input none = none
  award_tier rule input (some x) = award_found rule input (find (in_tier x) rule.tiers)

  abbrev pub award_by_type : EvalRuleType → EvalRule N → RuleInput N → Option (Trace N)
  award_by_type flat rule input = award_flat rule input
  award_by_type penalty rule input = award_flat rule input
  award_by_type per_unit rule input = award_units rule input
  award_by_type tiered rule input = award_tier rule input (ratio_or_value input)

  unfoldable pub evaluate_rule : EvalRule N → RuleInput N → Bool → Option (Trace N)
  evaluate_rule rule input already_awarded_once =
      if is_once rule.period && already_awarded_once
      then none
      else award_by_type rule.rule_type rule input

-- Times are in milliseconds; `aug31` and `sep30` are the last seconds of these days in the year.
unfoldable pub dues_bracket : Option ℕ → ℕ → ℕ → ℕ → Option ℕ
dues_bracket none aug31 sep30 now = if ltb sep30 now then some 2 else none
dues_bracket (some paid) aug31 sep30 now =
    if leb paid aug31 then some 0 else if leb paid sep30 then some 1 else some 2
