-- ===== src/Points/Tests.antt =====
-- Runs of the rules over natural numbers, and an instance of the theorem on tiers.
use rac3011_api.Base.{ℕ, ◌*◌, ◌/◌, ◌≡◌, refl, true, false, none, some, [], ◌∷◌, ltb, leb, min}
use rac3011_api.Points.Period.{ry_start_month, ry_end_month, months_from, months_in_scope}
use rac3011_api.Points.Evaluation.{
  RuleInput, EvalRule, Numbers, flat, per_unit, tiered, monthly, once, ratio_or_value,
  evaluate_rule, dues_bracket, trace,
}

run : Unit {0}
unfolding ratio_or_value evaluate_rule dues_bracket ry_start_month ry_end_month months_from
    months_in_scope
run = tt

abbrev num : Numbers ℕ
num = record {
  nought = 0;
  hundred = 100;
  lt = ltb;
  le = leb;
  times = λ a b. a * b;
  over = λ a b. a / b;
  smaller = min;
}

-- Up to one half 5 points, from there 10.
abbrev rule : EvalRule ℕ
rule = record {
  id = "r";
  key = "k";
  label = "Attendance";
  category_key = "c";
  rule_type = tiered;
  period = monthly;
  points = some 3;
  per_unit_cap = some 4;
  tiers =
      record { min = 0; max = some 50; points = 5 }
      ∷ record { min = 50; max = none; points = 10 }
      ∷ [];
}

abbrev given : RuleInput ℕ
given = record { value = none; numerator = some 30; denominator = some 10; count = some 7 }

evaluations :
    (evaluate_rule num rule given false ≡ some (trace num rule given 10 (some (50, none))))
    × (evaluate_rule num (record rule { rule_type = per_unit }) given false
        ≡ some (trace num (record rule { rule_type = per_unit }) given 12 none))
    × (evaluate_rule num (record rule { rule_type = flat }) given false ≡ none)
    × (evaluate_rule num (record rule { period = once }) given true ≡ none)
unfolding run
evaluations = (refl, refl, refl, refl)

brackets :
    (dues_bracket none 10 20 20 ≡ none)
    × (dues_bracket none 10 20 21 ≡ some 2)
    × (dues_bracket (some 11) 10 20 30 ≡ some 1)
unfolding run
brackets = (refl, refl, refl)

ratio : ratio_or_value num given ≡ some 300
unfolding run
ratio = refl

-- In September 2026, July, August and September of the year 2026 are in scope.
in_september : months_in_scope 2026 none 24320 ≡ 24318 ∷ 24319 ∷ 24320 ∷ []
unfolding run
in_september = refl
