-- ===== src/Points/Entries/Tests.antt =====
-- A run of the recomputation on a concrete table, and an instance of its theorem.
use rac3011_api.Base.{
  Option, Bool, true, All, sym, ◌∙◌, ℕ, zero, suc, ◌+◌, ◌*◌, ◌/◌, ◌≤◌, String, ◌≡◌, refl, ap, false,
  none, some, List, [], ◌∷◌, ◌==◌, arith, any, length, codes, ltb, leb, min, ok, eq_iff, Bool-cases,
  inl, inr,
}
use rac3011_api.Db.{Table}
use rac3011_api.Db.ListTable.{list_table}
use rac3011_api.Effects.{emit}
use rac3011_api.Points.Evaluation.{
  RuleInput, Trace, EvalRule, Numbers, flat, monthly, evaluate_rule, trace,
}
use rac3011_api.Points.Entries.{
  ops_for, ClubPointEntry, PointsEnv, RecomputeParams, World, computed, judged, same_entry,
  find_once_awarded, computed_ops, upsert_computed_entry, delete_computed_entry,
  delete_stale_computed, apply_op, apply_ops, recompute,
}
use rac3011_api.Points.Entries.Refinement
use rac3011_api.Points.Entries.Refinement.{recompute-Refines}

abbrev num : Numbers ℕ
num = record {
  nought = 0;
  hundred = 100;
  lt = ltb;
  le = leb;
  times = λ a b. a * b;
  over = λ a b. a / b;
  smaller = min;
}

abbrev rule : EvalRule ℕ
rule = record {
  id = "r1";
  key = "k";
  label = "Meetings";
  category_key = "c";
  rule_type = flat;
  period = monthly;
  points = some 3;
  per_unit_cap = none;
  tiers = [];
}

abbrev given : ℕ → RuleInput ℕ
given n = record { value = some n; numerator = none; denominator = none; count = none }

-- An id longer than all ids of the table together.
abbrev total : List (ClubPointEntry ℕ) → ℕ
total [] = 0
total (r ∷ rows) = length (codes r.id) + total rows

abbrev ones : ℕ → String
ones zero = "1"
ones (suc n) = String.◌∷◌ "1" (ones n)

length-ones : (n : ℕ) → length (codes (ones n)) ≡ suc n
length-ones zero = refl
length-ones (suc n) = ground (arith, length-ones n)

longer :
    (n : ℕ) (rows : List (ClubPointEntry ℕ))
    → total rows ≤ n
    → any (λ r. ones n == r.id) rows ≡ false
longer n [] h = refl
longer n (r ∷ rows) h = elim (Bool-cases (ones n == r.id)) [
  | inl same ↦
      let e : ones n ≡ r.id = ground (arith, same, eq_iff (ones n) r.id) in
      absurd (ground (arith, h, ap (λ s. length (codes s)) e, length-ones n))
  | inr other ↦ ground (arith, other, longer n rows)
]

abbrev env : PointsEnv ℕ (List (ClubPointEntry ℕ))
env = record {
  active_rules = λ year.
      record {
        category_id = "c";
        source_type = "report_field";
        source_key = "meetings";
        numerator_key = none;
        denominator_key = none;
        eval_rule = rule;
      }
      ∷ [];
  inputs = λ rule params. ("2026-07", given 2) ∷ ("2026-08", given 0) ∷ [];
  new_id = λ rows. ones (total rows);
  to_column = λ points. points;
  fits = λ club rule category points. ltb points 100;
}

abbrev params : RecomputeParams
params = record { club_id = "c1"; ry_year = 2026; month = none }

abbrev entry : String → String → String → ClubPointEntry ℕ
entry id rule_id period_key = record {
  id = id;
  club_id = "c1";
  ry_year = 2026;
  period_key = period_key;
  rule_id = some rule_id;
  category_id = "c";
  kind = computed;
  points = 9;
  reason = none;
  trace = none;
  source_type = none;
  created_by_id = none;
}

abbrev judged_entry : ClubPointEntry ℕ
judged_entry = record (entry "j" "r0" "2026-07") { rule_id = none; kind = judged }

-- An entry of August, which gives nothing now, one of a rule that is not active any more, and one that
-- an officer made.
abbrev world : World (List (ClubPointEntry ℕ))
world = record {
  entries = entry "a" "r1" "2026-08" ∷ entry "b" "r9" "2026-07" ∷ judged_entry ∷ [];
  effects = [];
}

abbrev table : Table (List (ClubPointEntry ℕ)) (ClubPointEntry ℕ) same_entry
table = list_table same_entry

recomputed : recompute num table env params world ≡ (
  ok tt,
  record {
    entries =
        judged_entry
        ∷ record (entry "1111" "r1" "2026-07") {
          points = 3;
          trace = some (trace num rule (given 2) 3 none);
        }
        ∷ [];
    effects = emit "points.recomputed" "c1" ∷ [];
  },
)
unfolding evaluate_rule find_once_awarded computed_ops upsert_computed_entry delete_computed_entry
    delete_stale_computed apply_op apply_ops recompute
recomputed = refl

abbrev is_small : Option (Trace ℕ) → Bool
is_small none = true
is_small (some trace) = ltb trace.points 100

small_of :
    (result : Option (Trace ℕ))
    → is_small result ≡ true
    → (trace : Trace ℕ) → result ≡ some trace
    → ltb trace.points 100 ≡ true
small_of result small trace e = sym (ap is_small e) ∙ small

results_fit :
    All (Refinement.Fits num table env params) (ops_for num table env params world.entries)
unfolding evaluate_rule find_once_awarded computed_ops
results_fit = (small_of _ refl, (small_of _ refl, tt))

recompute-Refines_example :
    let (result, w') = recompute num table env params world in
    Refinement.Refines num table env params
      (λ s. longer (total s) s (omega arith))
      world
      (record { club_id = "c1"; rule_id = "r1"; period_key = "2026-08" })
      result
      w'
recompute-Refines_example =
    recompute-Refines num table env params (λ s. longer (total s) s (omega arith)) world
      (record { club_id = "c1"; rule_id = "r1"; period_key = "2026-08" }) results_fit
      (refl, (refl, (refl, tt)))
