-- ===== src/Points/Entries.antt =====
-- src/points/engine/points-engine.service.ts (recompute) and the queries of
-- src/points/points-entries.repository.ts that it makes.
pub mod Rows
pub mod Book
pub mod Steps
pub mod Refinement
mod Tests
use rac3011_api.Base.{
  ℕ, String, Bool, true, false, not, ◌&&◌, ◌||◌, Option, none, some, List, [], ◌∷◌, ◌++◌, ◌==◌, map,
  keep, includes, if◌then◌else◌, is_text, get_or, eqb, Result, ok, err, internal,
}
use rac3011_api.Action.{Action, pure, modify, ◌>>=◌, ◌>>◌}
use rac3011_api.Db.{Table}
use rac3011_api.Effects.{Effect, emit}
use rac3011_api.Points.Evaluation.{RuleInput, EvalRule, Trace, Numbers, is_once, evaluate_rule}

pub data EntryKind : Type 0 where
  computed judged : EntryKind

abbrev pub is_computed : EntryKind → Bool
is_computed computed = true
is_computed judged = false

pub record ClubPointEntry (N : Type 0) : Type 0 where
  pub id : String
  pub club_id : String
  pub ry_year : ℕ
  pub period_key : String
  pub rule_id : Option String
  pub category_id : String
  pub kind : EntryKind
  pub points : N
  pub reason : Option String
  pub trace : Option (Trace N)
  pub source_type : Option String
  pub created_by_id : Option String

-- A rule of a year, as far as it is not for its evaluation: the category, and the adapter of its
-- source with the keys that it reads.
pub record PointRule (N : Type 0) : Type 0 where
  pub category_id : String
  pub source_type : String
  pub source_key : String
  pub numerator_key : Option String
  pub denominator_key : Option String
  pub eval_rule : EvalRule N

-- `ComputedOp`
pub record ComputedOp (N : Type 0) : Type 0 where
  pub rule_id : String
  pub category_id : String
  pub period_key : String
  pub trace : Option (Trace N)

pub record RecomputeParams : Type 0 where
  pub club_id : String
  pub ry_year : ℕ
  pub month : Option ℕ

-- `{ clubId, ruleId, periodKey, kind: 'computed' }`
abbrev pub is_entry : {N : Type 0} → String → String → String → ClubPointEntry N → Bool
is_entry club_id rule_id period_key r =
    (r.club_id == club_id && is_text r.rule_id rule_id)
    && (r.period_key == period_key && is_computed r.kind)

-- The keys of the table: the id, and for computed entries the club, the rule and the period (the
-- index club_point_entries_computed_idempotent).
abbrev pub same_rule_entry :
    {N : Type 0} → Option String → ClubPointEntry N → ClubPointEntry N → Bool
same_rule_entry none a b = false
same_rule_entry (some rule_id) a b = is_computed a.kind && is_entry a.club_id rule_id a.period_key b

abbrev pub same_entry : {N : Type 0} → ClubPointEntry N → ClubPointEntry N → Bool
same_entry a b = a.id == b.id || same_rule_entry a.rule_id a b

-- `rules.listRules(ryYear, true)`, the inputs that the adapters give, the id of the next entry, the
-- points as the column keeps them (a decimal with two places), and whether the database takes a row
-- of a club, a rule and a category with some points: the three exist, and the points are not too large.
pub record PointsEnv (N S : Type 0) : Type 0 where
  pub active_rules : ℕ → List (PointRule N)
  pub inputs : PointRule N → RecomputeParams → List (String × RuleInput N)
  pub new_id : S → String
  pub to_column : N → N
  pub fits : String → String → String → N → Bool

pub record World (S : Type 0) : Type 0 where
  pub entries : S
  pub effects : List Effect

module _ {N S : Type 0} (num : Numbers N) (table : Table S (ClubPointEntry N) same_entry)
    (env : PointsEnv N S) where
  abbrev pub rule_id_of : PointRule N → String
  rule_id_of rule = rule.eval_rule.id

  abbrev pub is_once_rule : PointRule N → Bool
  is_once_rule rule = is_once rule.eval_rule.period

  -- `{ clubId, ruleId: { in: ruleIds }, periodKey: 'once', kind: 'computed' }`
  abbrev pub is_once_entry : String → List String → ClubPointEntry N → Bool
  is_once_entry club_id rule_ids r =
      (r.club_id == club_id && elim r.rule_id [ none ↦ false | some id ↦ includes id rule_ids ])
      && (r.period_key == "once" && is_computed r.kind)

  -- `findOnceAwardedRuleIds`, as a list
  unfoldable pub find_once_awarded : String → List String → S → List String
  find_once_awarded club_id rule_ids s =
      map (λ r. get_or r.rule_id "") (keep (is_once_entry club_id rule_ids) (table.rows s))

  abbrev pub op_of : PointRule N → String × RuleInput N → ComputedOp N
  op_of rule (period_key, input) = record {
    rule_id = rule_id_of rule;
    category_id = rule.category_id;
    period_key = period_key;
    trace = evaluate_rule num rule.eval_rule input false;
  }

  -- The loop over the rules, with the ids of the rules that were awarded once and for all.
  unfoldable pub computed_ops :
      RecomputeParams → List String → List (PointRule N) → List (ComputedOp N)
  computed_ops params awarded [] = []
  computed_ops params awarded (rule ∷ rules) =
      let rest = computed_ops params awarded rules in
      if is_once_rule rule && includes (rule_id_of rule) awarded
      then rest
      else map (op_of rule) (env.inputs rule params) ++ rest

  -- The `data` of an entry over the columns of a row.
  abbrev pub awarded_row :
      RecomputeParams → ComputedOp N → Trace N → ClubPointEntry N → ClubPointEntry N
  awarded_row params op trace r = record r {
    club_id = params.club_id;
    ry_year = params.ry_year;
    rule_id = some op.rule_id;
    category_id = op.category_id;
    period_key = op.period_key;
    kind = computed;
    points = env.to_column trace.points;
    trace = some trace;
  }

  abbrev pub new_entry : RecomputeParams → ComputedOp N → Trace N → S → ClubPointEntry N
  new_entry params op trace s = record {
    id = env.new_id s;
    club_id = params.club_id;
    ry_year = params.ry_year;
    period_key = op.period_key;
    rule_id = some op.rule_id;
    category_id = op.category_id;
    kind = computed;
    points = env.to_column trace.points;
    reason = none;
    trace = some trace;
    source_type = none;
    created_by_id = none;
  }

  abbrev pub fits_op : RecomputeParams → ComputedOp N → Trace N → Bool
  fits_op params op trace =
      env.fits params.club_id op.rule_id op.category_id (env.to_column trace.points)

  abbrev pub of_op : RecomputeParams → ComputedOp N → ClubPointEntry N → Bool
  of_op params op = is_entry params.club_id op.rule_id op.period_key

  -- `upsertComputedEntry` with `findComputedEntryId`; an id is never empty. `none` is a thrown error.
  unfoldable pub upsert_computed_entry : RecomputeParams → ComputedOp N → Trace N → S → Option S
  upsert_computed_entry params op trace s = elim (table.find_first (of_op params op) s) [
    | some old ↦
        if fits_op params op trace
        then some (table.update_many (λ r. r.id == old.id) (awarded_row params op trace) s)
        else none
    | none ↦ if fits_op params op trace then table.create (new_entry params op trace s) s else none
  ]

  unfoldable pub delete_computed_entry : RecomputeParams → ComputedOp N → S → S
  delete_computed_entry params op = table.delete_many (of_op params op)

  -- `ruleId: activeRuleIds.length ? { notIn: activeRuleIds } : { not: null }`; a `notIn` does not hold
  -- of `null`.
  abbrev pub is_stale_entry : RecomputeParams → List String → ClubPointEntry N → Bool
  is_stale_entry params active r =
      (r.club_id == params.club_id && eqb r.ry_year params.ry_year)
      && (is_computed r.kind
          && elim r.rule_id [ none ↦ false | some id ↦ not (includes id active) ])

  unfoldable pub delete_stale_computed : RecomputeParams → List String → S → S
  delete_stale_computed params active = table.delete_many (is_stale_entry params active)

  unfoldable pub apply_op : RecomputeParams → ComputedOp N → S → Option S
  unfolding upsert_computed_entry delete_computed_entry
  apply_op params op s = elim op.trace [
    | some trace ↦ upsert_computed_entry params op trace s
    | none ↦ some (delete_computed_entry params op s)
  ]

  -- The loop of the transaction.
  unfoldable pub apply_ops : RecomputeParams → List (ComputedOp N) → S → Option S
  apply_ops params [] s = some s
  apply_ops params (op ∷ ops) s = elim (apply_op params op s) [
    | none ↦ none
    | some s' ↦ apply_ops params ops s'
  ]

  abbrev pub active_ids : RecomputeParams → List String
  active_ids params = map rule_id_of (env.active_rules params.ry_year)

  abbrev pub once_ids : RecomputeParams → List String
  once_ids params = map rule_id_of (keep is_once_rule (env.active_rules params.ry_year))

  abbrev pub ops_for : RecomputeParams → S → List (ComputedOp N)
  ops_for params s =
      computed_ops params (find_once_awarded params.club_id (once_ids params) s)
        (env.active_rules params.ry_year)

  -- The transaction: an error takes back what was written.
  unfoldable pub recompute : RecomputeParams → Action (World S) (Unit {0})
  unfolding find_once_awarded computed_ops delete_stale_computed
  recompute params w = elim (apply_ops params (ops_for params w.entries) w.entries) [
    | none ↦ (err internal, w)
    | some s ↦ (
      ok tt,
      record w {
        entries = delete_stale_computed params (active_ids params) s;
        effects = w.effects ++ emit "points.recomputed" params.club_id ∷ [];
      },
    )
  ]
