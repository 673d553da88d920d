-- ===== src/Points/Entries/Book.antt =====
-- src/points/engine/points-engine.service.ts (recompute): a book of awards, one at most for each club,
-- rule and period, and the keys of entries.
use rac3011_api.Base.{
  ℕ, String, ◌≡◌, Bool, true, false, not, ◌&&◌, ◌||◌, Option, none, some, List, [], ◌∷◌, ◌==◌,
  arith, find, includes, is_text, if◌then◌else◌, eqb, Option-cases, inl, inr, eq_iff,
}
use rac3011_api.Points.Evaluation.{Trace}
use rac3011_api.Points.Entries.{
  ClubPointEntry, ComputedOp, RecomputeParams, is_computed, is_entry, same_entry,
}

-- What the club got for a rule and a period.
pub record Award (N : Type 0) : Type 0 where
  pub ry_year : ℕ
  pub category_id : String
  pub points : N
  pub trace : Option (Trace N)

pub record Key : Type 0 where
  pub club_id : String
  pub rule_id : String
  pub period_key : String

abbrev pub has_key : {N : Type 0} → Key → ClubPointEntry N → Bool
has_key key = is_entry key.club_id key.rule_id key.period_key

abbrev pub key_eq : Key → Key → Bool
key_eq a b = a.club_id == b.club_id && (a.rule_id == b.rule_id && a.period_key == b.period_key)

abbrev pub award_of : {N : Type 0} → Option (ClubPointEntry N) → Option (Award N)
award_of none = none
award_of (some r) =
    some record {
      ry_year = r.ry_year;
      category_id = r.category_id;
      points = r.points;
      trace = r.trace;
    }

-- The book that a list of entries stands for.
abbrev pub book : {N : Type 0} → List (ClubPointEntry N) → Key → Option (Award N)
book rows key = award_of (find (has_key key) rows)

abbrev pub key_of : {N : Type 0} → RecomputeParams → ComputedOp N → Key
key_of params op = record {
  club_id = params.club_id;
  rule_id = op.rule_id;
  period_key = op.period_key;
}

abbrev pub award_by : {N : Type 0} → (N → N) → RecomputeParams → ComputedOp N → Option (Award N)
award_by to_column params op = elim op.trace [
  | none ↦ none
  | some trace ↦ some record {
    ry_year = params.ry_year;
    category_id = op.category_id;
    points = to_column trace.points;
    trace = some trace;
  }
]

-- The book after one result, and after all of them: the last one under a key counts.
abbrev pub book_op :
    {N : Type 0}
    → (N → N)
    → RecomputeParams
    → ComputedOp N
    → Key
    → Option (Award N)
    → Option (Award N)
book_op to_column params op key old =
    if key_eq (key_of params op) key then award_by to_column params op else old

abbrev pub book_ops :
    {N : Type 0}
    → (N → N)
    → RecomputeParams
    → List (ComputedOp N)
    → Key
    → Option (Award N)
    → Option (Award N)
book_ops to_column params [] key old = old
book_ops to_column params (op ∷ ops) key old =
    book_ops to_column params ops key (book_op to_column params op key old)

-- An award of the club and the year is taken away if its rule is not active.
abbrev pub is_current : {N : Type 0} → RecomputeParams → List String → Key → Award N → Bool
is_current params active key award =
    not (key.club_id == params.club_id && eqb award.ry_year params.ry_year)
    || includes key.rule_id active

-- Entries that were not computed.
abbrev pub is_other : {N : Type 0} → ClubPointEntry N → Bool
is_other r = not (is_computed r.kind)

pub ==_sym : (s t : String) → (s == t) ≡ (t == s)
==_sym s t = ground (arith, eq_iff s t, eq_iff t s)

is_text_sym :
    (a b : Option String) (s t : String) → a ≡ some s → b ≡ some t → is_text a t ≡ is_text b s
is_text_sym a b s t ha hb = rw ha (rw hb (==_sym s t))

pub key_eq→eq : (k l : Key) → key_eq k l ≡ true → k ≡ l
key_eq→eq k l h =
    let c : k.club_id ≡ l.club_id = ground (arith, h, eq_iff k.club_id l.club_id) in
    let r : k.rule_id ≡ l.rule_id = ground (arith, h, eq_iff k.rule_id l.rule_id) in
    let p : k.period_key ≡ l.period_key = ground (arith, h, eq_iff k.period_key l.period_key) in
    λ i. record { club_id = c i; rule_id = r i; period_key = p i }

module _ {N : Type 0} where
  pub same_entry_sym : (a b : ClubPointEntry N) → same_entry a b ≡ same_entry b a
  same_entry_sym a b = elim (Option-cases a.rule_id) [
    | inl none_a ↦ elim (Option-cases b.rule_id) [
      | inl none_b ↦ ground (arith, none_a, none_b, ==_sym a.id b.id)
      | inr (t, some_b) ↦ ground (arith, none_a, some_b, ==_sym a.id b.id)
    ]
    | inr (s, some_a) ↦ elim (Option-cases b.rule_id) [
      | inl none_b ↦ ground (arith, some_a, none_b, ==_sym a.id b.id)
      | inr (t, some_b) ↦ ground (
        arith,
        some_a,
        some_b,
        ==_sym a.id b.id,
        ==_sym a.club_id b.club_id,
        ==_sym a.period_key b.period_key,
        ==_sym s t,
      )
    ]
  ]

  -- Two entries under one key clash.
  pub has_key_clash :
      (key : Key) (a b : ClubPointEntry N)
      → has_key key a ≡ true
      → has_key key b ≡ true
      → same_entry a b ≡ true
  has_key_clash key a b ha hb = elim (Option-cases a.rule_id) [
    | inl none_a ↦ absurd (ground (arith, ha, none_a))
    | inr (s, some_a) ↦ ground (
      arith,
      ha,
      hb,
      some_a,
      eq_iff a.club_id key.club_id,
      eq_iff b.club_id key.club_id,
      eq_iff b.club_id a.club_id,
      eq_iff s key.rule_id,
      eq_iff a.period_key key.period_key,
      eq_iff b.period_key key.period_key,
      eq_iff b.period_key a.period_key,
    )
  ]

  -- An entry under one key is under no other.
  pub has_key_apart :
      (k l : Key) (r : ClubPointEntry N)
      → key_eq k l ≡ false
      → has_key k r ≡ true
      → has_key l r ≡ false
  has_key_apart k l r apart h = elim (Option-cases r.rule_id) [
    | inl none_r ↦ absurd (ground (arith, h, none_r))
    | inr (s, some_r) ↦ ground (
      arith,
      h,
      apart,
      some_r,
      eq_iff r.club_id k.club_id,
      eq_iff r.club_id l.club_id,
      eq_iff k.club_id l.club_id,
      eq_iff s k.rule_id,
      eq_iff s l.rule_id,
      eq_iff k.rule_id l.rule_id,
      eq_iff r.period_key k.period_key,
      eq_iff r.period_key l.period_key,
      eq_iff k.period_key l.period_key,
    )
  ]
