-- ===== src/Points/Entries/Steps.antt =====
-- src/points/points-entries.repository.ts: what a deletion, an update and a new entry make of the book.
use mathlib.Core.List.{append-nil}
use mathlib.Core.Path.{subst}
use rac3011_api.Base.{
  ◌≡◌, refl, sym, ap, ◌∙◌, Bool, true, false, not, none, some, List, [], ◌∷◌, ◌++◌, ◌==◌, arith,
  map, keep, any, find, if◌then◌else◌, Bool-cases, Option-cases, inl, inr, eq_iff, keep-append,
}
use rac3011_api.Db.{Table}
use rac3011_api.Points.Evaluation.{Trace, Numbers}
use rac3011_api.Points.Entries.{
  ClubPointEntry, ComputedOp, RecomputeParams, PointsEnv, same_entry, awarded_row, of_op,
}
use rac3011_api.Points.Entries.Rows.{
  Apart, any_implied, keep-Apart, snoc-Apart, replace-Apart, Place, map_at, find-none, find-keep,
  find-keep-not, find-append, keep-replace, find-replace, find_at, keep-keep,
}
use rac3011_api.Points.Entries.Book.{
  Key, has_key, key_eq, award_of, book, key_of, award_by, book_op, is_other, ==_sym, same_entry_sym,
  has_key_clash, has_key_apart, key_eq→eq,
}

module _ {N S : Type 0} (num : Numbers N) (table : Table S (ClubPointEntry N) same_entry)
    (env : PointsEnv N S) (params : RecomputeParams) where
  -- What a step makes of the rows.
  pub record Step (rows rows' : List (ClubPointEntry N)) (op : ComputedOp N) : Type 0 where
    pub apart : Apart same_entry rows'
    pub others : keep is_other rows' ≡ keep is_other rows
    pub awards : (key : Key) → book rows' key ≡ book_op env.to_column params op key (book rows key)

  other_key :
      (op : ComputedOp N) (key : Key) (r : ClubPointEntry N)
      → key_eq (key_of params op) key ≡ false
      → has_key key r ≡ true
      → of_op num table env params op r ≡ false
  other_key op key r apart h = elim (Bool-cases (has_key (key_of params op) r)) [
    | inr other ↦ other
    | inl here ↦ absurd (ground (arith, h, has_key_apart (key_of params op) key r apart here))
  ]

  other_no_key :
      (op : ComputedOp N) (r : ClubPointEntry N)
      → is_other r ≡ true
      → of_op num table env params op r ≡ false
  other_no_key op r h = ground (arith, h)

  pub delete-Step :
      (op : ComputedOp N) (rows : List (ClubPointEntry N))
      → Apart same_entry rows
      → op.trace ≡ none
      → Step rows (keep (λ r. not (of_op num table env params op r)) rows) op
  delete-Step op rows apart no_trace =
      let kept : ClubPointEntry N → Bool = λ r. not (of_op num table env params op r) in
      record {
        apart = keep-Apart same_entry kept rows apart;
        others = keep-keep kept is_other rows (λ r h. ap not (other_no_key op r h));
        awards = λ key. elim (Bool-cases (key_eq (key_of params op) key)) [
          | inl same ↦
              let e = key_eq→eq (key_of params op) key same in
              ap (λ k. book (keep kept rows) k) (sym e)
              ∙ ap award_of (find-keep-not (has_key (key_of params op)) rows)
              ∙ ground (arith, same, no_trace)
          | inr apart_key ↦
              ap award_of
                (find-keep (has_key key) kept rows (λ r h. ap not (other_key op key r apart_key h)))
              ∙ ground (arith, apart_key)
        ];
      }

  module _ (op : ComputedOp N) (trace : Trace N) (traced : op.trace ≡ some trace) where
    abbrev written : ClubPointEntry N → ClubPointEntry N
    written = awarded_row num table env params op trace

    written_key : (r : ClubPointEntry N) → of_op num table env params op (written r) ≡ true
    written_key r = ground (
      arith,
      eq_iff params.club_id params.club_id,
      eq_iff op.rule_id op.rule_id,
      eq_iff op.period_key op.period_key,
    )

    written_award :
        (r : ClubPointEntry N) → award_of (some (written r)) ≡ award_by env.to_column params op
    written_award r = ground (arith, traced)

    same_as_written :
        (old x : ClubPointEntry N)
        → of_op num table env params op old ≡ true
        → same_entry (written old) x ≡ same_entry old x
    same_as_written old x here = elim (Option-cases old.rule_id) [
      | inl no_rule ↦ absurd (ground (arith, here, no_rule))
      | inr (s, rule) ↦
          let r : op.rule_id ≡ s = ground (arith, here, rule, eq_iff s op.rule_id) in
          let c : params.club_id ≡ old.club_id =
            ground (arith, here, eq_iff old.club_id params.club_id) in
          let p : op.period_key ≡ old.period_key =
            ground (arith, here, eq_iff old.period_key op.period_key) in
          rw rule (rw r (rw c (rw p (ground (arith, here)))))
    ]

    place-Step :
        (before : List (ClubPointEntry N)) (old : ClubPointEntry N)
        (after : List (ClubPointEntry N))
        → any (λ x. same_entry x old) before ≡ false
        → of_op num table env params op old ≡ true
        → Apart same_entry (before ++ old ∷ after)
        → Step (before ++ old ∷ after) (before ++ written old ∷ after) op
    place-Step before old after lone here apart = record {
      apart =
          replace-Apart same_entry before old (written old) after (λ x. same_as_written old x here)
            (λ x.
              same_entry_sym x (written old) ∙ same_as_written old x here ∙ same_entry_sym old x)
            apart;
      others = keep-replace is_other before old (written old) after (ground (arith, here)) refl;
      awards = λ key. elim (Bool-cases (key_eq (key_of params op) key)) [
        | inl same ↦
            let own = has_key (key_of params op) in
            let first =
              any_implied own (λ x. same_entry x old) before
                (λ x h. has_key_clash (key_of params op) x old h here) lone in
            ap (book (before ++ written old ∷ after)) (sym (key_eq→eq _ key same))
            ∙ ap award_of (find_at own before (written old) after first (written_key old))
            ∙ written_award old
            ∙ ground (arith, same)
        | inr apart_key ↦
            ap award_of (
              find-replace (has_key key) before old (written old) after
                (has_key_apart (key_of params op) key old apart_key here)
                (has_key_apart (key_of params op) key (written old) apart_key (written_key old)))
            ∙ ground (arith, apart_key)
      ];
    }

    pub update-Step :
        (rows : List (ClubPointEntry N)) (old : ClubPointEntry N)
        → Place same_entry old rows
        → of_op num table env params op old ≡ true
        → Apart same_entry rows
        → Step rows (map (λ r. if r.id == old.id then written r else r) rows) op
    update-Step rows old place here apart =
        let at_old =
          map_at (λ r. r.id == old.id) written place.before old place.after
            (any_implied (λ r. r.id == old.id) (λ x. same_entry x old) place.before
              (λ x h. ground (arith, h)) place.lone_before)
            (ground (arith, eq_iff old.id old.id))
            (any_implied (λ r. r.id == old.id) (same_entry old) place.after
              (λ x h. ground (arith, h, ==_sym x.id old.id)) place.lone_after) in
        let step =
          place-Step place.before old place.after place.lone_before here
            (subst (Apart same_entry) place.at apart) in
        let new_rows = ap (map (λ r. if r.id == old.id then written r else r)) place.at ∙ at_old in
        record {
          apart = subst (Apart same_entry) (sym new_rows) step.apart;
          others = ap (keep is_other) new_rows ∙ step.others ∙ sym (ap (keep is_other) place.at);
          awards = λ key.
              ap (λ rs. book rs key) new_rows
              ∙ step.awards key
              ∙ ap (λ rs. book_op env.to_column params op key (book rs key)) (sym place.at);
        }

    pub create-Step :
        (rows : List (ClubPointEntry N)) (new : ClubPointEntry N)
        → any (same_entry (written new)) rows ≡ false
        → any (of_op num table env params op) rows ≡ false
        → Apart same_entry rows
        → Step rows (rows ++ written new ∷ []) op
    create-Step rows new alone none_there apart = record {
      apart =
          snoc-Apart same_entry rows (written new)
            (any_implied (λ x. same_entry x (written new)) (same_entry (written new)) rows
              (λ x h. same_entry_sym (written new) x ∙ h) alone)
            apart;
      others = keep-append is_other rows (written new ∷ []) ∙ append-nil (keep is_other rows);
      awards = λ key. elim (Bool-cases (key_eq (key_of params op) key)) [
        | inl same ↦
            let own = has_key (key_of params op) in
            let found : find own (rows ++ written new ∷ []) ≡ some (written new) =
              find-append own rows (written new ∷ [])
              ∙ ground (arith, none_there, written_key new) in
            ap (book (rows ++ written new ∷ [])) (sym (key_eq→eq _ key same))
            ∙ ap award_of found
            ∙ written_award new
            ∙ ground (arith, same)
        | inr apart_key ↦
            let foreign =
              has_key_apart (key_of params op) key (written new) apart_key (written_key new) in
            let kept : find (has_key key) (rows ++ written new ∷ []) ≡ find (has_key key) rows =
              find-append (has_key key) rows (written new ∷ [])
              ∙ ground (arith, foreign, find-none (has_key key) rows) in
            ap award_of kept ∙ ground (arith, apart_key)
      ];
    }
