-- ===== src/Points/Entries/Refinement.antt =====
-- src/points/engine/points-engine.service.ts (recompute): the table of entries implements the book.
use mathlib.Core.Path.{subst}
use rac3011_api.Base.{
  ◌≡◌, refl, sym, ap, ◌∙◌, Bool, true, false, not, ◌&&◌, ◌||◌, Option, none, some, List, [], ◌∷◌,
  ◌++◌, ◌==◌, arith, keep, any, find, includes, eqb, All, Bool-cases, Option-cases, inl, inr,
  eq_iff, Result, ok,
}
use rac3011_api.Db.{Table}
use rac3011_api.Db.ListTable.{find_holds}
use rac3011_api.Effects.{emit}
use rac3011_api.Points.Evaluation.{Trace, Numbers}
use rac3011_api.Points.Entries.{
  ClubPointEntry, ComputedOp, RecomputeParams, PointsEnv, World, same_entry, awarded_row, new_entry,
  of_op, upsert_computed_entry, delete_computed_entry, is_stale_entry, delete_stale_computed,
  apply_op, apply_ops, active_ids, ops_for, recompute,
}
use rac3011_api.Points.Entries.Rows.{
  Apart, keep-Apart, Place-of, find-keep-Apart, keep-keep, filter?,
}
use rac3011_api.Points.Entries.Book.{
  Key, has_key, award_of, book, book_ops, is_current, is_other, has_key_clash,
}
use rac3011_api.Points.Entries.Steps.{Step, delete-Step, update-Step, create-Step}

module _ {N S : Type 0} (num : Numbers N) (table : Table S (ClubPointEntry N) same_entry)
    (env : PointsEnv N S) (params : RecomputeParams) where
  -- An id that the table does not have.
  abbrev pub Fresh : S → Type 0
  Fresh s = any (λ r. env.new_id s == r.id) (table.rows s) ≡ false

  no_clash :
      (op : ComputedOp N) (trace : Trace N) (s : S) (rows : List (ClubPointEntry N))
      → any (λ r. env.new_id s == r.id) rows ≡ false
      → any (of_op num table env params op) rows ≡ false
      → any (same_entry (new_entry num table env params op trace s)) rows ≡ false
  no_clash op trace s [] fresh none_there = refl
  no_clash op trace s (r ∷ rows) fresh none_there =
      ground (arith, fresh, none_there, no_clash op trace s rows)

  abbrev Stepped : ComputedOp N → S → S → Type 0
  Stepped op s s' = Step num table env params (table.rows s) (table.rows s') op

  -- The database takes the row of a result, if there is one.
  abbrev pub Fits : ComputedOp N → Type 0
  Fits op =
      (trace : Trace N)
      → op.trace ≡ some trace
      → env.fits params.club_id op.rule_id op.category_id (env.to_column trace.points) ≡ true

  upsert_cases :
      (op : ComputedOp N) (trace : Trace N) (s : S)
      → op.trace ≡ some trace
      → Fits op
      → Fresh s
      → Apart same_entry (table.rows s)
      → (s' : S) × (upsert_computed_entry num table env params op trace s ≡ some s')
        × Stepped op s s'
  unfolding upsert_computed_entry
  upsert_cases op trace s traced fits fresh apart =
      let own = of_op num table env params op in
      elim (Option-cases (table.find_first own s)) [
        | inr (old, found) ↦
            let write = awarded_row num table env params op trace in
            let s' = table.update_many (λ r. r.id == old.id) write s in
            let place =
              Place-of same_entry old (table.rows s) (table.find_first_found own s old found)
                apart in
            (
              s',
              ground (arith, found, fits trace traced),
              subst (λ rows. Step num table env params (table.rows s) rows op)
                  (sym (table.rows_update_many (λ r. r.id == old.id) write s))
                  (update-Step num table env params op trace traced (table.rows s) old place
                    (table.find_first_holds own s old found) apart),
            )
        | inl missing ↦
            let new = new_entry num table env params op trace s in
            let none_there : any own (table.rows s) ≡ false =
              ground (arith, missing, table.find_first_listed own s) in
            let alone = no_clash op trace s (table.rows s) fresh none_there in
            elim (Option-cases (table.create new s)) [
              | inl taken ↦ absurd (ground (arith, taken, alone, table.create_clash new s))
              | inr (s', made) ↦ (
                s',
                ground (arith, missing, made, fits trace traced),
                subst (λ rows. Step num table env params (table.rows s) rows op)
                    (sym (table.rows_create new s s' made))
                    (create-Step num table env params op trace traced (table.rows s) new alone
                      none_there apart),
              )
            ]
      ]

  -- Every result is written, and is a step of the book.
  apply_op-Step :
      (op : ComputedOp N) (s : S)
      → Fits op
      → Fresh s
      → Apart same_entry (table.rows s)
      → (s' : S) × (apply_op num table env params op s ≡ some s') × Stepped op s s'
  unfolding apply_op delete_computed_entry
  apply_op-Step op s fits fresh apart = elim (Option-cases op.trace) [
    | inr (trace, traced) ↦
        let (s', written, step) = upsert_cases op trace s traced fits fresh apart in
        (s', ground (arith, traced, written), step)
    | inl no_trace ↦ (
      delete_computed_entry num table env params op s,
      ground (arith, no_trace),
      subst (λ rows. Step num table env params (table.rows s) rows op)
          (sym (table.rows_delete_many (of_op num table env params op) s))
          (delete-Step num table env params op (table.rows s) apart no_trace),
    )
  ]

  record Written (rows rows' : List (ClubPointEntry N)) (ops : List (ComputedOp N)) : Type 0 where
    apart : Apart same_entry rows'
    others : keep is_other rows' ≡ keep is_other rows
    awards : (key : Key) → book rows' key ≡ book_ops env.to_column params ops key (book rows key)

  module _ (fresh : (s : S) → Fresh s) where
    apply_ops-Written :
        (ops : List (ComputedOp N)) (s : S)
        → All Fits ops
        → Apart same_entry (table.rows s)
        → (s' : S) × (apply_ops num table env params ops s ≡ some s')
          × Written (table.rows s) (table.rows s') ops
    unfolding apply_ops
    apply_ops-Written [] s fits apart =
        (s, refl, record { apart = apart; others = refl; awards = λ key. refl })
    apply_ops-Written (op ∷ ops) s (fits, more) apart =
        let (s1, first, step) = apply_op-Step op s fits (fresh s) apart in
        let (s2, rest, written) = apply_ops-Written ops s1 more step.apart in
        (
          s2,
          ground (arith, first, rest),
          record {
            apart = written.apart;
            others = written.others ∙ step.others;
            awards = λ key.
                written.awards key ∙ ap (book_ops env.to_column params ops key) (step.awards key);
          },
        )

    abbrev stale : ClubPointEntry N → Bool
    stale = is_stale_entry num table env params (active_ids num table env params)

    other_left : (r : ClubPointEntry N) → is_other r ≡ true → not (stale r) ≡ true
    other_left r h = ground (arith, h)

    award_kept :
        (key : Key) (o : Option (ClubPointEntry N))
        → ((r : ClubPointEntry N) → o ≡ some r → has_key key r ≡ true)
        → award_of (filter? (λ r. not (stale r)) o)
          ≡ filter? (is_current params (active_ids num table env params) key) (award_of o)
    award_kept key none holds = refl
    award_kept key (some r) holds = elim (Option-cases r.rule_id) [
      | inl no_rule ↦ absurd (ground (arith, holds r refl, no_rule))
      | inr (id, rule) ↦
          let c : r.club_id ≡ key.club_id =
            ground (arith, holds r refl, eq_iff r.club_id key.club_id) in
          let i : id ≡ key.rule_id = ground (arith, holds r refl, rule, eq_iff id key.rule_id) in
          let e : not (stale r) ≡ (
              not (key.club_id == params.club_id && eqb r.ry_year params.ry_year)
              || includes key.rule_id (active_ids num table env params)) =
            rw rule (rw c (rw i (ground (arith, holds r refl)))) in
          elim (Bool-cases (not (stale r))) [
            | inl kept ↦ ground (arith, e, kept)
            | inr dropped ↦ ground (arith, e, dropped)
          ]
    ]

    module _ (w : World S) where
      abbrev pub ops : List (ComputedOp N)
      ops = ops_for num table env params w.entries

      abbrev pub rows_of : World S → List (ClubPointEntry N)
      rows_of v = table.rows v.entries

      -- What a recomputation comes to, at one key of the book.
      pub record Refines (key : Key) (result : Result (Unit {0})) (w' : World S) : Type 0 where
        pub completes : result ≡ ok tt
        pub apart : Apart same_entry (rows_of w')
        pub others : keep is_other (rows_of w') ≡ keep is_other (rows_of w)
        pub award :
            book (rows_of w') key
            ≡ filter?
                (is_current params (active_ids num table env params) key)
                (book_ops env.to_column params ops key (book (rows_of w) key))

      recompute-written :
          (s : S)
          → apply_ops num table env params ops w.entries ≡ some s
          → recompute num table env params w ≡ (
            ok tt,
            record w {
              entries =
                  delete_stale_computed num table env params (active_ids num table env params) s;
              effects = w.effects ++ emit "points.recomputed" params.club_id ∷ [];
            },
          )
      unfolding recompute
      recompute-written s written = ground (arith, written)

      rows_after :
          (s : S)
          → table.rows
              (delete_stale_computed num table env params (active_ids num table env params) s)
            ≡ keep (λ r. not (stale r)) (table.rows s)
      unfolding delete_stale_computed
      rows_after s = table.rows_delete_many stale s

      after_apply :
          (key : Key) (s : S)
          → Written (rows_of w) (table.rows s) ops
          → (r : Result (Unit {0}) × World S)
          → r ≡ (
            ok tt,
            record w {
              entries =
                  delete_stale_computed num table env params (active_ids num table env params) s;
              effects = w.effects ++ emit "points.recomputed" params.club_id ∷ [];
            },
          )
          → Refines key r.0 r.1
      after_apply key s written r e =
          let left : ClubPointEntry N → Bool = λ x. not (stale x) in
          let rows : rows_of r.1 ≡ keep left (table.rows s) =
            ap (λ x. rows_of x.1) e ∙ rows_after s in
          record {
            completes = ap (λ x. x.0) e;
            apart =
                subst (Apart same_entry) (sym rows)
                  (keep-Apart same_entry left (table.rows s) written.apart);
            others =
                ap (keep is_other) rows
                ∙ keep-keep left is_other (table.rows s) other_left
                ∙ written.others;
            award =
                ap (λ rs. book rs key) rows
                ∙ ap award_of (
                    find-keep-Apart same_entry (has_key key) left (table.rows s) (has_key_clash key)
                      written.apart)
                ∙ award_kept key (find (has_key key) (table.rows s))
                    (find_holds (has_key key) (table.rows s))
                ∙ ap (filter? (is_current params (active_ids num table env params) key))
                    (written.awards key);
          }

      -- Where ids are fresh, the database takes the rows of the results, whose points are rounded as
      -- the column keeps them, and the entries are apart, a recomputation completes and leaves entries
      -- that are apart and the entries that were not computed as they are. The book that the computed
      -- entries stand for is, under every key, the old one with the results put in, the last one for
      -- the key, less the awards of the club and the year whose rule is not active.
      pub recompute-Refines :
          (key : Key)
          → All Fits ops
          → Apart same_entry (rows_of w)
          → let (result, w') = recompute num table env params w in Refines key result w'
      recompute-Refines key fits apart =
          let (s, run, written) = apply_ops-Written ops w.entries fits apart in
          after_apply key s written _ (recompute-written s run)
