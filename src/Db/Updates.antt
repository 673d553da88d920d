-- ===== src/Db/Updates.antt =====
-- The row that a condition finds after an update under the same condition, and the other rows.
use mathlib.Core.List.{Memᴰ}
use rac3011_api.Base.{
  ◌≡◌, refl, Bool, true, not, some, List, [], ◌∷◌, map, keep, if◌then◌else◌, arith, Bool-cases, inl,
  inr, any, is_some, ◌∙◌, sym,
}
use rac3011_api.Db.{Table}

module _ {S Row : Type 0} {clash : Row → Row → Bool} (table : Table S Row clash) (p : Row → Bool)
    (f : Row → Row) (keeps : (r : Row) → p (f r) ≡ p r) where
  abbrev pub update_row : Row → Row
  update_row r = if p r then f r else r

  mem_updated :
      (rows : List Row) (r' : Row)
      → Memᴰ r' (map update_row rows)
      → p r' ≡ true
      → (r : Row) × (r' ≡ f r)
  mem_updated [] r' m here = elim m [ ]
  mem_updated (r ∷ rows) r' (Memᴰ.head e) here = elim (Bool-cases (p r)) [
    | inl it ↦ (r, ground (arith, e, it))
    | inr other ↦ absurd (ground (arith, e, other, here))
  ]
  mem_updated (r ∷ rows) r' (Memᴰ.tail m) here = mem_updated rows r' m here

  -- The row that is found after the update is an updated one.
  pub find_first-update_many :
      (s : S) (r' : Row)
      → table.find_first p (table.update_many p f s) ≡ some r'
      → (r : Row) × (r' ≡ f r)
  find_first-update_many s r' found =
      let s' = table.update_many p f s in
      mem_updated (table.rows s) r'
        (rw (← table.rows_update_many p f s) (table.find_first_found p s' r' found))
        (table.find_first_holds p s' r' found)

  keep_others :
      (rows : List Row) → keep (λ r. not (p r)) (map update_row rows) ≡ keep (λ r. not (p r)) rows
  keep_others [] = refl
  keep_others (r ∷ rows) = ground (arith, keep_others rows, keeps r)

  any_updated : (rows : List Row) → any p (map update_row rows) ≡ any p rows
  any_updated [] = refl
  any_updated (r ∷ rows) = ground (arith, any_updated rows, keeps r)

  -- The rows that the condition leaves out stay as they are.
  pub others-update_many :
      (s : S)
      → keep (λ r. not (p r)) (table.rows (table.update_many p f s))
        ≡ keep (λ r. not (p r)) (table.rows s)
  others-update_many s = rw (table.rows_update_many p f s) (keep_others (table.rows s))

  pub is_some-find_first-update_many :
      (s : S)
      → is_some (table.find_first p (table.update_many p f s)) ≡ is_some (table.find_first p s)
  is_some-find_first-update_many s =
      table.find_first_listed p (table.update_many p f s)
      ∙ (rw (table.rows_update_many p f s) (any_updated (table.rows s)))
      ∙ sym (table.find_first_listed p s)
