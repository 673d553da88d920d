-- ===== src/Db/ListTable.antt =====
-- A table kept as the list of its rows: the client's laws can be met.
use mathlib.Core.List.{Memᴰ}
use rac3011_api.Base.{
  ◌≡◌, refl, Bool, true, not, Option, none, some, List, [], ◌∷◌, ◌++◌, map, any, keep, find, arith,
  is_some, if◌then◌else◌, Bool-cases, inl, inr,
}
use rac3011_api.Db.{Table}

module _ {Row : Type 0} where
  pub is_some-find : (p : Row → Bool) (rs : List Row) → is_some (find p rs) ≡ any p rs
  is_some-find p [] = refl
  is_some-find p (r ∷ rs) = ground (arith, is_some-find p rs)

  pub find-Memᴰ : (p : Row → Bool) (rs : List Row) (r : Row) → find p rs ≡ some r → Memᴰ r rs
  find-Memᴰ p [] r h = absurd (cc)
  find-Memᴰ p (x ∷ rs) r h = elim (Bool-cases (p x)) [
    | inl here ↦ Memᴰ.head (ground arith)
    | inr later ↦ Memᴰ.tail (find-Memᴰ p rs r (ground arith))
  ]

  pub find_holds : (p : Row → Bool) (rs : List Row) (r : Row) → find p rs ≡ some r → p r ≡ true
  find_holds p [] r h = absurd (cc)
  find_holds p (x ∷ rs) r h = elim (Bool-cases (p x)) [
    | inl here ↦ let e : x ≡ r = ground arith in rw (← e) here
    | inr later ↦ find_holds p rs r (ground arith)
  ]

  module _ (clash : Row → Row → Bool) where
    abbrev insert : Row → List Row → Option (List Row)
    insert r rs = if any (clash r) rs then none else some (rs ++ r ∷ [])

    pub is_some-insert : (r : Row) (rs : List Row) → is_some (insert r rs) ≡ not (any (clash r) rs)
    is_some-insert r rs = ground arith

    pub rows-insert : (r : Row) (rs rs' : List Row) → insert r rs ≡ some rs' → rs' ≡ rs ++ r ∷ []
    rows-insert r rs rs' h = ground arith

    abbrev pub list_table : Table (List Row) Row clash
    list_table = record {
      rows = λ rs. rs;
      find_first = find;
      create = insert;
      update_many = λ p f rs. map (λ r. if p r then f r else r) rs;
      delete_many = λ p rs. keep (λ r. not (p r)) rs;
      find_first_listed = is_some-find;
      find_first_found = find-Memᴰ;
      find_first_holds = find_holds;
      create_clash = is_some-insert;
      rows_create = rows-insert;
      rows_update_many = λ p f rs. refl;
      rows_delete_many = λ p rs. refl;
    }
