-- ===== src/Db.antt =====
-- The database client (Prisma, not part of this repository) as the repositories call it: one table,
-- with the conditions of its queries as tests on rows. The laws are what the client documents of
-- `findFirst` and `findUnique`, `create`, `update` and `updateMany`, `deleteMany` and `count`; a
-- unique key is a test `clash` on the new row and an old one, and `none` is the error P2002.
pub mod ListTable
pub mod Updates
use mathlib.Core.List.{Memᴰ}
use rac3011_api.Base.{
  ℕ, ◌≡◌, Bool, true, false, not, Option, none, some, List, [], ◌∷◌, ◌++◌, map, any, keep, length,
  is_some, if◌then◌else◌, String,
}

pub record Table (S Row : Type 0) (clash : Row → Row → Bool) : Type 0 where
  pub rows : S → List Row
  pub find_first : (Row → Bool) → S → Option Row
  pub create : Row → S → Option S
  pub update_many : (Row → Bool) → (Row → Row) → S → S
  pub delete_many : (Row → Bool) → S → S
  pub find_first_listed : (p : Row → Bool) (s : S) → is_some (find_first p s) ≡ any p (rows s)
  pub find_first_found :
      (p : Row → Bool) (s : S) (r : Row) → find_first p s ≡ some r → Memᴰ r (rows s)
  pub find_first_holds : (p : Row → Bool) (s : S) (r : Row) → find_first p s ≡ some r → p r ≡ true
  pub create_clash : (r : Row) (s : S) → is_some (create r s) ≡ not (any (clash r) (rows s))
  pub rows_create : (r : Row) (s s' : S) → create r s ≡ some s' → rows s' ≡ rows s ++ r ∷ []
  pub rows_update_many :
      (p : Row → Bool) (f : Row → Row) (s : S)
      → rows (update_many p f s) ≡ map (λ r. if p r then f r else r) (rows s)
  pub rows_delete_many :
      (p : Row → Bool) (s : S) → rows (delete_many p s) ≡ keep (λ r. not (p r)) (rows s)

-- `count({ where })`, and the count that `updateMany` returns.
module _ {S Row : Type 0} {clash : Row → Row → Bool} where
  abbrev pub count : Table S Row clash → (Row → Bool) → S → ℕ
  count t p s = length (keep p (t.rows s))
