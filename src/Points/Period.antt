-- ===== src/Points/Period.antt =====
-- src/points/engine/period-scope.ts. A month is the number of months since January of year 0, which
-- is what the code's dates, firsts of months in UTC, stand for.
use rac3011_api.Base.{
  ℕ, zero, suc, ◌+◌, ◌-◌, ◌*◌, ◌≡◌, ◌&&◌, Option, none, some, List, [], ◌∷◌, if◌then◌else◌, ltb,
  leb, eqb, any, arith,
}

unfoldable pub ry_start_month : ℕ → ℕ
ry_start_month ry_year = ry_year * 12 + 6

unfoldable pub ry_end_month : ℕ → ℕ
ry_end_month ry_year = (ry_year + 1) * 12 + 5

-- The loop `for (cursor = start; cursor <= end; …)`, with the number of turns that it makes.
unfoldable pub months_from : ℕ → ℕ → List ℕ
months_from cursor zero = []
months_from cursor (suc left) = cursor ∷ months_from (cursor + 1) left

unfoldable pub months_in_scope : ℕ → Option ℕ → ℕ → List ℕ
months_in_scope ry_year (some month) now = month ∷ []
months_in_scope ry_year none now =
    let start = ry_start_month ry_year in
    let end = if ltb now (ry_end_month ry_year) then now else ry_end_month ry_year in
    if ltb end start then [] else months_from start (end + 1 - start)

any-months_from :
    (m cursor left : ℕ)
    → any (eqb m) (months_from cursor left) ≡ (leb cursor m && ltb m (cursor + left))
unfolding months_from
any-months_from m cursor zero = ground arith
any-months_from m cursor (suc left) = ground (arith, any-months_from m (cursor + 1) left)

-- With no month given, a month is in scope exactly if it is one of the Rotary year, from July to
-- June, and not after the present one.
pub months_in_scope-year :
    (ry_year m now : ℕ)
    → any (eqb m) (months_in_scope ry_year none now)
      ≡ (leb (ry_start_month ry_year) m && leb m (ry_end_month ry_year) && leb m now)
unfolding months_in_scope
months_in_scope-year ry_year m now =
    let start = ry_start_month ry_year in
    let end = if ltb now (ry_end_month ry_year) then now else ry_end_month ry_year in
    ground (arith, any-months_from m start (end + 1 - start))
