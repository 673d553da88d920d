-- ===== src/Members/Tests.antt =====
-- Runs of the reader of comma-separated values, and an instance of the theorem about tables.
use rac3011_api.Base.{ℕ, ◌≡◌, refl, List, [], ◌∷◌, codes, if◌then◌else◌, eqb}
use rac3011_api.Members.Csv.{
  parse_cells, parse_line, split_lines, put_cell, fill_row, rows_of_lines, parse_csv, escape_quotes,
  join, serialize_csv,
}
use rac3011_api.Members.Csv.Lines.{parse_csv-serialize_csv}

run : Unit {0}
unfolding parse_cells split_lines put_cell fill_row rows_of_lines escape_quotes join
run = tt

-- Takes the spaces at the start away.
abbrev trim : List ℕ → List ℕ
trim [] = []
trim (c ∷ s) = if eqb c 32 then trim s else c ∷ s

abbrev header : List (List ℕ)
header = codes "Name" ∷ codes "Email" ∷ []

abbrev member : List (List ℕ)
member = codes "Rao, \"A\"" ∷ codes " a@b" ∷ []

reads :
    (parse_line trim (codes "a,\"b,\"\"c\"\"\", d") ≡ codes "a" ∷ codes "b,\"c\"" ∷ codes "d" ∷ [])
    × (parse_csv trim (λ s. s) (codes "Name,Email") ≡ [])
    × (parse_csv trim (λ s. s) [] ≡ [])
unfolding run
reads = (refl, refl, refl)

-- A line break ends the row also between quotes.
broken : split_lines [] (97 ∷ 10 ∷ 98 ∷ 13 ∷ 10 ∷ []) ≡ (97 ∷ []) ∷ (98 ∷ []) ∷ [] ∷ []
unfolding run
broken = refl

parse_csv-serialize_csv_example :
    parse_csv trim (λ s. s) (serialize_csv (header ∷ member ∷ []))
    ≡ ((codes "Name", codes "Rao, \"A\"") ∷ (codes "Email", codes "a@b") ∷ []) ∷ []
parse_csv-serialize_csv_example =
    parse_csv-serialize_csv trim (λ s. s) (λ s. refl) (codes "Name") (codes "Email" ∷ [])
      (member ∷ []) refl refl
