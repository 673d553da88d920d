-- ===== src/Members/Csv/RoundTrip.antt =====
-- src/members/csv.util.ts (parseLine) and src/reports/reports-export.service.ts (serializeCsv): a
-- written row is read back.
use mathlib.Core.List.{append_assoc, append-nil}
use rac3011_api.Base.{
  ℕ, ◌≡◌, refl, true, false, List, [], ◌∷◌, ◌++◌, map, arith, eqb, ap, ◌∙◌, sym, inl, inr,
  Bool-cases,
}
use rac3011_api.Members.Csv.{
  quote, comma, parse_cells, parse_line, escape_quotes, join, serialize_row,
}

parse_cells-inside :
    (c : ℕ) (current rest : List ℕ)
    → eqb c quote ≡ false
    → parse_cells true current (c ∷ rest) ≡ parse_cells true (current ++ c ∷ []) rest
unfolding parse_cells
parse_cells-inside c current [] h = ground (arith, h)
parse_cells-inside c current (d ∷ ds) h = ground (arith, h)

-- Between quotes, an escaped text is read as it was.
parse_cells-escape_quotes :
    (s current rest : List ℕ)
    → parse_cells true current (escape_quotes s ++ rest) ≡ parse_cells true (current ++ s) rest
unfolding parse_cells escape_quotes
parse_cells-escape_quotes [] current rest =
    ap (λ x. parse_cells true x rest) (sym (append-nil current))
parse_cells-escape_quotes (c ∷ s) current rest = elim (Bool-cases (eqb c quote)) [
  | inl q ↦ ground (
    arith,
    q,
    parse_cells-escape_quotes s (current ++ quote ∷ []) rest,
    append_assoc current (quote ∷ []) s,
  )
  | inr n ↦
      rw (n, parse_cells-inside c current (escape_quotes s ++ rest) n)
        (parse_cells-escape_quotes s (current ++ c ∷ []) rest
          ∙ ap (λ x. parse_cells true x rest) (append_assoc current (c ∷ []) s))
]

-- The cells of a written row, read from a point where no cell has begun.
cells_of_row :
    (s : List ℕ) (row : List (List ℕ)) → parse_cells false [] (serialize_row (s ∷ row)) ≡ s ∷ row
unfolding parse_cells join
cells_of_row s [] = parse_cells-escape_quotes s [] (quote ∷ [])
cells_of_row s (t ∷ row) =
    let rest = serialize_row (t ∷ row) in
    let opened : parse_cells false [] (serialize_row (s ∷ t ∷ row))
        ≡ parse_cells true [] (escape_quotes s ++ quote ∷ comma ∷ rest) =
      ap (parse_cells true []) (append_assoc (escape_quotes s) (quote ∷ []) (comma ∷ rest)) in
    let closed : parse_cells true s (quote ∷ comma ∷ rest) ≡ s ∷ parse_cells false [] rest = refl in
    opened
    ∙ parse_cells-escape_quotes s [] (quote ∷ comma ∷ rest)
    ∙ closed
    ∙ ap (λ cells. s ∷ cells) (cells_of_row t row)

-- A row that is written with at least one cell is read back, whatever its cells hold: commas,
-- quotes and line breaks, each cell without the spaces around it.
pub parse_line-serialize_row :
    (trim : List ℕ → List ℕ) (s : List ℕ) (row : List (List ℕ))
    → parse_line trim (serialize_row (s ∷ row)) ≡ map trim (s ∷ row)
parse_line-serialize_row trim s row = ap (map trim) (cells_of_row s row)
