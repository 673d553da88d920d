-- ===== src/Members/Csv/Lines.antt =====
-- src/members/csv.util.ts (parseCsv) and src/reports/reports-export.service.ts (serializeCsv): a
-- written table is read back.
use mathlib.Core.List.{append_assoc, append-nil}
use rac3011_api.Base.{
  ℕ, Bool, ◌≡◌, refl, true, false, not, ◌||◌, ◌&&◌, List, [], ◌∷◌, ◌++◌, map, keep, all, any,
  any-append, text_eq, arith, eqb, ap, ◌∙◌, sym, is_empty,
}
use rac3011_api.Members.Csv.{
  quote, comma, parse_line, split_lines, CsvRow, put_cell, fill_row, rows_of_lines, parse_csv,
  escape_quotes, join, quote_cell, serialize_row, serialize_csv,
}
use rac3011_api.Members.Csv.RoundTrip.{parse_line-serialize_row}

abbrev pub no_break : ℕ → Bool
no_break c = not (eqb c 13 || eqb c 10)

-- A row with at least one cell and no line break in any.
abbrev pub is_plain : List (List ℕ) → Bool
is_plain [] = false
is_plain (s ∷ row) = all (all no_break) (s ∷ row)

split_lines-inside :
    (c : ℕ) (line rest : List ℕ)
    → no_break c ≡ true
    → split_lines line (c ∷ rest) ≡ split_lines (line ++ c ∷ []) rest
unfolding split_lines
split_lines-inside c line [] h = ground (arith, h)
split_lines-inside c line (d ∷ ds) h = ground (arith, h)

split_lines-line :
    (s line rest : List ℕ)
    → all no_break s ≡ true
    → split_lines line (s ++ rest) ≡ split_lines (line ++ s) rest
split_lines-line [] line rest h = ap (λ x. split_lines x rest) (sym (append-nil line))
split_lines-line (c ∷ s) line rest h =
    split_lines-inside c line (s ++ rest) (ground (arith, h))
    ∙ split_lines-line s (line ++ c ∷ []) rest (ground (arith, h))
    ∙ ap (λ x. split_lines x rest) (append_assoc line (c ∷ []) s)

split_lines-join :
    (s : List ℕ) (lines : List (List ℕ))
    → all (all no_break) (s ∷ lines) ≡ true
    → split_lines [] (join (13 ∷ 10 ∷ []) (s ∷ lines)) ≡ s ∷ lines
unfolding split_lines join
split_lines-join s [] h =
    ap (split_lines []) (sym (append-nil s)) ∙ split_lines-line s [] [] (ground (arith, h))
split_lines-join s (t ∷ lines) h =
    let rest = join (13 ∷ 10 ∷ []) (t ∷ lines) in
    let broken : split_lines s (13 ∷ 10 ∷ rest) ≡ s ∷ split_lines [] rest = refl in
    split_lines-line s [] (13 ∷ 10 ∷ rest) (ground (arith, h))
    ∙ broken
    ∙ ap (λ x. s ∷ x) (split_lines-join t lines (ground (arith, h)))

all-append : (p : ℕ → Bool) (s t : List ℕ) → all p (s ++ t) ≡ (all p s && all p t)
all-append p [] t = refl
all-append p (c ∷ s) t = ground (arith, all-append p s t)

escape_quotes-no_break : (s : List ℕ) → all no_break (escape_quotes s) ≡ all no_break s
unfolding escape_quotes
escape_quotes-no_break [] = refl
escape_quotes-no_break (c ∷ s) = ground (arith, escape_quotes-no_break s)

quote_cell-no_break : (s : List ℕ) → all no_break (quote_cell s) ≡ all no_break s
quote_cell-no_break s =
    ground (arith, all-append no_break (escape_quotes s) (quote ∷ []), escape_quotes-no_break s)

serialize_row-no_break :
    (s : List ℕ) (row : List (List ℕ))
    → all (all no_break) (s ∷ row) ≡ true
    → all no_break (serialize_row (s ∷ row)) ≡ true
unfolding join
serialize_row-no_break s [] h = ground (arith, h, quote_cell-no_break s)
serialize_row-no_break s (t ∷ row) h = ground (
  arith,
  h,
  quote_cell-no_break s,
  all-append no_break (quote_cell s) (comma ∷ serialize_row (t ∷ row)),
  serialize_row-no_break t row,
)

serialize_row-lines :
    (rows : List (List (List ℕ)))
    → all is_plain rows ≡ true
    → all (all no_break) (map serialize_row rows) ≡ true
serialize_row-lines [] h = refl
serialize_row-lines ([] ∷ rows) h = absurd (ground (arith, h))
serialize_row-lines ((s ∷ row) ∷ rows) h =
    let first : all (all no_break) (s ∷ row) ≡ true = ground (arith, h) in
    ground (arith, serialize_row-no_break s row first, serialize_row-lines rows (ground (arith, h)))

-- The headers with the cells under them, the empty text where a cell is missing.
abbrev pub pair_up : List (List ℕ) → List (List ℕ) → CsvRow
pair_up [] cells = []
pair_up (header ∷ headers) [] = (header, []) ∷ pair_up headers []
pair_up (header ∷ headers) (cell ∷ cells) = (header, cell) ∷ pair_up headers cells

-- No header is there twice.
abbrev pub are_distinct : List (List ℕ) → Bool
are_distinct [] = true
are_distinct (header ∷ headers) = not (any (text_eq header) headers) && are_distinct headers

abbrev has_key : List ℕ → CsvRow → Bool
has_key header row = any (λ (key, value). text_eq key header) row

-- None of the headers has a cell yet.
abbrev are_new : List (List ℕ) → CsvRow → Bool
are_new headers row = all (λ header. not (has_key header row)) headers

put_cell-new :
    (header cell : List ℕ) (row : CsvRow)
    → has_key header row ≡ false
    → put_cell header cell row ≡ row ++ (header, cell) ∷ []
unfolding put_cell
put_cell-new header cell [] h = refl
put_cell-new header cell ((key, value) ∷ row) h = ground (arith, h, put_cell-new header cell row)

are_new-append :
    (headers : List (List ℕ)) (header cell : List ℕ) (row : CsvRow)
    → are_new headers row ≡ true
    → any (text_eq header) headers ≡ false
    → are_new headers (row ++ (header, cell) ∷ []) ≡ true
are_new-append [] header cell row new other = refl
are_new-append (h ∷ headers) header cell row new other = ground (
  arith,
  new,
  other,
  any-append (λ (key, value). text_eq key h) row ((header, cell) ∷ []),
  are_new-append headers header cell row,
)

fill_row-put :
    (header cell : List ℕ) (headers cells : List (List ℕ)) (row : CsvRow)
    → fill_row headers cells (row ++ (header, cell) ∷ [])
      ≡ (row ++ (header, cell) ∷ []) ++ pair_up headers cells
    → has_key header row ≡ false
    → fill_row headers cells (put_cell header cell row)
      ≡ row ++ (header, cell) ∷ pair_up headers cells
fill_row-put header cell headers cells row filled new =
    ap (fill_row headers cells) (put_cell-new header cell row new)
    ∙ filled
    ∙ append_assoc row ((header, cell) ∷ []) (pair_up headers cells)

fill_row-pair_up :
    (headers cells : List (List ℕ)) (row : CsvRow)
    → are_new headers row ≡ true
    → are_distinct headers ≡ true
    → fill_row headers cells row ≡ row ++ pair_up headers cells
unfolding fill_row
fill_row-pair_up [] cells row new distinct = sym (append-nil row)
fill_row-pair_up (header ∷ headers) [] row new distinct =
    fill_row-put header [] headers [] row
      (fill_row-pair_up headers [] (row ++ (header, []) ∷ [])
        (are_new-append headers header [] row (ground (arith, new)) (ground (arith, distinct)))
        (ground (arith, distinct)))
      (ground (arith, new))
fill_row-pair_up (header ∷ headers) (cell ∷ cells) row new distinct =
    fill_row-put header cell headers cells row
      (fill_row-pair_up headers cells (row ++ (header, cell) ∷ [])
        (are_new-append headers header cell row (ground (arith, new)) (ground (arith, distinct)))
        (ground (arith, distinct)))
      (ground (arith, new))

are_new-empty : (headers : List (List ℕ)) → are_new headers [] ≡ true
are_new-empty [] = refl
are_new-empty (header ∷ headers) = are_new-empty headers

fill_rows-pair_up :
    (trim : List ℕ → List ℕ) (headers : List (List ℕ)) (rows : List (List (List ℕ)))
    → are_distinct headers ≡ true
    → map (λ row. fill_row headers (map trim row) []) rows
      ≡ map (λ row. pair_up headers (map trim row)) rows
fill_rows-pair_up trim headers [] distinct = refl
fill_rows-pair_up trim headers (row ∷ rows) distinct =
    ap (λ x. x ∷ map (λ row. fill_row headers (map trim row) []) rows)
      (fill_row-pair_up headers (map trim row) [] (are_new-empty headers) distinct)
    ∙ ap (λ x. pair_up headers (map trim row) ∷ x) (fill_rows-pair_up trim headers rows distinct)

-- What is relied on: trim leaves something of a text that starts with a quote.
module _ (trim lower : List ℕ → List ℕ)
    (trim_quote : (s : List ℕ) → is_empty (trim (quote ∷ s)) ≡ false) where
  is_line : List ℕ → Bool
  is_line line = not (is_empty (trim line))

  row_is_line : (row : List (List ℕ)) → is_plain row ≡ true → is_line (serialize_row row) ≡ true
  unfolding is_line join
  row_is_line [] h = absurd (ground (arith, h))
  row_is_line (s ∷ []) h = ap not (trim_quote _)
  row_is_line (s ∷ t ∷ row) h = ap not (trim_quote _)

  keep-rows :
      (rows : List (List (List ℕ)))
      → all is_plain rows ≡ true
      → keep is_line (map serialize_row rows) ≡ map serialize_row rows
  keep-rows [] h = refl
  keep-rows (row ∷ rows) h =
      ground (arith, row_is_line row (ground (arith, h)), keep-rows rows (ground (arith, h)))

  read_rows :
      (headers : List (List ℕ)) (rows : List (List (List ℕ)))
      → all is_plain rows ≡ true
      → map (λ line. fill_row headers (parse_line trim line) []) (map serialize_row rows)
        ≡ map (λ row. fill_row headers (map trim row) []) rows
  read_rows headers [] h = refl
  read_rows headers ([] ∷ rows) h = absurd (ground (arith, h))
  read_rows headers ((s ∷ row) ∷ rows) h =
      ap
        (λ cells.
          fill_row headers cells []
          ∷ map (λ line. fill_row headers (parse_line trim line) []) (map serialize_row rows))
        (parse_line-serialize_row trim s row)
      ∙ ap (λ x. fill_row headers (map trim (s ∷ row)) [] ∷ x)
          (read_rows headers rows (ground (arith, h)))

  -- Where trim leaves something of a text that starts with a quote: a table whose rows all have a
  -- cell, and whose cells have no line breaks, is written by serializeCsv and read back by parseCsv.
  -- If the headers, which its first row gives, trimmed and in lower case, are all different, then
  -- every other row gives its cells under them in their order, each without the spaces around it,
  -- whatever quotes and commas they hold, and the empty text where it has no cell.
  pub parse_csv-serialize_csv :
      (s : List ℕ) (header : List (List ℕ)) (rows : List (List (List ℕ)))
      → all is_plain ((s ∷ header) ∷ rows) ≡ true
      → are_distinct (map lower (map trim (s ∷ header))) ≡ true
      → parse_csv trim lower (serialize_csv ((s ∷ header) ∷ rows))
        ≡ map (λ row. pair_up (map lower (map trim (s ∷ header))) (map trim row)) rows
  unfolding rows_of_lines is_line
  parse_csv-serialize_csv s header rows h distinct =
      let first = serialize_row (s ∷ header) in
      let lines = map serialize_row rows in
      ap (λ x. rows_of_lines trim lower (keep is_line x))
        (split_lines-join first lines (serialize_row-lines ((s ∷ header) ∷ rows) h))
      ∙ ap (rows_of_lines trim lower) (keep-rows ((s ∷ header) ∷ rows) h)
      ∙ ap (λ cells. map (λ line. fill_row (map lower cells) (parse_line trim line) []) lines)
          (parse_line-serialize_row trim s header)
      ∙ read_rows (map lower (map trim (s ∷ header))) rows (ground (arith, h))
      ∙ fill_rows-pair_up trim (map lower (map trim (s ∷ header))) rows distinct
