-- ===== src/Members/Csv.antt =====
-- src/members/csv.util.ts: the reader of the import of members, and serializeCsv of
-- src/reports/reports-export.service.ts, the writer of the exports. A text is a list of code
-- points; trim and toLowerCase are parameters.
pub mod RoundTrip
pub mod Lines
use rac3011_api.Base.{
  ℕ, Bool, true, false, not, ◌&&◌, ◌||◌, List, [], ◌∷◌, ◌++◌, eqb, keep, map, if◌then◌else◌,
  is_empty, text_eq,
}

abbrev pub quote : ℕ
quote = 34

abbrev pub comma : ℕ
comma = 44

-- The loop of parseLine: inQuotes, the current cell and the characters from i on.
unfoldable pub parse_cells : Bool → List ℕ → List ℕ → List (List ℕ)
parse_cells in_quotes current [] = current ∷ []
parse_cells true current (c ∷ []) = if eqb c quote then current ∷ [] else (current ++ c ∷ []) ∷ []
parse_cells true current (c ∷ d ∷ ds) =
    let escaped = parse_cells true (current ++ quote ∷ []) ds in
    let closed = parse_cells false current (d ∷ ds) in
    let longer = parse_cells true (current ++ c ∷ []) (d ∷ ds) in
    if eqb c quote && eqb d quote then escaped else if eqb c quote then closed else longer
parse_cells false current (c ∷ cs) =
    let opened = parse_cells true current cs in
    let next = parse_cells false [] cs in
    let longer = parse_cells false (current ++ c ∷ []) cs in
    if eqb c quote then opened else if eqb c comma then current ∷ next else longer

abbrev pub parse_line : (List ℕ → List ℕ) → List ℕ → List (List ℕ)
parse_line trim line = map trim (parse_cells false [] line)

-- `csv.split(/\r\n|\r|\n/)`, from the current line on.
unfoldable pub split_lines : List ℕ → List ℕ → List (List ℕ)
split_lines line [] = line ∷ []
split_lines line (c ∷ []) = if eqb c 13 || eqb c 10 then line ∷ [] ∷ [] else (line ++ c ∷ []) ∷ []
split_lines line (c ∷ d ∷ ds) =
    let after_both = split_lines [] ds in
    let next = split_lines [] (d ∷ ds) in
    let longer = split_lines (line ++ c ∷ []) (d ∷ ds) in
    if eqb c 13 && eqb d 10
    then line ∷ after_both
    else if eqb c 13 || eqb c 10
    then line ∷ next
    else longer

abbrev pub CsvRow : Type 0
CsvRow = List (List ℕ × List ℕ)

-- `row[header] = cell`
unfoldable pub put_cell : List ℕ → List ℕ → CsvRow → CsvRow
put_cell header cell [] = (header, cell) ∷ []
put_cell header cell ((key, value) ∷ row) =
    let rest = put_cell header cell row in
    if text_eq key header then (header, cell) ∷ row else (key, value) ∷ rest

-- `headers.forEach(...)`, a missing cell being ''.
unfoldable pub fill_row : List (List ℕ) → List (List ℕ) → CsvRow → CsvRow
fill_row [] cells row = row
fill_row (header ∷ headers) [] row = fill_row headers [] (put_cell header [] row)
fill_row (header ∷ headers) (cell ∷ cells) row = fill_row headers cells (put_cell header cell row)

unfoldable pub rows_of_lines : (List ℕ → List ℕ) → (List ℕ → List ℕ) → List (List ℕ) → List CsvRow
rows_of_lines trim lower [] = []
rows_of_lines trim lower (first ∷ lines) =
    map (λ line. fill_row (map lower (parse_line trim first)) (parse_line trim line) []) lines

abbrev pub parse_csv : (List ℕ → List ℕ) → (List ℕ → List ℕ) → List ℕ → List CsvRow
parse_csv trim lower csv =
    rows_of_lines trim lower (keep (λ line. not (is_empty (trim line))) (split_lines [] csv))

-- `.replace(/"/g, '""')`
unfoldable pub escape_quotes : List ℕ → List ℕ
escape_quotes [] = []
escape_quotes (c ∷ s) =
    let rest = escape_quotes s in if eqb c quote then quote ∷ quote ∷ rest else c ∷ rest

unfoldable pub join : List ℕ → List (List ℕ) → List ℕ
join separator [] = []
join separator (s ∷ []) = s
join separator (s ∷ t ∷ ts) = s ++ (separator ++ join separator (t ∷ ts))

abbrev pub quote_cell : List ℕ → List ℕ
quote_cell s = quote ∷ escape_quotes s ++ quote ∷ []

abbrev pub serialize_row : List (List ℕ) → List ℕ
serialize_row row = join (comma ∷ []) (map quote_cell row)

abbrev pub serialize_csv : List (List (List ℕ)) → List ℕ
serialize_csv rows = join (13 ∷ 10 ∷ []) (map serialize_row rows)
