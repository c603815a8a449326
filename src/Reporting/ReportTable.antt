-- ===== src/Reporting/ReportTable.antt =====
-- packages/core/src/reporting/report-table.ts: a report as rows of cells, and its CSV text.
pub mod Reader
pub mod Csv
pub mod Export
use Prim.Native.Char.{Char, code}
use Prim.Native.String
use mafuta.Base.{
  ℕ, suc, ◌%◌, String, Option, none, some, Bool, true, false, not, ◌&&◌, ◌||◌, List, [], ◌∷◌, ◌++◌,
  map, if◌then◌else◌, nat_eq, leb,
}
use mafuta.Base.Int.{pos, pos_part, abs}
use mafuta.Base.Ratio.{Ratio, of_ℕ, over, mul_ratio, math_round}
use mafuta.Base.Text.{append}
use mafuta.Base.Dict.{Dict, get}
use mafuta.Runtime.{Runtime}

pub data ReportCell : Type 0 where
  text : String → ReportCell
  number : Ratio → ReportCell
  null : ReportCell

pub data Align : Type 0 where
  left right : Align

pub record ReportColumn : Type 0 where
  pub key : String
  pub label : String
  pub align : Option Align

pub record ReportRange : Type 0 where
  pub from : Option String
  pub to : Option String

pub record ReportTable : Type 0 where
  pub report : String
  pub title : String
  pub generated_at : String
  pub range : ReportRange
  pub columns : List ReportColumn
  pub rows : List (Dict ReportCell)
  pub totals : Option (Dict ReportCell)
  pub notes : List String

abbrev pub is_quote : Char → Bool
is_quote c = nat_eq (code c) b'"'

-- `[",\n\r]`
abbrev pub is_special : Char → Bool
is_special c = is_quote c || nat_eq (code c) b',' || nat_eq (code c) b'\n' || nat_eq (code c) b'\r'

unfoldable pub needs_quoting : String → Bool
needs_quoting String.[] = false
needs_quoting (String.◌∷◌ c s) = is_special c || needs_quoting s

-- `text.replace(/"/g, '""')`
unfoldable pub double_quotes : String → String
double_quotes String.[] = ""
double_quotes (String.◌∷◌ c s) =
    let rest = double_quotes s in
    if is_quote c then String.◌∷◌ c (String.◌∷◌ c rest) else String.◌∷◌ c rest

-- The text as one field.
unfoldable pub quote_field : String → String
unfolding needs_quoting double_quotes append
quote_field s =
    if needs_quoting s then append "\"" (append (double_quotes s) "\"") else double_quotes s

abbrev is_digit : Char → Bool
is_digit c = leb b'0' (code c) && leb (code c) b'9'

abbrev starts_not_digit : String → Bool
starts_not_digit String.[] = false
starts_not_digit (String.◌∷◌ c s) = not (is_digit c)

-- `/^[=+@]/` or `/^-\D/`
abbrev pub is_formula : String → Bool
is_formula String.[] = false
is_formula (String.◌∷◌ c s) =
    nat_eq (code c) b'='
    || nat_eq (code c) b'+'
    || nat_eq (code c) b'@'
    || (nat_eq (code c) b'-' && starts_not_digit s)

unfoldable pub sanitize_text : String → String
unfolding append
sanitize_text s = if is_formula s then append "'" s else s

-- `Number.isInteger(value)`
abbrev is_integer : Ratio → Bool
is_integer value = nat_eq (pos_part (abs value.num) % suc value.den_pred) 0

-- `row[key]`, and `formatCell`
abbrev pub format_cell : Option ReportCell → ReportCell
format_cell none = null
format_cell (some cell) = cell

-- `xs.join(separator)`
unfoldable pub join : String → List String → String
unfolding append
join separator [] = ""
join separator (s ∷ []) = s
join separator (s ∷ t ∷ rest) = append s (append separator (join separator (t ∷ rest)))

abbrev pub header_cells : ReportTable → List ReportCell
header_cells table = map (λ column. text column.label) table.columns

abbrev pub row_cells : List ReportColumn → Dict ReportCell → List ReportCell
row_cells columns row = map (λ column. format_cell (get column.key row)) columns

-- A total, which is `Total` in the first column if there is none.
abbrev pub total_cells : List ReportColumn → Dict ReportCell → List ReportCell
total_cells [] totals = []
total_cells (column ∷ columns) totals = elim (format_cell (get column.key totals)) [
  | null ↦ text "Total" ∷ row_cells columns totals
  | cell ↦ cell ∷ row_cells columns totals
]

abbrev totals_lines : ReportTable → List (List ReportCell)
totals_lines table = elim table.totals [
  | none ↦ []
  | some totals ↦ total_cells table.columns totals ∷ []
]

-- The cells of each line of the export.
unfoldable pub table_lines : ReportTable → List (List ReportCell)
unfolding get append
table_lines table =
    (header_cells table ∷ map (row_cells table.columns) table.rows)
    ++ (totals_lines table ++ map (λ note. text (append "note: " note) ∷ []) table.notes)

module _ (rt : Runtime) where
  unfoldable pub format_number_cell : Ratio → String
  unfolding mul_ratio math_round
  format_number_cell value =
      if is_integer value
      then rt.number_text value
      else rt.number_text (over (math_round (mul_ratio value (of_ℕ 1000))) 1000)

  -- The text of a cell before it is quoted.
  unfoldable pub cell_text : ReportCell → String
  unfolding format_number_cell sanitize_text
  cell_text null = ""
  cell_text (number value) = format_number_cell value
  cell_text (text value) = sanitize_text value

  unfoldable pub escape_csv_cell : ReportCell → String
  unfolding cell_text quote_field
  escape_csv_cell null = ""
  escape_csv_cell cell = quote_field (cell_text cell)

  abbrev pub csv_line : List ReportCell → String
  csv_line cells = join "," (map escape_csv_cell cells)

  unfoldable pub to_csv : ReportTable → String
  unfolding join escape_csv_cell table_lines append
  to_csv table = append (join "\n" (map csv_line (table_lines table))) "\n"
