-- ===== src/Reporting/ReportTable/Export.antt =====
-- packages/core/src/reporting/report-table.ts: the whole export.
use mafuta.Base.{String, Option, none, some, List, [], ◌∷◌, ◌++◌, map, ◌≡◌, All, All-append}
use mafuta.Base.Text.{append}
use mafuta.Base.Dict.{Dict, get}
use mafuta.Runtime.{Runtime}
use mafuta.Reporting.ReportTable.{
  ReportCell, ReportColumn, ReportTable, null, number, text, cell_text, table_lines, to_csv,
  row_cells, total_cells, header_cells, format_cell,
}
use mafuta.Reporting.ReportTable.Csv.{IsFilled, read-lines}
use mafuta.Reporting.ReportTable.Reader.{read_csv}

module _ (column : ReportColumn) (columns : List ReportColumn) where
  rows-IsFilled :
      (rows : List (Dict ReportCell)) → All IsFilled (map (row_cells (column ∷ columns)) rows)
  rows-IsFilled [] = tt
  rows-IsFilled (row ∷ rows) = (tt, rows-IsFilled rows)

  notes-IsFilled :
      (notes : List String) → All IsFilled (map (λ note. text (append "note: " note) ∷ []) notes)
  notes-IsFilled [] = tt
  notes-IsFilled (note ∷ notes) = (tt, notes-IsFilled notes)

  total-IsFilled : (totals : Dict ReportCell) → IsFilled (total_cells (column ∷ columns) totals)
  total-IsFilled totals =
      elim (format_cell (get column.key totals))
        as (λ cell. IsFilled (elim cell [
          | null ↦ text "Total" ∷ row_cells columns totals
          | other ↦ other ∷ row_cells columns totals
        ])) [ null ↦ tt | text value ↦ tt | number value ↦ tt ]

  totals-IsFilled :
      (totals : Option (Dict ReportCell))
      → All IsFilled (elim totals [ none ↦ [] | some t ↦ total_cells (column ∷ columns) t ∷ [] ])
  totals-IsFilled none = tt
  totals-IsFilled (some totals) = (total-IsFilled totals, tt)

lines-IsFilled :
    (columns : List ReportColumn) (rows : List (Dict ReportCell))
    (totals : Option (Dict ReportCell)) (notes : List String)
    → IsFilled columns
    → IsFilled (map (λ column. text column.label) columns)
      × All IsFilled (
          map (row_cells columns) rows
          ++ (elim totals [ none ↦ [] | some t ↦ total_cells columns t ∷ [] ]
              ++ map (λ note. text (append "note: " note) ∷ []) notes))
lines-IsFilled [] rows totals notes filled = absurd filled
lines-IsFilled (column ∷ columns) rows totals notes filled = (
  tt,
  All-append IsFilled (map (row_cells (column ∷ columns)) rows) _
      (rows-IsFilled column columns rows)
      (All-append IsFilled _ _ (totals-IsFilled column columns totals)
        (notes-IsFilled column columns notes)),
)

-- The cells that are read: the texts of the cells of each line.
abbrev pub line_texts : Runtime → ReportTable → List (List String)
line_texts rt table = map (map (cell_text rt)) (table_lines table)

-- A CSV reader that follows RFC 4180 with line feeds finds in the export of a table with at least
-- one column exactly the lines of the table, each with the texts of its cells.
pub read_csv-to_csv :
    (rt : Runtime) (table : ReportTable)
    → IsFilled table.columns
    → read_csv (to_csv rt table) ≡ line_texts rt table
unfolding read_csv to_csv table_lines
read_csv-to_csv rt table filled =
    let (header, rest) = lines-IsFilled table.columns table.rows table.totals table.notes filled in
    read-lines rt (header_cells table) _ header rest
