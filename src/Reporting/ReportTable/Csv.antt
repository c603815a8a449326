-- ===== src/Reporting/ReportTable/Csv.antt =====
-- packages/core/src/reporting/report-table.ts: lines of fields as a CSV reader reads them.
use Prim.Native.Char.{Char, code}
use mafuta.Base.{
  String, false, List, [], ◌∷◌, map, ◌≡◌, refl, ap, ◌∙◌, nat_eq, Bool-cases, inl, inr, arith, All,
}
use mafuta.Base.Text.{append}
use mafuta.Runtime.{Runtime}
use mafuta.Reporting.ReportTable.Reader.{
  Records, push, next_field, next_record, Mode, line, start, plain, quoted, closing, read,
}
use mafuta.Reporting.ReportTable.{
  ReportCell, null, number, text, is_quote, is_special, needs_quoting, double_quotes, quote_field,
  cell_text, escape_csv_cell, join, csv_line,
}

append_assoc : (s t u : String) → append (append s t) u ≡ append s (append t u)
unfolding append
append_assoc String.[] t u = refl
append_assoc (String.◌∷◌ c s) t u = ap (String.◌∷◌ c) (append_assoc s t u)

push-next_field :
    (c : Char) (t : String) (records : Records)
    → push c (next_field t records) ≡ next_field (String.◌∷◌ c t) records
unfolding push next_field
push-next_field c t [] = refl
push-next_field c t (fields ∷ records) = refl

abbrev IsOpen : Mode → Type 0
IsOpen line = Unit
IsOpen start = Unit
IsOpen _ = ⊥

double_quotes-clean : (t : String) → needs_quoting t ≡ false → double_quotes t ≡ t
unfolding needs_quoting double_quotes
double_quotes-clean String.[] clean = refl
double_quotes-clean (String.◌∷◌ c t) clean =
    let quote : is_quote c ≡ false = ground arith in
    let later : needs_quoting t ≡ false = ground arith in
    rw quote (ap (String.◌∷◌ c) (double_quotes-clean t later))

-- What stands after a field: its end `u`, and what is read then.
module _ (u : String) (K : String → Records)
    (grow : (c : Char) (t : String) → push c (K t) ≡ K (String.◌∷◌ c t)) where
  read_plain :
      (t : String) → needs_quoting t ≡ false → read plain u ≡ K "" → read plain (append t u) ≡ K t
  unfolding append needs_quoting read
  read_plain String.[] clean end = end
  read_plain (String.◌∷◌ c t) clean end =
      let here : is_special c ≡ false = ground arith in
      let later : needs_quoting t ≡ false = ground arith in
      let rest = ap (push c) (read_plain t later end) ∙ grow c t in
      let comma : nat_eq (code c) b',' ≡ false = ground arith in
      let newline : nat_eq (code c) b'\n' ≡ false = ground arith in rw (comma, newline) rest

  read_quoted :
      (t : String)
      → read closing u ≡ K ""
      → read quoted (append (double_quotes t) (append "\"" u)) ≡ K t
  unfolding append double_quotes read
  read_quoted String.[] end = end
  read_quoted (String.◌∷◌ c t) end =
      let rest = ap (push c) (read_quoted t end) ∙ grow c t in
      elim (Bool-cases (is_quote c)) [
        | inl quote ↦ rw (quote, quote) rest
        | inr other ↦ rw (other, other) rest
      ]

  read_open :
      (mode : Mode) (t : String)
      → IsOpen mode
      → needs_quoting t ≡ false
      → read mode u ≡ K ""
      → read plain u ≡ K ""
      → read mode (append t u) ≡ K t
  unfolding append needs_quoting read
  read_open mode String.[] open_mode clean here end = here
  read_open line (String.◌∷◌ c t) open_mode clean here end =
      let quote : is_quote c ≡ false = ground arith in
      rw quote (read_plain (String.◌∷◌ c t) clean end)
  read_open start (String.◌∷◌ c t) open_mode clean here end =
      let quote : is_quote c ≡ false = ground arith in
      rw quote (read_plain (String.◌∷◌ c t) clean end)
  read_open plain (String.◌∷◌ c t) open_mode clean here end = absurd open_mode
  read_open quoted (String.◌∷◌ c t) open_mode clean here end = absurd open_mode
  read_open closing (String.◌∷◌ c t) open_mode clean here end = absurd open_mode

  read_opened : (mode : Mode) (s : String) → IsOpen mode → read mode (append "\"" s) ≡ read quoted s
  unfolding append read
  read_opened line s open_mode = refl
  read_opened start s open_mode = refl
  read_opened plain s open_mode = absurd open_mode
  read_opened quoted s open_mode = absurd open_mode
  read_opened closing s open_mode = absurd open_mode

  -- A field at the start of a line or after a comma.
  read-quote_field :
      (mode : Mode) (t : String)
      → IsOpen mode
      → read mode u ≡ K ""
      → read plain u ≡ K ""
      → read closing u ≡ K ""
      → read mode (append (quote_field t) u) ≡ K t
  unfolding quote_field
  read-quote_field mode t open_mode here end closed = elim (Bool-cases (needs_quoting t)) [
    | inl special ↦
        rw (special, quote_field, append_assoc, append_assoc, read_opened mode _ open_mode)
          (read_quoted t closed)
    | inr clean ↦
        rw (clean, quote_field, double_quotes-clean t clean)
          (read_open mode t open_mode clean here end)
  ]

module _ (s : String) where
  read-comma :
      (mode : Mode) (t : String)
      → IsOpen mode
      → read mode (append (quote_field t) (append "," s)) ≡ next_field t (read start s)
  unfolding append read
  read-comma mode t open_mode =
      read-quote_field (append "," s) (λ field. next_field field (read start s))
        (λ c field. push-next_field c field (read start s)) mode t open_mode
        (read_mark mode open_mode) refl refl
    where
      read_mark : (m : Mode) → IsOpen m → read m (append "," s) ≡ next_field "" (read start s)
      read_mark line o = refl
      read_mark start o = refl
      read_mark plain o = refl
      read_mark quoted o = absurd o
      read_mark closing o = refl

  read-line_feed :
      (mode : Mode) (t : String)
      → IsOpen mode
      → read mode (append (quote_field t) (append "\n" s)) ≡ (t ∷ []) ∷ read line s
  unfolding append read push
  read-line_feed mode t open_mode =
      read-quote_field (append "\n" s) (λ field. next_record field (read line s)) (λ c field. refl)
        mode t open_mode (read_mark mode open_mode) refl refl
    where
      read_mark : (m : Mode) → IsOpen m → read m (append "\n" s) ≡ next_record "" (read line s)
      read_mark line o = refl
      read_mark start o = refl
      read_mark plain o = refl
      read_mark quoted o = absurd o
      read_mark closing o = refl

-- A line that is not empty is one record.
read-join :
    (mode : Mode) (t : String) (ts : List String) (s : String)
    → IsOpen mode
    → read mode (append (join "," (map quote_field (t ∷ ts))) (append "\n" s))
      ≡ (t ∷ ts) ∷ read line s
unfolding join next_field
read-join mode t [] s open_mode = read-line_feed s mode t open_mode
read-join mode t (t' ∷ ts) s open_mode =
    let rest = read-join start t' ts s tt in
    rw (append_assoc, append_assoc, read-comma _ mode t open_mode, rest) refl

abbrev pub IsFilled : {A : Type 0} → List A → Type 0
IsFilled [] = ⊥
IsFilled (x ∷ xs) = Unit

module _ (rt : Runtime) where
  escape_csv_cell-eq :
      (cells : List ReportCell)
      → map (escape_csv_cell rt) cells ≡ map quote_field (map (cell_text rt) cells)
  unfolding escape_csv_cell quote_field cell_text needs_quoting double_quotes
  escape_csv_cell-eq [] = refl
  escape_csv_cell-eq (null ∷ cells) = ap (λ r. "" ∷ r) (escape_csv_cell-eq cells)
  escape_csv_cell-eq (number value ∷ cells) =
      ap (λ r. quote_field (cell_text rt (number value)) ∷ r) (escape_csv_cell-eq cells)
  escape_csv_cell-eq (text value ∷ cells) =
      ap (λ r. quote_field (cell_text rt (text value)) ∷ r) (escape_csv_cell-eq cells)

  read-csv_line :
      (cells : List ReportCell) (s : String)
      → IsFilled cells
      → read line (append (csv_line rt cells) (append "\n" s))
        ≡ map (cell_text rt) cells ∷ read line s
  read-csv_line [] s filled = absurd filled
  read-csv_line (cell ∷ cells) s filled =
      rw (escape_csv_cell-eq (cell ∷ cells))
        (read-join line (cell_text rt cell) (map (cell_text rt) cells) s tt)

  pub read-lines :
      (cells : List ReportCell) (lines : List (List ReportCell))
      → IsFilled cells
      → All IsFilled lines
      → read line (append (join "\n" (map (csv_line rt) (cells ∷ lines))) "\n")
        ≡ map (map (cell_text rt)) (cells ∷ lines)
  unfolding join append read
  read-lines cells [] filled all = read-csv_line cells "" filled
  read-lines cells (next ∷ lines) filled all = rw (append_assoc (csv_line rt cells) _ "\n") (
      read-csv_line cells _ filled
      ∙ ap (λ r. map (cell_text rt) cells ∷ r) (read-lines next lines all.0 all.1))
