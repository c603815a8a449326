-- ===== src/Reporting/ReportTable/Reader.antt =====
-- A reader of CSV as RFC 4180 has it. A record ends with a line feed.
use Prim.Native.Char.{Char, code}
use mafuta.Base.{String, List, [], ◌∷◌, if◌then◌else◌, nat_eq}
use mafuta.Reporting.ReportTable.{is_quote}

abbrev pub Records : Type 0
Records = List (List String)

-- A character in front of the first field.
unfoldable pub push : Char → Records → Records
push c ((field ∷ fields) ∷ records) = (String.◌∷◌ c field ∷ fields) ∷ records
push c _ = (String.◌∷◌ c "" ∷ []) ∷ []

unfoldable pub next_field : String → Records → Records
next_field field [] = (field ∷ []) ∷ []
next_field field (fields ∷ records) = (field ∷ fields) ∷ records

abbrev pub next_record : String → Records → Records
next_record field records = (field ∷ []) ∷ records

-- Where the reader stands: at the start of a line or of a field, in a field without or with quotes,
-- or after a quote within those.
pub data Mode : Type 0 where
  line start plain quoted closing : Mode

unfoldable pub read : Mode → String → Records
unfolding push next_field
read line String.[] = []
read start String.[] = ("" ∷ []) ∷ []
read plain String.[] = ("" ∷ []) ∷ []
read quoted String.[] = ("" ∷ []) ∷ []
read closing String.[] = ("" ∷ []) ∷ []
read quoted (String.◌∷◌ c s) =
    let inside = push c (read quoted s) in
    let outside = read closing s in if is_quote c then outside else inside
read closing (String.◌∷◌ c s) =
    let doubled = push c (read quoted s) in
    let field = next_field "" (read start s) in
    let record_end = next_record "" (read line s) in
    let other = push c (read plain s) in
    if is_quote c
    then doubled
    else if nat_eq (code c) b','
    then field
    else if nat_eq (code c) b'\n'
    then record_end
    else other
read plain (String.◌∷◌ c s) =
    let field = next_field "" (read start s) in
    let record_end = next_record "" (read line s) in
    let other = push c (read plain s) in
    if nat_eq (code c) b',' then field else if nat_eq (code c) b'\n' then record_end else other
read start (String.◌∷◌ c s) =
    let opened = read quoted s in
    let field = next_field "" (read start s) in
    let record_end = next_record "" (read line s) in
    let other = push c (read plain s) in
    if is_quote c
    then opened
    else if nat_eq (code c) b','
    then field
    else if nat_eq (code c) b'\n'
    then record_end
    else other
read line (String.◌∷◌ c s) =
    let opened = read quoted s in
    let field = next_field "" (read start s) in
    let record_end = next_record "" (read line s) in
    let other = push c (read plain s) in
    if is_quote c
    then opened
    else if nat_eq (code c) b','
    then field
    else if nat_eq (code c) b'\n'
    then record_end
    else other

unfoldable pub read_csv : String → List (List String)
unfolding read
read_csv s = read line s
