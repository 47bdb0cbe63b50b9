-- ===== src/Importer/Rows/Totals.antt =====
-- When readRow does not panic, on a map that newColumnMap or legacyColumnMap gave.
use listnun.Prelude.{
  ℕ, ◌+◌, ◌≤◌, ◌≡◌, refl, Option, none, some, List, [], ◌∷◌, Text, arith, length, get_elem?-of_lt,
  All, ltb, Bool-cases, inl, inr, ◌⊎◌,
}
use listnun.Importer.Types.{Std, Value, text, Column}
use listnun.Importer.Domains.{Rules}
use listnun.Importer.Columns.{Attr, ColumnMap, choose_column_map}
use listnun.Importer.Columns.Fits.{Below, AttrBelow, Fits, HasEmail, choose_column_map-Fits}
use listnun.Importer.Rows.{
  RowResult, accepted, rejected, panics, cell, put, put_cell, members, json_map, value_at,
  read_attrs, read_attribs, read_fields, read_row,
}

-- The row is accepted, or is a problem under its number in a spreadsheet.
abbrev pub Ends : ℕ → RowResult → Type 0
Ends line (accepted sub) = Unit {0}
Ends line (rejected p) = p.row ≡ line + 1
Ends line panics = ⊥

cell_total :
    (row : List Text) (o : Option ℕ) (n : ℕ)
    → Below o n
    → n ≤ length row
    → (v : Text) × (cell row o ≡ some v)
cell_total row none n b h = ([], refl)
cell_total row (some i) n b h = get_elem?-of_lt row i (omega arith)

-- No attribute column is mapped, or the cell with JSON is not null.
abbrev pub GivesMap : Std → ColumnMap → List Text → Type 0
GivesMap std m row =
    (m.attrs ≡ [])
    ⊎ ((x : List (Text × Value)) × (json_map std (value_at (cell row m.attribs)) ≡ some x))

put_cell_total :
    (key v : Text) (m : List (Text × Value))
    → (r : List (Text × Value)) × (put_cell key v (some m) ≡ some (some r))
put_cell_total key [] m = (m, refl)
put_cell_total key (c ∷ v) m = (put key (text (c ∷ v)) m, refl)

read_attrs_total :
    (std : Std) (row : List Text) (attrs : List Attr) (n : ℕ) (m : List (Text × Value))
    → All (AttrBelow n) attrs
    → n ≤ length row
    → (r : List (Text × Value)) × (read_attrs std row attrs (some m) ≡ some r)
unfolding read_attrs
read_attrs_total std row [] n m b h = (m, refl)
read_attrs_total std row (a ∷ rest) n m b h =
    let (v, e) = get_elem?-of_lt row a.index (omega arith) in
    let (m', k) = put_cell_total a.key (std.trim_space v) m in
    rw (e, read_attrs) (rw (k, read_attrs) (read_attrs_total std row rest n m' b.1 h))

read_attribs_total :
    (std : Std) (row : List Text) (m : ColumnMap)
    → Fits m
    → m.min_cols ≤ length row
    → GivesMap std m row
    → (r : List (Text × Value)) × (read_attribs std row m ≡ some r)
unfolding read_attribs read_attrs
read_attribs_total std row m f h (inl none_mapped) =
    let (v, e) = cell_total row m.attribs m.min_cols f.attribs_below h in
    rw (e, read_attribs) (rw (none_mapped, read_attrs) (members (json_map std v), refl))
read_attribs_total std row m f h (inr (x, given)) =
    let (v, e) = cell_total row m.attribs m.min_cols f.attribs_below h in
    let given' : json_map std v ≡ some x = rw e at given in
    rw (e, read_attribs)
      (rw (given', read_attrs) (read_attrs_total std row m.attrs m.min_cols x f.attrs_below h))

read_fields-Ends :
    (std : Std) (rules : Rules) (row : List Text) (m : ColumnMap) (line : ℕ) (email name : Text)
    → Fits m
    → m.min_cols ≤ length row
    → GivesMap std m row
    → Ends line (read_fields std rules row m line email name)
unfolding read_fields
read_fields-Ends std rules row m line email name f h g =
    let (r, e) = read_attribs_total std row m f h g in ground arith

pub read_row-Ends :
    (std : Std) (rules : Rules) (row : List Text) (m : ColumnMap) (line : ℕ)
    → Fits m
    → HasEmail m
    → GivesMap std m row
    → Ends line (read_row std rules row m line)
unfolding read_row
read_row-Ends std rules row m line f (e, mapped, below) g =
    elim (Bool-cases (ltb (length row) m.min_cols)) [
      | inl short ↦ rw (mapped, read_row) (rw short refl)
      | inr long ↦
          let h : m.min_cols ≤ length row = ground arith in
          let (email, a) = get_elem?-of_lt row e (omega arith) in
          let (name, b) = cell_total row m.name m.min_cols f.name_below h in
          rw (mapped, read_row)
            (rw (long, a, b) (read_fields-Ends std rules row m line email name f h g))
    ]

-- With the column map of the file, readRow reads no cell out of range: it accepts the row, or reports
-- it under its spreadsheet number, the data row's number plus one, unless the cell with JSON is null
-- and an attribute column is mapped too.
read_row_total :
    (std : Std) (rules : Rules) (cols : List Column) (hdr row : List Text) (m : ColumnMap)
    (line : ℕ)
    → choose_column_map std cols hdr ≡ some m
    → GivesMap std m row
    → Ends line (read_row std rules row m line)
read_row_total std rules cols hdr row m line e g =
    let (f, h) = choose_column_map-Fits std cols hdr m e in read_row-Ends std rules row m line f h g
