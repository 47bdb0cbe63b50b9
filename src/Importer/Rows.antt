-- ===== src/Importer/Rows.antt =====
-- From a CSV row to a subscriber: ValidateFields (internal/subimporter/importer.go) and readRow
-- (internal/subimporter/inspect.go). A row is the list of its cells.
pub mod Totals
pub mod Accepted
use listnun.Prelude.{
  ℕ, ◌+◌, Bool, true, false, Option, none, some, List, [], ◌∷◌, Text, codes, ltb, ◌==◌,
  if◌then◌else◌, text_eq, length, get_elem?, split, join, map,
}
use listnun.Importer.Status.{Problem, Reason, no_email, columns}
use listnun.Importer.Status as Status
use listnun.Importer.Types.{Std, SubReq, Value, text}
use listnun.Importer.Domains.{Rules, Result, ok, err, EmailError, sanitize_email}
use listnun.Importer.Domains as Domains
use listnun.Importer.Columns.{Attr, ColumnMap}

-- strings.ReplaceAll(name, ".", " ")
unfoldable pub dots_to_spaces : Text → Text
dots_to_spaces [] = []
dots_to_spaces (c ∷ s) = (if c == b'.' then b' ' else c) ∷ dots_to_spaces s

abbrev pub first_part : List Text → Text
first_part [] = []
first_part (p ∷ ps) = p

-- The name that an address gives.
unfoldable pub name_from_email : Std → Text → Text
unfolding dots_to_spaces
name_from_email std email =
    let name = std.to_lower (first_part (split b'@' email)) in
    join (codes " ") (map std.title (std.fields (dots_to_spaces name)))

abbrev pub name_or : Text → Text → Text
name_or [] default = default
name_or (c ∷ s) default = c ∷ s

abbrev pub max_email : ℕ
max_email = 1000

-- ValidateFields
unfoldable pub validate_fields : Std → Rules → SubReq → Result SubReq
validate_fields std rules s =
    if ltb max_email (length s.email)
    then err Domains.EmailError.invalid_email
    else elim (sanitize_email std rules s.email) [
      | err e ↦ err e
      | ok addr ↦
          let email = std.to_lower addr in
          ok (record s {
            email = email;
            name = name_or (std.trim_space s.name) (name_from_email std email);
          })
    ]

-- What readRow returns. Go panics on a cell that is out of range.
pub data RowResult : Type 0 where
  accepted : SubReq → RowResult
  rejected : Problem → RowResult
  panics : RowResult

-- row[i] for a column that may be unmapped.
abbrev pub cell : List Text → Option ℕ → Option Text
cell row none = some []
cell row (some i) = get_elem? row i

-- attribs[key] = value on a Go map.
unfoldable pub put : Text → Value → List (Text × Value) → List (Text × Value)
put k v [] = (k, v) ∷ []
put k v ((j, w) ∷ m) = if text_eq j k then (k, v) ∷ m else (j, w) ∷ put k v m

-- A map, which `none` makes nil; a write to it panics.
abbrev pub Attribs : Type 0
Attribs = Option (List (Text × Value))

abbrev pub put_cell : Text → Text → Attribs → Option Attribs
put_cell key [] m = some m
put_cell key (c ∷ v) none = none
put_cell key (c ∷ v) (some m) = some (some (put key (text (c ∷ v)) m))

-- len of a nil map is 0.
abbrev pub members : Attribs → List (Text × Value)
members none = []
members (some m) = m

abbrev pub or_panic :
    Option Attribs → (Attribs → Option (List (Text × Value))) → Option (List (Text × Value))
or_panic none f = none
or_panic (some m) f = f m

-- The loop over m.attrs.
unfoldable pub read_attrs : Std → List Text → List Attr → Attribs → Option (List (Text × Value))
unfolding put
read_attrs std row [] m = some (members m)
read_attrs std row (a ∷ rest) m = elim (get_elem? row a.index) [
  | none ↦ none
  | some v ↦ or_panic (put_cell a.key (std.trim_space v) m) (read_attrs std row rest)
]

abbrev pub is_blank : Std → Text → Bool
is_blank std s = text_eq (std.trim_space s) []

-- The map that the cell with JSON gives. A bad one leaves what it gave before it went wrong.
abbrev pub json_map : Std → Text → Attribs
json_map std c = if is_blank std c then some [] else std.unmarshal c

-- The attributes of a row, or a panic.
unfoldable pub read_attribs : Std → List Text → ColumnMap → Option (List (Text × Value))
unfolding read_attrs
read_attribs std row m = elim (cell row m.attribs) [
  | none ↦ none
  | some c ↦ read_attrs std row m.attrs (json_map std c)
]

abbrev pub reason_of : EmailError → Reason
reason_of Domains.EmailError.invalid_email = Status.Reason.invalid_email
reason_of Domains.EmailError.blocked_domain = Status.Reason.blocked_domain

abbrev pub value_at : Option Text → Text
value_at none = []
value_at (some v) = v

-- readRow, once the email and the name are at hand.
unfoldable pub read_fields : Std → Rules → List Text → ColumnMap → ℕ → Text → Text → RowResult
unfolding read_attribs
read_fields std rules row m line email name =
    if is_blank std email
    then rejected (record { row = line + 1; value = email; reason = no_email })
    else elim (validate_fields std rules (record { email = email; name = name; attribs = [] })) [
      | err e ↦ rejected (record { row = line + 1; value = email; reason = reason_of e })
      | ok sub ↦ elim (read_attribs std row m) [
        | none ↦ panics
        | some attribs ↦ accepted (record sub { attribs = attribs })
      ]
    ]

-- The cells that readRow reads first.
abbrev pub with_cells : Option Text → Option Text → (Text → Text → RowResult) → RowResult
with_cells (some email) (some name) f = f email name
with_cells (some email) none f = panics
with_cells none name f = panics

-- readRow. `row[-1]`, for an email that is not mapped, panics.
unfoldable pub read_row : Std → Rules → List Text → ColumnMap → ℕ → RowResult
read_row std rules row m line = elim m.email [
  | none ↦ panics
  | some e ↦
      if ltb (length row) m.min_cols
      then rejected
          (record { row = line + 1; value = value_at (get_elem? row e); reason = columns })
      else with_cells (get_elem? row e) (cell row m.name) (read_fields std rules row m line)
]
