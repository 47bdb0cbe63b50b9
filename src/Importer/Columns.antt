-- ===== src/Importer/Columns.antt =====
-- What the columns of a CSV are saved as: AttributeKey, GuessColumn, cleanHeader, newColumnMap and
-- legacyColumnMap of internal/subimporter/inspect.go.
pub mod Keys
pub mod Fits
use Prim.Native.Nat.{max}
use listnun.Prelude.{
  ℕ, ◌+◌, Bool, true, false, ◌&&◌, ◌||◌, not, Option, none, some, List, [], ◌∷◌, ◌++◌, Text, codes,
  leb, ltb, ◌==◌, if◌then◌else◌, contains, text_eq, length,
}
use listnun.Importer.Types.{
  ℤ, pos, negsuc, As, email, name, attribute, attributes, skip, unknown, Column, Std,
}

-- [a-z0-9]
unfoldable pub is_word : ℕ → Bool
is_word c = (leb b'a' c && leb c b'z') || (leb b'0' c && leb c b'9')

abbrev pub underscore : ℕ
underscore = b'_'

-- What the replacement of [^a-z0-9]+ by "_" makes of one byte: `inside` tells that the byte before
-- it belongs to a run that is replaced already.
abbrev pub emit : Bool → Bool → ℕ → Text → Text
emit true inside c rest = c ∷ rest
emit false true c rest = rest
emit false false c rest = underscore ∷ rest

unfoldable pub collapse_from : Bool → Text → Text
collapse_from inside [] = []
collapse_from inside (c ∷ s) = emit (is_word c) inside c (collapse_from (not (is_word c)) s)

unfoldable pub trim_left : Text → Text
trim_left [] = []
trim_left (c ∷ s) = let rest = trim_left s in if c == underscore then rest else c ∷ s

abbrev pub keep_end : Bool → ℕ → Text → Text
keep_end true c [] = []
keep_end true c (d ∷ s) = c ∷ d ∷ s
keep_end false c s = c ∷ s

unfoldable pub trim_right : Text → Text
trim_right [] = []
trim_right (c ∷ s) = keep_end (c == underscore) c (trim_right s)

-- AttributeKey. strings.Trim(s, "_") trims both ends.
unfoldable pub attribute_key : Std → Text → Text
unfolding collapse_from trim_left trim_right
attribute_key std h = trim_right (trim_left (collapse_from false (std.to_lower h)))

abbrev pub email_headers : List Text
email_headers =
    codes "email"
    ∷ codes "e_mail"
    ∷ codes "email_address"
    ∷ codes "emailaddress"
    ∷ codes "mail"
    ∷ codes "e_mail_address"
    ∷ codes "subscriber_email"
    ∷ codes "contact_email"
    ∷ []

abbrev pub name_headers : List Text
name_headers =
    codes "name"
    ∷ codes "full_name"
    ∷ codes "fullname"
    ∷ codes "display_name"
    ∷ codes "contact_name"
    ∷ codes "subscriber_name"
    ∷ []

abbrev pub skip_headers : List Text
skip_headers =
    codes "id"
    ∷ codes "uuid"
    ∷ codes "created"
    ∷ codes "created_at"
    ∷ codes "updated"
    ∷ codes "updated_at"
    ∷ codes "date"
    ∷ codes "timestamp"
    ∷ codes "status"
    ∷ codes "optin_time"
    ∷ codes "confirm_time"
    ∷ codes "last_changed"
    ∷ codes "leid"
    ∷ codes "euid"
    ∷ []

unfoldable pub guess_column : Std → ℤ → Text → Column
unfolding attribute_key
guess_column std index h =
    let k = attribute_key std h in
    if contains email_headers k
    then record { index = index; as_what = email; key = [] }
    else (if contains name_headers k
        then record { index = index; as_what = name; key = [] }
        else (if text_eq k (codes "attributes") || text_eq k (codes "attribs")
            then record { index = index; as_what = attributes; key = [] }
            else (if text_eq k [] || contains skip_headers k
                then record { index = index; as_what = skip; key = [] }
                else record { index = index; as_what = attribute; key = k })))

-- [[:^ascii:]] matches the bytes from 128 on, as parts of characters or as stray bytes.
unfoldable pub drop_non_ascii : Text → Text
drop_non_ascii [] = []
drop_non_ascii (c ∷ s) = let rest = drop_non_ascii s in if ltb c 128 then c ∷ rest else rest

unfoldable pub clean_header : Std → Text → Text
unfolding drop_non_ascii
clean_header std h = drop_non_ascii (std.trim_space h)

pub record Attr : Type 0 where
  pub index : ℕ
  pub key : Text

-- columnMap; `none` stands for -1.
pub record ColumnMap : Type 0 where
  pub email : Option ℕ
  pub name : Option ℕ
  pub attribs : Option ℕ
  pub attrs : List Attr
  pub min_cols : ℕ

abbrev pub no_columns : ColumnMap
no_columns = record { email = none; name = none; attribs = none; attrs = []; min_cols = 0 }

abbrev pub widen : ℕ → ColumnMap → ColumnMap
widen i m = record m { min_cols = max m.min_cols (i + 1) }

-- A column without a key is left out.
abbrev pub add_attr : ℕ → Text → ColumnMap → ColumnMap
add_attr i [] m = m
add_attr i (c ∷ k) m =
    widen i (record m { attrs = m.attrs ++ (record { index = i; key = c ∷ k } ∷ []) })

-- The switch of newColumnMap at a column that is not negative.
unfoldable pub place : Std → ℕ → As → Text → ColumnMap → ColumnMap
place std i email key m = widen i (record m { email = some i })
place std i name key m = widen i (record m { name = some i })
place std i attributes key m = widen i (record m { attribs = some i })
place std i attribute key m = add_attr i (attribute_key std key) m
place std i skip key m = m
place std i unknown key m = m

abbrev pub place_at : Std → ℤ → As → Text → ColumnMap → ColumnMap
place_at std (pos i) what key m = place std i what key m
place_at std (negsuc n) what key m = m

-- The loop of newColumnMap.
unfoldable pub map_columns : Std → List Column → ColumnMap → ColumnMap
map_columns std [] m = m
map_columns std (c ∷ cs) m = map_columns std cs (place_at std c.index c.as_what c.key m)

abbrev pub with_email : ColumnMap → Option ColumnMap
with_email m = elim m.email [ none ↦ none | some i ↦ some m ]

-- newColumnMap, with `none` for ErrNoEmailColumn.
unfoldable pub new_column_map : Std → List Column → Option ColumnMap
unfolding map_columns place
new_column_map std cols = with_email (map_columns std cols no_columns)

-- The columns that a header names as imports always have.
abbrev pub legacy_column : ℕ → Text → List Column → List Column
legacy_column i h rest =
    if text_eq h (codes "email")
    then record { index = pos i; as_what = email; key = [] } ∷ rest
    else (if text_eq h (codes "name")
        then record { index = pos i; as_what = name; key = [] } ∷ rest
        else (if text_eq h (codes "attributes")
            then record { index = pos i; as_what = attributes; key = [] } ∷ rest
            else rest))

unfoldable pub legacy_columns : Std → ℕ → List Text → List Column
unfolding clean_header
legacy_columns std i [] = []
legacy_columns std i (h ∷ hdr) =
    legacy_column i (clean_header std h) (legacy_columns std (i + 1) hdr)

-- legacyColumnMap: the error of newColumnMap is dropped.
unfoldable pub legacy_column_map : Std → List Text → ColumnMap
unfolding map_columns place legacy_columns
legacy_column_map std hdr = map_columns std (legacy_columns std 0 hdr) no_columns

-- The map that LoadCSV and Check read a file with: the session's columns, or those of the header.
unfoldable pub choose_column_map : Std → List Column → List Text → Option ColumnMap
unfolding new_column_map legacy_column_map
choose_column_map std [] hdr = with_email (legacy_column_map std hdr)
choose_column_map std (c ∷ cs) hdr = new_column_map std (c ∷ cs)
