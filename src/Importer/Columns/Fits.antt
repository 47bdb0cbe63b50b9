-- ===== src/Importer/Columns/Fits.antt =====
-- newColumnMap: a row with `min_cols` cells holds every mapped column.
use Prim.Native.Nat.{max}
use listnun.Prelude.{
  ℕ, ◌+◌, ◌<◌, ◌≤◌, ◌≡◌, Option, none, some, List, [], ◌∷◌, Text, arith, All, All-append,
  Option-cases, inl, inr,
}
use mathlib.Core.Path.{subst}
use listnun.Importer.Types.{
  ℤ, pos, negsuc, As, email, name, attribute, attributes, skip, unknown, Column, Std,
}
use listnun.Importer.Columns.{
  Attr, ColumnMap, no_columns, widen, add_attr, place, place_at, map_columns, with_email,
  legacy_columns, choose_column_map, attribute_key,
}

abbrev pub Below : Option ℕ → ℕ → Type 0
Below none n = Unit {0}
Below (some i) n = i < n

abbrev pub AttrBelow : ℕ → Attr → Type 0
AttrBelow n a = a.index < n

pub record Fits (m : ColumnMap) : Type 0 where
  pub email_below : Below m.email m.min_cols
  pub name_below : Below m.name m.min_cols
  pub attribs_below : Below m.attribs m.min_cols
  pub attrs_below : All (AttrBelow m.min_cols) m.attrs

Below-mono : (o : Option ℕ) (m n : ℕ) → m ≤ n → Below o m → Below o n
Below-mono none m n h b = tt
Below-mono (some i) m n h b = omega arith

All-AttrBelow-mono : (l : List Attr) (m n : ℕ) → m ≤ n → All (AttrBelow m) l → All (AttrBelow n) l
All-AttrBelow-mono [] m n h b = tt
All-AttrBelow-mono (a ∷ l) m n h b = (omega arith, All-AttrBelow-mono l m n h b.1)

widen-Fits : (i : ℕ) (m : ColumnMap) → Fits m → Fits (widen i m)
widen-Fits i m f =
    let h : m.min_cols ≤ max m.min_cols (i + 1) = omega arith in
    record {
      email_below = Below-mono m.email _ _ h f.email_below;
      name_below = Below-mono m.name _ _ h f.name_below;
      attribs_below = Below-mono m.attribs _ _ h f.attribs_below;
      attrs_below = All-AttrBelow-mono m.attrs _ _ h f.attrs_below;
    }

add_attr-Fits : (i : ℕ) (key : Text) (m : ColumnMap) → Fits m → Fits (add_attr i key m)
add_attr-Fits i [] m f = f
add_attr-Fits i (c ∷ k) m f =
    let g = widen-Fits i m f in
    record {
      email_below = g.email_below;
      name_below = g.name_below;
      attribs_below = g.attribs_below;
      attrs_below =
          All-append (AttrBelow (max m.min_cols (i + 1))) m.attrs _ g.attrs_below (omega arith, tt);
    }

place-Fits :
    (std : Std) (i : ℕ) (what : As) (key : Text) (m : ColumnMap)
    → Fits m
    → Fits (place std i what key m)
unfolding place
place-Fits std i email key m f =
    let g = widen-Fits i m f in
    record {
      email_below = omega arith;
      name_below = g.name_below;
      attribs_below = g.attribs_below;
      attrs_below = g.attrs_below;
    }
place-Fits std i name key m f =
    let g = widen-Fits i m f in
    record {
      email_below = g.email_below;
      name_below = omega arith;
      attribs_below = g.attribs_below;
      attrs_below = g.attrs_below;
    }
place-Fits std i attributes key m f =
    let g = widen-Fits i m f in
    record {
      email_below = g.email_below;
      name_below = g.name_below;
      attribs_below = omega arith;
      attrs_below = g.attrs_below;
    }
place-Fits std i attribute key m f = add_attr-Fits i (attribute_key std key) m f
place-Fits std i skip key m f = f
place-Fits std i unknown key m f = f

place_at-Fits :
    (std : Std) (index : ℤ) (what : As) (key : Text) (m : ColumnMap)
    → Fits m
    → Fits (place_at std index what key m)
place_at-Fits std (pos i) what key m f = place-Fits std i what key m f
place_at-Fits std (negsuc n) what key m f = f

map_columns-Fits :
    (std : Std) (cols : List Column) (m : ColumnMap) → Fits m → Fits (map_columns std cols m)
unfolding map_columns
map_columns-Fits std [] m f = f
map_columns-Fits std (c ∷ cs) m f =
    map_columns-Fits std cs (place_at std c.index c.as_what c.key m)
      (place_at-Fits std c.index c.as_what c.key m f)

no_columns-Fits : Fits no_columns
no_columns-Fits = record { email_below = tt; name_below = tt; attribs_below = tt; attrs_below = tt }

-- A map that reads the email from somewhere.
abbrev pub HasEmail : ColumnMap → Type 0
HasEmail m = (e : ℕ) × (m.email ≡ some e) × (e < m.min_cols)

with_email-Fits : (m n : ColumnMap) → Fits m → with_email m ≡ some n → Fits n × HasEmail n
with_email-Fits m n f e = elim (Option-cases m.email) [
  | inl missing ↦ absurd (ground arith)
  | inr (i, found) ↦
      let same : m ≡ n = ground arith in
      subst (λ k. Fits k × HasEmail k) same (f, (i, found, rw found at f.email_below))
]

-- Every mapped column of the map that a file is read with lies below the number of cells that a row
-- must have, the email column is mapped, and so no cell of a row that passes the length test is
-- out of range.
pub choose_column_map-Fits :
    (std : Std) (cols : List Column) (hdr : List Text) (m : ColumnMap)
    → choose_column_map std cols hdr ≡ some m
    → Fits m × HasEmail m
unfolding choose_column_map
choose_column_map-Fits std [] hdr m e =
    with_email-Fits _ m (map_columns-Fits std (legacy_columns std 0 hdr) no_columns no_columns-Fits)
      e
choose_column_map-Fits std (c ∷ cs) hdr m e =
    with_email-Fits _ m (map_columns-Fits std (c ∷ cs) no_columns no_columns-Fits) e
