-- ===== src/Importer/Rows/Accepted.antt =====
-- readRow: what an accepted row has passed.
use listnun.Prelude.{
  ℕ, ◌≤◌, ◌≡◌, refl, false, some, List, [], Text, arith, length, get_elem?, Option-cases, inl, inr,
}
use listnun.Importer.Types.{Std, SubReq}
use listnun.Importer.Domains.{Rules, Result, ok, err, sanitize_email}
use listnun.Importer.Columns.{ColumnMap}
use listnun.Importer.Rows.{
  accepted, cell, read_fields, read_row, is_blank, validate_fields, max_email,
}

-- The address in the cell `raw` has passed the length test, the blank test, the parser and the
-- domain rules, which gave `addr`.
pub record Passed (std : Std) (rules : Rules) (raw addr : Text) (sub : SubReq) : Type 0 where
  pub not_blank : is_blank std raw ≡ false
  pub not_long : length raw ≤ max_email
  pub clean : sanitize_email std rules raw ≡ ok addr
  pub lowered : sub.email ≡ std.to_lower addr

validate_fields-Passed :
    (std : Std) (rules : Rules) (s sub : SubReq)
    → validate_fields std rules s ≡ ok sub
    → (addr : Text) × (length s.email ≤ max_email)
      × (sanitize_email std rules s.email ≡ ok addr)
      × (sub.email ≡ std.to_lower addr)
unfolding validate_fields
validate_fields-Passed std rules s sub e = go (sanitize_email std rules s.email) refl
  where
    go :
        (r : Result Text)
        → sanitize_email std rules s.email ≡ r
        → (addr : Text) × (length s.email ≤ max_email)
          × (sanitize_email std rules s.email ≡ ok addr)
          × (sub.email ≡ std.to_lower addr)
    go (ok addr) h = (addr, ground arith, h, ground arith)
    go (err x) h = absurd (ground arith)

read_fields-Passed :
    (std : Std) (rules : Rules) (row : List Text) (m : ColumnMap) (line : ℕ) (email name : Text)
    (sub : SubReq)
    → read_fields std rules row m line email name ≡ accepted sub
    → (addr : Text) × Passed std rules email addr sub
unfolding read_fields
read_fields-Passed std rules row m line email name sub e =
    go (validate_fields std rules (record { email = email; name = name; attribs = [] })) refl
  where
    go :
        (r : Result SubReq)
        → validate_fields std rules (record { email = email; name = name; attribs = [] }) ≡ r
        → (addr : Text) × Passed std rules email addr sub
    go (ok s) h =
        let (addr, short, clean, lower) = validate_fields-Passed std rules _ s h in
        (
          addr,
          record {
            not_blank = ground arith;
            not_long = short;
            clean = clean;
            lowered = ground arith;
          },
        )
    go (err x) h = absurd (ground arith)

-- An accepted row holds an address in the email column that is not blank, is at most 1000 bytes
-- long and passes SanitizeEmail under the importer's domain rules; the subscriber's email is the
-- sanitized address in lower case.
read_row-Passed :
    (std : Std) (rules : Rules) (row : List Text) (m : ColumnMap) (line : ℕ) (sub : SubReq)
    → read_row std rules row m line ≡ accepted sub
    → (i : ℕ) × (raw : Text) × (addr : Text) × (m.email ≡ some i)
      × (get_elem? row i ≡ some raw)
      × Passed std rules raw addr sub
unfolding read_row
read_row-Passed std rules row m line sub e = elim (Option-cases m.email) [
  | inl n ↦ absurd (ground arith)
  | inr (i, mapped) ↦ elim (Option-cases (get_elem? row i)) [
    | inl n ↦ absurd (ground arith)
    | inr (raw, got) ↦ elim (Option-cases (cell row m.name)) [
      | inl n ↦ absurd (ground arith)
      | inr (name, named) ↦
          let (addr, p) = read_fields-Passed std rules row m line raw name sub (ground arith) in
          (i, raw, addr, mapped, got, p)
    ]
  ]
]
