-- ===== src/Segments/Examples.antt =====
-- Tests and worked cases of the segments.
use listnun.Prelude.{
  ℕ, ◌≡◌, refl, ◌∙◌, ap, ◌&&◌, ◌||◌, none, some, [], ◌∷◌, ◌++◌, map, if◌then◌else◌, leb, ◌==◌, Text,
  codes, has_substring, length, join, Bool-cases, inl, inr,
}
use listnun.Segments.{
  Condition, name, match_any, attribute, joined, in_last, contains, Segment, Env, sql, digits,
  digits_from, parse_days, parse_date, atoi, read_digits, text, when, escape_like,
  compile_condition, compile_all, compile,
}
use listnun.Segments.Reading.{read, out, quoted, read-append}
use listnun.Segments.Closed.{compile-Closed}
use listnun.Segments.Like.{ilike, compile_condition-contains}
use listnun.Segments.Valid.{is_sql, known_match, all_allowed, compile_iff}

-- A quoted literal whose quotes are doubled.
double_quotes : Text → Text
double_quotes [] = []
double_quotes (c ∷ s) = if c == 39 then 39 ∷ 39 ∷ double_quotes s else c ∷ double_quotes s

abbrev quote_literal : Text → Text
quote_literal v = 39 ∷ (double_quotes v ++ (39 ∷ []))

abbrev env : Env
env = record { quote = quote_literal; trim_space = λ s. s }

double_quotes-read : (v : Text) (d : ℕ) → read (double_quotes v) (quoted d) ≡ quoted d
unfolding double_quotes read
double_quotes-read [] d = refl
double_quotes-read (c ∷ v) d = elim (Bool-cases (c == 39)) [
  | inl e ↦ rw e (double_quotes-read v d)
  | inr e ↦
      let plain : read (c ∷ double_quotes v) (quoted d) ≡ quoted d =
        rw (e, read) (double_quotes-read v d) in
      rw e plain
]

quote_literal-read : (v : Text) (d : ℕ) → read (quote_literal v) (out d) ≡ out d
unfolding read
quote_literal-read v d =
    read-append (double_quotes v) (39 ∷ []) (quoted d)
    ∙ ap (read (39 ∷ [])) (double_quotes-read v d)

-- A value that tries to leave its literal.
abbrev tricky : Segment
tricky = record {
  match = match_any;
  conditions =
      record {
        field = attribute;
        op = contains;
        key = codes "city";
        value = codes "x') OR (1=1; --";
      }
      ∷ record { field = joined; op = in_last; key = []; value = codes "+90" }
      ∷ [];
}

abbrev tricky_sql : Text
tricky_sql =
    codes
      "((subscribers.attribs->>'city' ILIKE '%x'') OR (1=1; --%') OR (subscribers.created_at >= NOW() - INTERVAL '90 days'))"

tricky_compiles : compile env tricky ≡ sql tricky_sql
unfolding compile compile_all compile_condition text when parse_days atoi read_digits digits
    digits_from escape_like double_quotes join
tricky_compiles = refl

compile-Closed_example : read tricky_sql (out 3) ≡ out 3
compile-Closed_example = compile-Closed env tricky tricky_sql 3 quote_literal-read tricky_compiles

leap_day : parse_date (codes "2024-02-29") ≡ some (codes "2024-02-29")
unfolding parse_date
leap_day = refl

no_leap_day : parse_date (codes "2100-02-29") ≡ none
unfolding parse_date
no_leap_day = refl

compile_iff_example : is_sql (compile env tricky) ≡ (
    leb (length tricky.conditions) 0
    || (leb (length tricky.conditions) 20
        && (known_match tricky.match && all_allowed env tricky.conditions)))
compile_iff_example = compile_iff env tricky

abbrev half_price : Condition
half_price = record { field = name; op = contains; key = []; value = codes "50%" }

compile_condition-contains_example :
    (pattern : Text) × (compile_condition env half_price
      ≡ sql (codes "subscribers.name" ++ (codes " ILIKE " ++ env.quote pattern)))
    × ((fold : ℕ → ℕ) (s : Text)
        → ilike fold s pattern ≡ has_substring (map fold s) (map fold (codes "50%")))
compile_condition-contains_example =
    compile_condition-contains env half_price (codes "subscribers.name") refl refl
