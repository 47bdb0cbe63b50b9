-- ===== src/Segments/Valid.antt =====
-- Which segments internal/segments/segments.go accepts.
use listnun.Prelude.{
  ℕ, suc, ◌+◌, ◌≡◌, refl, ap, ◌∙◌, Bool, true, false, ◌&&◌, ◌||◌, not, Option, none, some, List, [],
  ◌∷◌, ◌++◌, arith, if◌then◌else◌, ltb, leb, length, Text, codes,
}
use listnun.Segments.{
  Match, match_other, Field, attribute, email, name, joined, list, status, unconfirmed, last_opened,
  last_clicked, field_other, Op, is, is_not, contains, exists, in_last, not_in_last, before, after,
  never, Condition, Segment, Env, Compiled, sql, invalid, parse_days, parse_date, activity_table,
  text, since, on_date, when, activity_in, activity, list_condition, is_status, status_condition,
  unconfirmed_condition, is_nothing, list_id, compile_condition, join_of, Parts, parts, wrong,
  add_part, compile_all, with_join, compile, max_conditions,
}

abbrev pub is_sql : Compiled → Bool
is_sql (sql s) = true
is_sql (invalid e) = false

abbrev pub is_some : Option Text → Bool
is_some none = false
is_some (some s) = true

abbrev pub has_days : Option ℕ → Bool
has_days none = false
has_days (some n) = true

-- The operators of each kind of field.
abbrev pub text_op : Op → Bool
text_op is = true
text_op is_not = true
text_op contains = true
text_op exists = true
text_op o = false

abbrev pub equality_op : Op → Bool
equality_op is = true
equality_op is_not = true
equality_op o = false

abbrev pub is_op : Op → Bool
is_op is = true
is_op o = false

-- What a time needs: a number of days from 1 to 3650 or a date.
abbrev pub time_op : Bool → Bool → Op → Bool
time_op days date in_last = days
time_op days date not_in_last = days
time_op days date before = date
time_op days date after = date
time_op days date o = false

abbrev pub activity_op : Bool → Op → Bool
activity_op days in_last = days
activity_op days not_in_last = days
activity_op days never = true
activity_op days o = false

-- The conditions that the documentation allows, field by field.
abbrev pub allows : Env → Field → Condition → Bool
allows env attribute c = not (is_nothing (env.trim_space c.key)) && text_op c.op
allows env email c = text_op c.op
allows env name c = text_op c.op
allows env joined c =
    time_op (has_days (parse_days env c.value)) (is_some (parse_date c.value)) c.op
allows env list c = has_days (list_id c.value) && equality_op c.op
allows env status c = is_status c.value && equality_op c.op
allows env unconfirmed c = is_op c.op
allows env last_opened c = activity_op (has_days (parse_days env c.value)) c.op
allows env last_clicked c = activity_op (has_days (parse_days env c.value)) c.op
allows env (field_other s) c = false

text-is_sql : (env : Env) (col : Text) (c : Condition) → is_sql (text env col c) ≡ text_op c.op
unfolding text
text-is_sql env col c = go c.op
  where
    go : (o : Op) → is_sql (text env col (record c { op = o })) ≡ text_op o
    go o = ground arith

since-is_sql : (col cmp : Text) (o : Option ℕ) → is_sql (since col cmp o) ≡ has_days o
since-is_sql col cmp none = refl
since-is_sql col cmp (some n) = refl

on_date-is_sql : (col cmp : Text) (o : Option Text) → is_sql (on_date col cmp o) ≡ is_some o
on_date-is_sql col cmp none = refl
on_date-is_sql col cmp (some d) = refl

when-is_sql :
    (env : Env) (col : Text) (c : Condition)
    → is_sql (when env col c)
      ≡ time_op (has_days (parse_days env c.value)) (is_some (parse_date c.value)) c.op
unfolding when
when-is_sql env col c = go c.op
  where
    go :
        (o : Op)
        → is_sql (when env col (record c { op = o }))
          ≡ time_op (has_days (parse_days env c.value)) (is_some (parse_date c.value)) o
    go in_last = since-is_sql col (codes ">=") (parse_days env c.value)
    go not_in_last = since-is_sql col (codes "<") (parse_days env c.value)
    go before = on_date-is_sql col (codes "<") (parse_date c.value)
    go after = on_date-is_sql col (codes ">=") (parse_date c.value)
    go o = refl

activity_in-is_sql : (start : Text) (o : Option ℕ) → is_sql (activity_in start o) ≡ has_days o
activity_in-is_sql start none = refl
activity_in-is_sql start (some n) = refl

activity-is_sql :
    (env : Env) (table : Text) (c : Condition)
    → is_sql (activity env table c) ≡ activity_op (has_days (parse_days env c.value)) c.op
unfolding activity
activity-is_sql env table c = go c.op
  where
    go :
        (o : Op)
        → is_sql (activity env table (record c { op = o }))
          ≡ activity_op (has_days (parse_days env c.value)) o
    go in_last = activity_in-is_sql (activity_table table) (parse_days env c.value)
    go not_in_last =
        activity_in-is_sql (codes "NOT " ++ activity_table table) (parse_days env c.value)
    go o = refl

list_condition-is_sql :
    (o : Op) (i : Option ℕ) → is_sql (list_condition o i) ≡ (has_days i && equality_op o)
list_condition-is_sql o none = refl
list_condition-is_sql o (some n) = ground arith

status_condition-is_sql :
    (env : Env) (o : Op) (v : Text) → is_sql (status_condition env o v) ≡ equality_op o
status_condition-is_sql env o v = ground arith

unconfirmed-is_sql : (o : Op) → is_sql (unconfirmed_condition o) ≡ is_op o
unconfirmed-is_sql o = ground arith

if-is_sql :
    (b : Bool) (x : Compiled) (e : Compiled)
    → is_sql e ≡ false
    → is_sql (if b then x else e) ≡ (b && is_sql x)
if-is_sql true x e h = refl
if-is_sql false x e h = h

unless-is_sql :
    (b : Bool) (x : Compiled) (e : Compiled)
    → is_sql e ≡ false
    → is_sql (if b then e else x) ≡ (not b && is_sql x)
unless-is_sql true x e h = h
unless-is_sql false x e h = refl

compile_condition-is_sql :
    (env : Env) (c : Condition) → is_sql (compile_condition env c) ≡ allows env c.field c
unfolding compile_condition
compile_condition-is_sql env c = go c.field
  where
    go : (f : Field) → is_sql (compile_condition env (record c { field = f })) ≡ allows env f c
    go attribute =
        unless-is_sql (is_nothing (env.trim_space c.key)) _ _ refl
        ∙ ap (λ b. not (is_nothing (env.trim_space c.key)) && b) (text-is_sql env _ _)
    go email = text-is_sql env _ _
    go name = text-is_sql env _ _
    go joined = when-is_sql env _ _
    go list = list_condition-is_sql c.op (list_id c.value)
    go status =
        if-is_sql (is_status c.value) _ _ refl
        ∙ ap (λ b. is_status c.value && b) (status_condition-is_sql env c.op c.value)
    go unconfirmed = unconfirmed-is_sql c.op
    go last_opened = activity-is_sql env _ _
    go last_clicked = activity-is_sql env _ _
    go (field_other s) = refl

abbrev pub all_allowed : Env → List Condition → Bool
all_allowed env [] = true
all_allowed env (c ∷ cs) = allows env c.field c && all_allowed env cs

abbrev is_parts : Parts → Bool
is_parts (parts ps) = true
is_parts (wrong e) = false

add_part-is_parts :
    (i : ℕ) (x : Compiled) (ps : Parts) → is_parts (add_part i x ps) ≡ (is_sql x && is_parts ps)
add_part-is_parts i (invalid e) ps = refl
add_part-is_parts i (sql s) (parts ps) = refl
add_part-is_parts i (sql s) (wrong e) = refl

compile_all-is_parts :
    (env : Env) (i : ℕ) (cs : List Condition) → is_parts (compile_all env i cs) ≡ all_allowed env cs
unfolding compile_all
compile_all-is_parts env i [] = refl
compile_all-is_parts env i (c ∷ cs) =
    rw
      (
        add_part-is_parts i (compile_condition env c) (compile_all env (i + 1) cs),
        compile_condition-is_sql env c,
        compile_all-is_parts env (i + 1) cs,
      )
      refl

-- The ways of matching that exist; none stands for all.
abbrev pub known_match : Match → Bool
known_match (match_other s) = false
known_match m = true

with_join-is_sql :
    (m : Match) (ps : Parts) → is_sql (with_join (join_of m) ps) ≡ (known_match m && is_parts ps)
with_join-is_sql m ps = ground arith

sizes : (n : ℕ) (x : Bool) → (not (ltb 20 (suc n)) && x) ≡ (leb (suc n) 0 || (leb (suc n) 20 && x))
sizes n x = ground arith

-- A segment compiles exactly when it has no conditions, or at most twenty, each of which its field
-- allows, and a known way to match them.
pub compile_iff :
    (env : Env) (s : Segment)
    → is_sql (compile env s) ≡ (
        leb (length s.conditions) 0
        || (leb (length s.conditions) 20 && (known_match s.match && all_allowed env s.conditions)))
unfolding compile
compile_iff env s = go s.conditions
  where
    go :
        (cs : List Condition)
        → is_sql (compile env (record s { conditions = cs })) ≡ (
            leb (length cs) 0
            || (leb (length cs) 20 && (known_match s.match && all_allowed env cs)))
    go [] = refl
    go (c ∷ cs) =
        unless-is_sql (ltb max_conditions (length (c ∷ cs)))
          (with_join (join_of s.match) (compile_all env 1 (c ∷ cs))) _ refl
        ∙ rw
            (
              with_join-is_sql s.match (compile_all env 1 (c ∷ cs)),
              compile_all-is_parts env 1 (c ∷ cs),
            )
            (sizes (length cs) (known_match s.match && all_allowed env (c ∷ cs)))
