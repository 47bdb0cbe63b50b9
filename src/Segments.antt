-- ===== src/Segments.antt =====
-- Segments: internal/segments/segments.go, which turns a segment into the SQL condition of the
-- subscriber query. Text is a list of bytes.
pub mod Reading
pub mod Closed
pub mod Like
pub mod Valid
mod Examples
use listnun.Prelude.{
  ℕ, zero, suc, ◌+◌, ◌-◌, ◌*◌, ◌/◌, ◌%◌, ◌^◌, Bool, true, false, ◌&&◌, ◌||◌, not, Option, none,
  some, List, [], ◌∷◌, ◌++◌, map, if◌then◌else◌, ltb, leb, ◌==◌, length, Text, codes, text_eq, join,
}

pub data Match : Type 0 where
  match_all match_any match_empty : Match
  match_other : (s : Text) → Match

pub data Field : Type 0 where
  attribute email name joined list status unconfirmed last_opened last_clicked : Field
  field_other : (s : Text) → Field

pub data Op : Type 0 where
  is is_not contains exists in_last not_in_last before after never : Op
  op_other : (s : Text) → Op

pub record Condition : Type 0 where
  pub field : Field
  pub op : Op
  pub key : Text
  pub value : Text

pub record Segment : Type 0 where
  pub match : Match
  pub conditions : List Condition

abbrev pub max_days : ℕ
max_days = 3650

abbrev pub max_conditions : ℕ
max_conditions = 20

-- What the code takes from elsewhere: pq.QuoteLiteral, and strings.TrimSpace, which reads Unicode's
-- tables.
pub record Env : Type 0 where
  pub quote : Text → Text
  pub trim_space : Text → Text

-- The errors, all of which wrap ErrInvalid; `condition` carries the position from 1.
pub data Invalid : Type 0 where
  too_many unknown_match no_key not_list not_status unknown_field wrong_op not_date not_days :
      Invalid
  condition : (i : ℕ) → (err : Invalid) → Invalid

pub data Compiled : Type 0 where
  sql : (s : Text) → Compiled
  invalid : (err : Invalid) → Compiled

-- strconv.Atoi: a sign and a magnitude, where an int has 64 bits.
pub record Signed : Type 0 where
  pub negative : Bool
  pub magnitude : ℕ

abbrev pub is_digit : ℕ → Bool
is_digit c = leb 48 c && leb c 57

unfoldable pub read_digits : ℕ → Text → Option ℕ
read_digits acc [] = some acc
read_digits acc (c ∷ s) =
    let rest = read_digits (acc * 10 + (c - 48)) s in if is_digit c then rest else none

abbrev pub in_range : Bool → Option ℕ → Option Signed
in_range neg none = none
in_range true (some n) =
    if leb n (2 ^ 63) then some (record { negative = true; magnitude = n }) else none
in_range false (some n) =
    if ltb n (2 ^ 63) then some (record { negative = false; magnitude = n }) else none

abbrev pub unsigned : Text → Option ℕ
unsigned [] = none
unsigned (c ∷ s) = read_digits 0 (c ∷ s)

unfoldable pub atoi : Text → Option Signed
atoi [] = none
atoi (c ∷ s) =
    if c == 45
    then in_range true (unsigned s)
    else if c == 43
    then in_range false (unsigned s)
    else in_range false (unsigned (c ∷ s))

-- `n < 1`
abbrev pub below_one : Signed → Bool
below_one n = n.negative || n.magnitude == 0

-- %d of a positive int: `fuel` bounds its digits.
unfoldable pub digits_from : ℕ → ℕ → Text → Text
digits_from zero n s = s
digits_from (suc fuel) n s =
    let rest = digits_from fuel (n / 10) ((48 + n % 10) ∷ s) in
    if ltb n 10 then (48 + n % 10) ∷ s else rest

unfoldable pub digits : ℕ → Text
digits n = digits_from 20 n []

abbrev pub one_to : ℕ → Option Signed → Option ℕ
one_to max none = none
one_to max (some n) = if below_one n || ltb max n.magnitude then none else some n.magnitude

unfoldable pub parse_days : Env → Text → Option ℕ
parse_days env v = one_to max_days (atoi (env.trim_space v))

-- time.Parse with time.DateOnly, and the Format that gives the same text back.
abbrev pub two : ℕ → ℕ → ℕ
two a b = (a - 48) * 10 + (b - 48)

abbrev pub is_leap : ℕ → Bool
is_leap y = y % 4 == 0 && (not (y % 100 == 0) || y % 400 == 0)

abbrev pub days_in : ℕ → ℕ → ℕ
days_in y m =
    if m == 2
    then (if is_leap y then 29 else 28)
    else if m == 4 || (m == 6 || (m == 9 || m == 11))
    then 30
    else 31

abbrev pub real_date : ℕ → ℕ → ℕ → Bool
real_date y m d = leb 1 m && (leb m 12 && (leb 1 d && leb d (days_in y m)))

abbrev pub all_digits : Text → Bool
all_digits [] = true
all_digits (c ∷ s) = is_digit c && all_digits s

unfoldable pub parse_date : Text → Option Text
parse_date (a ∷ b ∷ c ∷ d ∷ e ∷ f ∷ g ∷ h ∷ i ∷ j ∷ []) =
    if all_digits (a ∷ b ∷ c ∷ d ∷ f ∷ g ∷ i ∷ j ∷ [])
      && (e == 45 && (h == 45 && real_date (two a b * 100 + two c d) (two f g) (two i j)))
    then some (a ∷ b ∷ c ∷ d ∷ e ∷ f ∷ g ∷ h ∷ i ∷ j ∷ [])
    else none
parse_date v = none

-- The escape of one byte: backslash, percent and underscore get a backslash.
abbrev pub escape_byte : ℕ → Text
escape_byte c = if c == 92 || (c == 37 || c == 95) then 92 ∷ c ∷ [] else c ∷ []

unfoldable pub escape_like : Text → Text
escape_like [] = []
escape_like (c ∷ s) = escape_byte c ++ escape_like s

unfoldable pub text : Env → Text → Condition → Compiled
text env col c = elim c.op [
  | is ↦ sql (col ++ (codes " = " ++ env.quote c.value))
  | is_not ↦ sql (codes "COALESCE(" ++ (col ++ (codes ", '') != " ++ env.quote c.value)))
  | contains ↦
      sql (col ++ (codes " ILIKE " ++ env.quote (codes "%" ++ (escape_like c.value ++ codes "%"))))
  | exists ↦ sql (codes "COALESCE(" ++ (col ++ codes ", '') != ''"))
  | _ ↦ invalid wrong_op
]

abbrev pub since : Text → Text → Option ℕ → Compiled
since col cmp none = invalid not_days
since col cmp (some n) =
    sql
      (col ++ (codes " " ++ (cmp ++ (codes " NOW() - INTERVAL '" ++ (digits n ++ codes " days'")))))

abbrev pub on_date : Text → Text → Option Text → Compiled
on_date col cmp none = invalid not_date
on_date col cmp (some d) =
    sql (col ++ (codes " " ++ (cmp ++ (codes " '" ++ (d ++ codes "'::DATE")))))

unfoldable pub when : Env → Text → Condition → Compiled
when env col c = elim c.op [
  | in_last ↦ since col (codes ">=") (parse_days env c.value)
  | not_in_last ↦ since col (codes "<") (parse_days env c.value)
  | before ↦ on_date col (codes "<") (parse_date c.value)
  | after ↦ on_date col (codes ">=") (parse_date c.value)
  | _ ↦ invalid wrong_op
]

abbrev pub activity_in : Text → Option ℕ → Compiled
activity_in start none = invalid not_days
activity_in start (some n) =
    sql
      (start ++ (codes " AND a.created_at >= NOW() - INTERVAL '" ++ (digits n ++ codes " days')")))

unfoldable pub activity_table : Text → Text
activity_table table =
    codes "EXISTS (SELECT 1 FROM " ++ (table ++ codes " a WHERE a.subscriber_id = subscribers.id")

unfoldable pub activity : Env → Text → Condition → Compiled
activity env table c = elim c.op [
  | never ↦ sql (codes "NOT " ++ (activity_table table ++ codes ")"))
  | in_last ↦ activity_in (activity_table table) (parse_days env c.value)
  | not_in_last ↦ activity_in (codes "NOT " ++ activity_table table) (parse_days env c.value)
  | _ ↦ invalid wrong_op
]

unfoldable pub on_list : ℕ → Text
on_list id =
    codes
      "EXISTS (SELECT 1 FROM subscriber_lists sl WHERE sl.subscriber_id = subscribers.id AND sl.list_id = "
    ++ (digits id ++ codes " AND sl.status != 'unsubscribed')")

abbrev pub list_condition : Op → Option ℕ → Compiled
list_condition o none = invalid not_list
list_condition is (some id) = sql (on_list id)
list_condition is_not (some id) = sql (codes "NOT " ++ on_list id)
list_condition o (some id) = invalid wrong_op

abbrev pub is_status : Text → Bool
is_status v = text_eq v (codes "enabled") || text_eq v (codes "blocklisted")

abbrev pub status_condition : Env → Op → Text → Compiled
status_condition env is v = sql (codes "subscribers.status = " ++ env.quote v)
status_condition env is_not v = sql (codes "subscribers.status != " ++ env.quote v)
status_condition env o v = invalid wrong_op

abbrev pub unconfirmed_condition : Op → Compiled
unconfirmed_condition is = sql (
    codes
      "EXISTS (SELECT 1 FROM subscriber_lists sl JOIN lists l ON l.id = sl.list_id AND l.optin = 'double' "
    ++ codes "WHERE sl.subscriber_id = subscribers.id AND sl.status = 'unconfirmed')")
unconfirmed_condition o = invalid wrong_op

abbrev pub is_nothing : Text → Bool
is_nothing [] = true
is_nothing (c ∷ s) = false

-- An id of any size below 2 ^ 63.
abbrev pub list_id : Text → Option ℕ
list_id v = one_to (2 ^ 63 - 1) (atoi v)

unfoldable pub compile_condition : Env → Condition → Compiled
compile_condition env c = elim c.field [
  | attribute ↦
      if is_nothing (env.trim_space c.key)
      then invalid no_key
      else text env (codes "subscribers.attribs->>" ++ env.quote c.key) c
  | email ↦ text env (codes "subscribers.email") c
  | name ↦ text env (codes "subscribers.name") c
  | joined ↦ when env (codes "subscribers.created_at") c
  | list ↦ list_condition c.op (list_id c.value)
  | status ↦ if is_status c.value then status_condition env c.op c.value else invalid not_status
  | unconfirmed ↦ unconfirmed_condition c.op
  | last_opened ↦ activity env (codes "campaign_views") c
  | last_clicked ↦ activity env (codes "link_clicks") c
  | field_other s ↦ invalid unknown_field
]

abbrev pub join_of : Match → Option Text
join_of match_all = some (codes " AND ")
join_of match_empty = some (codes " AND ")
join_of match_any = some (codes " OR ")
join_of (match_other s) = none

-- The loop over the conditions: their texts, or the first one's error.
pub data Parts : Type 0 where
  parts : (ps : List Text) → Parts
  wrong : (err : Invalid) → Parts

abbrev pub add_part : ℕ → Compiled → Parts → Parts
add_part i (invalid e) rest = wrong (condition i e)
add_part i (sql s) (parts ps) = parts ((codes "(" ++ (s ++ codes ")")) ∷ ps)
add_part i (sql s) (wrong e) = wrong e

unfoldable pub compile_all : Env → ℕ → List Condition → Parts
compile_all env i [] = parts []
compile_all env i (c ∷ cs) = add_part i (compile_condition env c) (compile_all env (i + 1) cs)

abbrev pub join_parts : Text → Parts → Compiled
join_parts sep (wrong e) = invalid e
join_parts sep (parts ps) = sql (codes "(" ++ (join sep ps ++ codes ")"))

abbrev pub with_join : Option Text → Parts → Compiled
with_join none ps = invalid unknown_match
with_join (some sep) ps = join_parts sep ps

unfoldable pub compile : Env → Segment → Compiled
compile env s = elim s.conditions [
  | [] ↦ sql (codes "TRUE")
  | c ∷ cs ↦
      if ltb max_conditions (length (c ∷ cs))
      then invalid too_many
      else with_join (join_of s.match) (compile_all env 1 (c ∷ cs))
]
