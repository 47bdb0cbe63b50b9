-- ===== src/Segments/Closed.antt =====
-- That no value of a segment can leave its place in the SQL of internal/segments/segments.go.
use listnun.Prelude.{
  and_parts, ℕ, suc, ◌+◌, ◌*◌, ◌≡◌, refl, Bool, true, false, ◌&&◌, Option, none, some, List, [],
  ◌∷◌, ◌++◌, arith, All, if◌then◌else◌, ltb, ◌==◌, length, Text, codes, join,
}
use listnun.Segments.{
  Match, match_all, match_any, match_empty, match_other, Field, attribute, email, name, joined,
  list, status, unconfirmed, last_opened, last_clicked, field_other, Op, is, is_not, contains,
  exists, in_last, not_in_last, before, after, never, op_other, Condition, Segment, Env, Compiled,
  sql, invalid, digits, parse_days, parse_date, all_digits, real_date, two, text, since, on_date,
  when, activity_in, activity_table, activity, on_list, list_condition, is_status, status_condition,
  unconfirmed_condition, is_nothing, list_id, compile_condition, join_of, Parts, parts, wrong,
  add_part, compile_all, join_parts, with_join, compile, max_conditions,
}
use listnun.Segments.Reading.{
  read, Closed, Quotes, via, Plain, Neutral, Plain-cons, Plain-nil, digit-Neutral, digits-Plain,
  is_digit-Neutral, out, quoted,
}

-- What a compiled condition must be.
ClosedSql : Compiled → Type 0
ClosedSql (sql s) = Closed s
ClosedSql (invalid e) = Unit

text-Closed :
    (env : Env) (col : Text) (c : Condition) → Quotes env → Closed col → ClosedSql (text env col c)
unfolding text ClosedSql Quotes Closed read
text-Closed env col c q h = go c.op
  where
    go : (o : Op) → ClosedSql (text env col (record c { op = o }))
    go is = λ d. via col _ _ (h d) (q c.value d)
    go is_not = λ d. via col _ _ (h (suc d)) (q c.value d)
    go contains = λ d. via col _ _ (h d) (q _ d)
    go exists = λ d. via col _ _ (h (suc d)) refl
    go in_last = tt
    go not_in_last = tt
    go before = tt
    go after = tt
    go never = tt
    go (op_other s) = tt

since-Closed :
    (col cmp : Text) (o : Option ℕ) → Closed col → Closed cmp → ClosedSql (since col cmp o)
unfolding ClosedSql Closed Plain read
since-Closed col cmp none h k = tt
since-Closed col cmp (some n) h k =
    λ d. via col _ _ (h d) (via cmp _ _ (k d) (via (digits n) _ _ (digits-Plain n (quoted d)) refl))

on_date-Closed :
    (col cmp : Text) (o : Option Text)
    → Closed col
    → Closed cmp
    → ((s : Text) → o ≡ some s → Plain s)
    → ClosedSql (on_date col cmp o)
unfolding ClosedSql Closed Plain read
on_date-Closed col cmp none h k p = tt
on_date-Closed col cmp (some s) h k p =
    λ d. via col _ _ (h d) (via cmp _ _ (k d) (via s _ _ (p s refl (quoted d)) refl))

dash-Neutral : (c : ℕ) → (c == 45) ≡ true → Neutral c
dash-Neutral c h = digit-Neutral c (ground arith) (ground arith)

all_digits-Neutral : (s : Text) → all_digits s ≡ true → All Neutral s
all_digits-Neutral [] h = tt
all_digits-Neutral (c ∷ s) h =
    let p = and_parts _ _ h in (is_digit-Neutral c p.0, all_digits-Neutral s p.1)

Plain-all : (s : Text) → All Neutral s → Plain s
Plain-all [] h = Plain-nil
Plain-all (c ∷ s) h = Plain-cons c s h.0 (Plain-all s h.1)

parse_date-Plain : (v s : Text) → parse_date v ≡ some s → Plain s
unfolding parse_date
parse_date-Plain (a ∷ b ∷ c ∷ d ∷ e ∷ f ∷ g ∷ h ∷ i ∷ j ∷ []) s q = go _ refl q
  where
    date : Text
    date = a ∷ b ∷ c ∷ d ∷ e ∷ f ∷ g ∷ h ∷ i ∷ j ∷ []

    plain :
        (all_digits (a ∷ b ∷ c ∷ d ∷ f ∷ g ∷ i ∷ j ∷ [])
            && (e == 45 && (h == 45 && real_date (two a b * 100 + two c d) (two f g) (two i j))))
          ≡ true
        → Plain date
    plain t =
        let x = and_parts _ _ t in
        let n = all_digits-Neutral (a ∷ b ∷ c ∷ d ∷ f ∷ g ∷ i ∷ j ∷ []) x.0 in
        let y = and_parts _ _ x.1 in
        let z = and_parts _ _ y.1 in
        Plain-all date (
          n.0,
          (
            n.1.0,
            (
              n.1.1.0,
              (
                n.1.1.1.0,
                (
                  dash-Neutral e y.0,
                  (n.1.1.1.1.0, (n.1.1.1.1.1.0, (dash-Neutral h z.0, n.1.1.1.1.1.1))),
                ),
              ),
            ),
          ),
        )

    go :
        (t : Bool)
        → (all_digits (a ∷ b ∷ c ∷ d ∷ f ∷ g ∷ i ∷ j ∷ [])
            && (e == 45 && (h == 45 && real_date (two a b * 100 + two c d) (two f g) (two i j))))
          ≡ t
        → (if t then some date else none) ≡ some s
        → Plain s
    go true t r = let r' : date ≡ s = cc in rw (← r') (plain t)
    go false t r = cc
parse_date-Plain v s q = cc

when-Closed : (env : Env) (col : Text) (c : Condition) → Closed col → ClosedSql (when env col c)
unfolding when ClosedSql Closed read
when-Closed env col c h = go c.op
  where
    go : (o : Op) → ClosedSql (when env col (record c { op = o }))
    go in_last = since-Closed col (codes ">=") (parse_days env c.value) h (λ d. refl)
    go not_in_last = since-Closed col (codes "<") (parse_days env c.value) h (λ d. refl)
    go before =
        on_date-Closed col (codes "<") (parse_date c.value) h (λ d. refl) (parse_date-Plain c.value)
    go after =
        on_date-Closed col (codes ">=") (parse_date c.value) h (λ d. refl)
          (parse_date-Plain c.value)
    go is = tt
    go is_not = tt
    go contains = tt
    go exists = tt
    go never = tt
    go (op_other s) = tt

-- A text that opens one parenthesis.
Opens : Text → Type 0
Opens s = (d : ℕ) → read s (out d) ≡ out (suc d)

activity_in-Closed : (start : Text) (o : Option ℕ) → Opens start → ClosedSql (activity_in start o)
unfolding ClosedSql Closed Plain Opens read
activity_in-Closed start none h = tt
activity_in-Closed start (some n) h =
    λ d. via start _ _ (h d) (via (digits n) _ _ (digits-Plain n (quoted (suc d))) refl)

activity-Closed :
    (env : Env) (table : Text) (c : Condition)
    → Opens (activity_table table)
    → ClosedSql (activity env table c)
unfolding activity ClosedSql Closed Opens read
activity-Closed env table c h = go c.op
  where
    go : (o : Op) → ClosedSql (activity env table (record c { op = o }))
    go never = λ d. via (activity_table table) _ _ (h d) refl
    go in_last = activity_in-Closed (activity_table table) (parse_days env c.value) h
    go not_in_last =
        activity_in-Closed (codes "NOT " ++ activity_table table) (parse_days env c.value)
          (λ d. h d)
    go is = tt
    go is_not = tt
    go contains = tt
    go exists = tt
    go before = tt
    go after = tt
    go (op_other s) = tt

list_condition-Closed : (o : Op) (i : Option ℕ) → ClosedSql (list_condition o i)
unfolding ClosedSql Closed Plain on_list read
list_condition-Closed o none = tt
list_condition-Closed is (some n) = λ d. via (digits n) _ _ (digits-Plain n (out (suc d))) refl
list_condition-Closed is_not (some n) = λ d. via (digits n) _ _ (digits-Plain n (out (suc d))) refl
list_condition-Closed contains (some n) = tt
list_condition-Closed exists (some n) = tt
list_condition-Closed in_last (some n) = tt
list_condition-Closed not_in_last (some n) = tt
list_condition-Closed before (some n) = tt
list_condition-Closed after (some n) = tt
list_condition-Closed never (some n) = tt
list_condition-Closed (op_other s) (some n) = tt

status_condition-Closed :
    (env : Env) (o : Op) (v : Text) → Quotes env → ClosedSql (status_condition env o v)
unfolding ClosedSql Closed Quotes read
status_condition-Closed env is v q = λ d. q v d
status_condition-Closed env is_not v q = λ d. q v d
status_condition-Closed env contains v q = tt
status_condition-Closed env exists v q = tt
status_condition-Closed env in_last v q = tt
status_condition-Closed env not_in_last v q = tt
status_condition-Closed env before v q = tt
status_condition-Closed env after v q = tt
status_condition-Closed env never v q = tt
status_condition-Closed env (op_other s) v q = tt

unconfirmed_condition-Closed : (o : Op) → ClosedSql (unconfirmed_condition o)
unfolding ClosedSql Closed read
unconfirmed_condition-Closed is = λ d. refl
unconfirmed_condition-Closed is_not = tt
unconfirmed_condition-Closed contains = tt
unconfirmed_condition-Closed exists = tt
unconfirmed_condition-Closed in_last = tt
unconfirmed_condition-Closed not_in_last = tt
unconfirmed_condition-Closed before = tt
unconfirmed_condition-Closed after = tt
unconfirmed_condition-Closed never = tt
unconfirmed_condition-Closed (op_other s) = tt

if-ClosedSql :
    (b : Bool) (x y : Compiled) → ClosedSql x → ClosedSql y → ClosedSql (if b then x else y)
if-ClosedSql true x y p q = p
if-ClosedSql false x y p q = q

compile_condition-Closed :
    (env : Env) (c : Condition) → Quotes env → ClosedSql (compile_condition env c)
unfolding compile_condition ClosedSql Closed Quotes Opens activity_table read
compile_condition-Closed env c q = go c.field
  where
    go : (f : Field) → ClosedSql (compile_condition env (record c { field = f }))
    go attribute =
        if-ClosedSql (is_nothing (env.trim_space c.key)) _ _ tt
          (text-Closed env (codes "subscribers.attribs->>" ++ env.quote c.key) _ q (λ d. q c.key d))
    go email = text-Closed env (codes "subscribers.email") _ q (λ d. refl)
    go name = text-Closed env (codes "subscribers.name") _ q (λ d. refl)
    go joined = when-Closed env (codes "subscribers.created_at") _ (λ d. refl)
    go list = list_condition-Closed c.op (list_id c.value)
    go status = if-ClosedSql (is_status c.value) _ _ (status_condition-Closed env c.op c.value q) tt
    go unconfirmed = unconfirmed_condition-Closed c.op
    go last_opened = activity-Closed env (codes "campaign_views") _ (λ d. refl)
    go last_clicked = activity-Closed env (codes "link_clicks") _ (λ d. refl)
    go (field_other s) = tt

-- The parts are closed, each in parentheses of its own.
ClosedParts : Parts → Type 0
ClosedParts (parts ps) = All Closed ps
ClosedParts (wrong e) = Unit

add_part-Closed :
    (i : ℕ) (c : Compiled) (ps : Parts)
    → ClosedSql c
    → ClosedParts ps
    → ClosedParts (add_part i c ps)
unfolding ClosedSql ClosedParts Closed read
add_part-Closed i (invalid e) ps h k = tt
add_part-Closed i (sql s) (wrong e) h k = tt
add_part-Closed i (sql s) (parts ps) h k = ((λ d. via s _ _ (h (suc d)) refl), k)

compile_all-Closed :
    (env : Env) (i : ℕ) (cs : List Condition) → Quotes env → ClosedParts (compile_all env i cs)
unfolding compile_all ClosedParts
compile_all-Closed env i [] q = tt
compile_all-Closed env i (c ∷ cs) q =
    add_part-Closed i (compile_condition env c) (compile_all env (i + 1) cs)
      (compile_condition-Closed env c q) (compile_all-Closed env (i + 1) cs q)

join-Closed : (sep : Text) (ps : List Text) → Closed sep → All Closed ps → Closed (join sep ps)
unfolding Closed join read
join-Closed sep [] h k = λ d. refl
join-Closed sep (p ∷ []) h k = k.0
join-Closed sep (p ∷ q ∷ ps) h k =
    λ d. via p _ _ (k.0 d) (via sep _ _ (h d) (join-Closed sep (q ∷ ps) h k.1 d))

join_parts-Closed :
    (sep : Text) (ps : Parts) → Closed sep → ClosedParts ps → ClosedSql (join_parts sep ps)
unfolding ClosedSql ClosedParts Closed read
join_parts-Closed sep (wrong e) h k = tt
join_parts-Closed sep (parts ps) h k =
    λ d. via (join sep ps) _ _ (join-Closed sep ps h k (suc d)) refl

with_join-Closed : (m : Match) (ps : Parts) → ClosedParts ps → ClosedSql (with_join (join_of m) ps)
unfolding Closed read ClosedSql
with_join-Closed match_all ps h = join_parts-Closed (codes " AND ") ps (λ d. refl) h
with_join-Closed match_empty ps h = join_parts-Closed (codes " AND ") ps (λ d. refl) h
with_join-Closed match_any ps h = join_parts-Closed (codes " OR ") ps (λ d. refl) h
with_join-Closed (match_other s) ps h = tt

compile-ClosedSql : (env : Env) (s : Segment) → Quotes env → ClosedSql (compile env s)
unfolding compile ClosedSql Closed read
compile-ClosedSql env s q = go s.conditions
  where
    go : (cs : List Condition) → ClosedSql (compile env (record s { conditions = cs }))
    go [] = λ d. refl
    go (c ∷ cs) = if-ClosedSql (ltb max_conditions (length (c ∷ cs))) _ _ tt (
        with_join-Closed s.match (compile_all env 1 (c ∷ cs)) (compile_all-Closed env 1 (c ∷ cs) q))

-- Whatever names, values and dates a segment holds, its SQL leaves a reader where it entered: each
-- literal ends, each parenthesis that it opens is closed and no other one is, and the statement does
-- not end in it. What pq.QuoteLiteral returns must be such a text.
pub compile-Closed :
    (env : Env) (segment : Segment) (query : Text) (depth : ℕ)
    → ((v : Text) (d : ℕ) → read (env.quote v) (out d) ≡ out d)
    → compile env segment ≡ sql query
    → read query (out depth) ≡ out depth
unfolding ClosedSql Closed Quotes
compile-Closed env segment query depth q e = (rw e at (compile-ClosedSql env segment q)) depth
