-- ===== src/Importer/Check/Lookups.antt =====
-- Check: which addresses it counts and looks up.
use listnun.Prelude.{
  ℕ, ◌+◌, ◌≤◌, ◌<◌, ◌≡◌, refl, sym, ap, ◌∙◌, false, Option, none, some, List, [], ◌∷◌, ◌++◌, Text,
  arith, ◌==◌, length, length-append, contains, Bool-cases, Option-cases, All, All-append, inl, inr,
}
use mathlib.Core.List.{reverse, reverse-cons, append_assoc, append-nil}
use listnun.Importer.Types.{Column}
use listnun.Importer.Columns.{ColumnMap, choose_column_map}
use listnun.Importer.Rows.{RowResult, accepted, rejected, panics, read_row}
use listnun.Importer.Load.{Record, fields, malformed, unreadable}
use listnun.Importer.Load.Scrub.{concat, concat-snoc}
use listnun.Importer.Check.{
  Checker, CheckEnv, Verdict, fine, error, and_then, count_row, look_up, look_up_batch,
  add_existing, add_valid, check_result, check_record, check_rows, check_header, check,
  existing_batch, no_checks,
}

-- No text stands twice.
abbrev pub Distinct : List Text → Type 0
Distinct [] = Unit {0}
Distinct (t ∷ ts) = (contains ts t ≡ false) × Distinct ts

abbrev pub IsLookup : List Text → Type 0
IsLookup batch = (0 < length batch) × (length batch ≤ existing_batch)

record Inv (c : Checker) : Type 0 where
  order : concat c.looked_up ++ c.batch ≡ reverse c.seen
  distinct : Distinct c.seen
  counted : c.out.valid ≡ length c.seen
  lookups : All IsLookup c.looked_up
  within : c.out.valid + c.out.num_problems ≤ c.out.rows

-- The invariant where the verdict goes on; `room` bounds the batch that it leaves.
abbrev Holds : ℕ → Verdict → Type 0
Holds room (fine c) = Inv c × (length c.batch < room)
Holds room (error c) = Unit {0}

look_up-Holds :
    (env : CheckEnv) (c : Checker)
    → Inv c
    → length c.batch ≤ existing_batch
    → Holds 1 (look_up env c)
unfolding look_up
look_up-Holds env c v h = go c.batch refl h
  where
    asked :
        (e : Text) (batch : List Text)
        → c.batch ≡ e ∷ batch
        → length (e ∷ batch) ≤ existing_batch
        → (o : Option ℕ) → Holds 1 (add_existing o (e ∷ batch) c)
    asked e batch same h none = tt
    asked e batch same h (some n) = (
      record {
        order =
            append-nil (concat (c.looked_up ++ ((e ∷ batch) ∷ [])))
            ∙ concat-snoc c.looked_up (e ∷ batch)
            ∙ (rw same at v.order);
        distinct = v.distinct;
        counted = v.counted;
        lookups = All-append IsLookup c.looked_up _ v.lookups ((omega arith, h), tt);
        within = v.within;
      },
      omega arith,
    )

    go :
        (batch : List Text)
        → c.batch ≡ batch
        → length batch ≤ existing_batch
        → Holds 1 (look_up_batch env batch c)
    go [] same h = (v, rw same (omega arith))
    go (e ∷ batch) same h = asked e batch same h (env.existing (e ∷ batch))

Holds-mono : (v : Verdict) (m n : ℕ) → m ≤ n → Holds m v → Holds n v
Holds-mono (fine c) m n h k = (k.0, omega arith)
Holds-mono (error c) m n h k = tt

add_valid-Holds :
    (env : CheckEnv) (email : Text) (c : Checker)
    → Inv c
    → c.out.valid + c.out.num_problems < c.out.rows
    → length c.batch < existing_batch
    → contains c.seen email ≡ false
    → Holds existing_batch (add_valid env email c)
unfolding add_valid
add_valid-Holds env email c v room h new =
    let c' : Checker = record c {
      out = record (c.out) { valid = c.out.valid + 1 };
      seen = email ∷ c.seen;
      batch = c.batch ++ (email ∷ []);
    } in
    let w : Inv c' = record {
      order =
          sym (append_assoc (concat c.looked_up) c.batch (email ∷ []))
          ∙ ap (λ l. l ++ (email ∷ [])) v.order
          ∙ sym (reverse-cons email c.seen);
      distinct = (new, v.distinct);
      counted = omega (arith, v.counted);
      lookups = v.lookups;
      within = omega arith;
    } in
    let long = length-append c.batch (email ∷ []) in
    elim (Bool-cases (length c'.batch == existing_batch)) [
      | inl e ↦ rw e (
          Holds-mono (look_up env c') 1 existing_batch (omega arith)
            (look_up-Holds env c' w (omega arith)))
      | inr e ↦ rw e (w, ground arith)
    ]

check_result-Holds :
    (env : CheckEnv) (r : RowResult) (c : Checker)
    → Inv c
    → c.out.valid + c.out.num_problems < c.out.rows
    → length c.batch < existing_batch
    → Holds existing_batch (check_result env r c)
unfolding check_result
check_result-Holds env (accepted sub) c v room h = elim (Bool-cases (contains c.seen sub.email)) [
  | inl old ↦ rw old (v, h)
  | inr new ↦ rw new (add_valid-Holds env sub.email c v room h new)
]
check_result-Holds env (rejected p) c v room h = ground arith
check_result-Holds env panics c v room h = tt

counted_row : (c : Checker) → Inv c → Inv (count_row c)
unfolding count_row
counted_row c v = record {
  order = v.order;
  distinct = v.distinct;
  counted = v.counted;
  lookups = v.lookups;
  within = omega (arith, v.within);
}

check_record-Holds :
    (env : CheckEnv) (m : ColumnMap) (line : ℕ) (r : Record) (c : Checker)
    → Holds existing_batch (fine c)
    → Holds existing_batch (check_record env m line r c)
unfolding check_record count_row
check_record-Holds env m line (fields cells) c (v, h) =
    check_result-Holds env (read_row env.std env.rules cells m line) (count_row c) (counted_row c v)
      (omega (arith, v.within)) h
check_record-Holds env m line malformed c (v, h) = ground arith
check_record-Holds env m line unreadable c (v, h) = tt

check_rows-Holds :
    (env : CheckEnv) (m : ColumnMap) (line : ℕ) (rows : List Record) (c : Checker)
    → Holds existing_batch (fine c)
    → Holds 1 (check_rows env m line rows c)
unfolding check_rows
check_rows-Holds env m line [] c (v, h) = look_up-Holds env c v (omega arith)
check_rows-Holds env m line (r ∷ rest) c k =
    go (check_record env m line r c) (check_record-Holds env m line r c k)
      (check_rows-Holds env m (line + 1) rest)
  where
    more : Checker → Verdict
    more = check_rows env m (line + 1) rest

    go :
        (v : Verdict)
        → Holds existing_batch v
        → ((c' : Checker) → Holds existing_batch (fine c') → Holds 1 (more c'))
        → Holds 1 (and_then v more)
    go (fine c') k ih = ih c' k
    go (error c') k ih = tt

-- What a check that ends without an error has done.
pub record Complete (c : Checker) : Type 0 where
  pub asked_all : concat c.looked_up ≡ reverse c.seen
  pub distinct : Distinct c.seen
  pub counted : c.out.valid ≡ length c.seen
  pub lookups : All IsLookup c.looked_up
  pub within : c.out.valid + c.out.num_problems ≤ c.out.rows

nil_of_length : (l : List Text) → length l < 1 → l ≡ []
nil_of_length [] h = refl
nil_of_length (x ∷ l) h = absurd (omega arith)

Complete-of_Holds : (c : Checker) → Holds 1 (fine c) → Complete c
Complete-of_Holds c (v, h) = record {
  asked_all =
      sym (append-nil (concat c.looked_up))
      ∙ ap (λ l. concat c.looked_up ++ l) (sym (nil_of_length c.batch h))
      ∙ v.order;
  distinct = v.distinct;
  counted = v.counted;
  lookups = v.lookups;
  within = v.within;
}

no_checks-Holds : Holds existing_batch (fine no_checks)
no_checks-Holds = (
  record { order = refl; distinct = tt; counted = refl; lookups = tt; within = omega arith },
  omega arith,
)

check-Holds :
    (env : CheckEnv) (cols : List Column) (file : Option (List Record))
    → Holds 1 (check env cols file)
unfolding check
check-Holds env cols none = tt
check-Holds env cols (some []) = tt
check-Holds env cols (some (malformed ∷ rest)) = tt
check-Holds env cols (some (unreadable ∷ rest)) = tt
check-Holds env cols (some (fields hdr ∷ rest)) =
    elim (Option-cases (choose_column_map env.std cols hdr)) [
      | inl e ↦ rw (e, check_header) tt
      | inr (m, e) ↦ rw (e, check_header) (check_rows-Holds env m 1 rest no_checks no_checks-Holds)
    ]

-- A check that ends without an error has seen different addresses only and counts these as valid,
-- has asked about each of them once and in the order of the file, in batches of at least one and
-- at most 5000 addresses, and has as many rows at least as valid addresses and problems.
check-Complete :
    (env : CheckEnv) (cols : List Column) (file : Option (List Record)) (c : Checker)
    → check env cols file ≡ fine c
    → Complete c
check-Complete env cols file c e = Complete-of_Holds c (rw e at (check-Holds env cols file))
