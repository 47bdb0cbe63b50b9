-- ===== src/Importer/Session/Rules.antt =====
-- Rules to reason about Session.Start with: the cases of one row, and the invariant of the loop.
use listnun.Prelude.{
  ◌≡◌, ◌≢◌, refl, Bool, false, none, some, List, [], ◌∷◌, arith, ◌==◌, ◌⊎◌, inl, inr, Bool-cases,
  Option-cases, ==_iff,
}
use listnun.Importer.Status.{increment_failed}
use listnun.Importer.Session.{
  SubReq, SessionOpt, open_tx, done, RowAnswers, Loop, Turn, next, stop, on_status, inserted_row,
  insert_row, process_row, process_queue, proceed,
}

-- The transaction of a row's statements: a new one for the first row of a batch.
abbrev pub Begun : Loop → Loop → Type 0
Begun s s' = ((s.cur ≡ 0) × (s' ≡ record s { tx = open_tx [] })) ⊎ (s.cur ≢ 0) × (s' ≡ s)

pub insert_row_cases {ℓ} :
    (P : Turn → Type ℓ) (opt : SessionOpt) (sub : SubReq) (a : RowAnswers) (s : Loop)
    → (a.uuid_ok ≡ false → P (stop (record s { tx = done })))
    → (a.exec ≡ none
        → P (stop (record s { tx = done; world = on_status (increment_failed 1) s.world })))
    → ((ins : Bool) → a.exec ≡ some ins → P (next (inserted_row opt sub ins a.commit_ok s)))
    → P (insert_row opt sub a s)
unfolding insert_row
insert_row_cases P opt sub a s no_uuid refused went = elim (Bool-cases a.uuid_ok) [
  | inl u ↦ elim (Option-cases a.exec) [
    | inl e ↦ rw (u, e, insert_row) (refused e)
    | inr (ins, e) ↦ rw (u, e, insert_row) (went ins e)
  ]
  | inr u ↦ rw (u, insert_row) (no_uuid u)
]

pub process_row_cases {ℓ} :
    (P : Turn → Type ℓ) (opt : SessionOpt) (sub : SubReq) (a : RowAnswers) (s : Loop)
    → (s.cur ≡ 0 → a.begin_ok ≡ false → P (next s))
    → ((s' : Loop) → Begun s s' → P (insert_row opt sub a s'))
    → P (process_row opt sub a s)
unfolding process_row
process_row_cases P opt sub a s skip go = elim (Bool-cases (s.cur == 0)) [
  | inl z ↦ elim (Bool-cases a.begin_ok) [
    | inl b ↦ rw (z, b) (go (record s { tx = open_tx [] }) (inl ((==_iff _ _).0 z, refl)))
    | inr b ↦ rw (z, b) (skip ((==_iff _ _).0 z) b)
  ]
  | inr z ↦ rw z (go s (inr (ground arith, refl)))
]

-- What a turn must establish: the invariant, or at a break the result.
abbrev pub Kept {κ} :
    (P R : Loop → List (SubReq × RowAnswers) → Type κ) → List (SubReq × RowAnswers) → Turn → Type κ
Kept P R rest (next s) = P s rest
Kept P R rest (stop s) = R s rest

pub process_queue_rule {κ} :
    (P R : Loop → List (SubReq × RowAnswers) → Type κ) (opt : SessionOpt)
    → ((sub : SubReq) (a : RowAnswers) (rest : List (SubReq × RowAnswers)) (s : Loop)
        → P s ((sub, a) ∷ rest)
        → Kept P R rest (process_row opt sub a s))
    → ((s : Loop) → P s [] → R s [])
    → (queue : List (SubReq × RowAnswers)) (s : Loop) → P s queue
    → R (process_queue opt queue s).0 (process_queue opt queue s).1
unfolding process_queue
process_queue_rule P R opt step end [] s p = end s p
process_queue_rule P R opt step end ((sub, a) ∷ rest) s p =
    go (process_row opt sub a s) (step sub a rest s p) (process_queue_rule P R opt step end rest)
  where
    go :
        (t : Turn)
        → Kept P R rest t
        → ((s' : Loop) → P s' rest → R (process_queue opt rest s').0 (process_queue opt rest s').1)
        → R (proceed t rest (process_queue opt rest)).0 (proceed t rest (process_queue opt rest)).1
    go (next s') k ih = ih s' k
    go (stop s') k ih = k
