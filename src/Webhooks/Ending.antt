-- ===== src/Webhooks/Ending.antt =====
-- All deliveries finish: the passes of the ticker in Run of internal/webhooks/webhooks.go.
use listnun.Prelude.{
  ℕ, zero, suc, ◌+◌, ◌-◌, ◌*◌, ◌≤◌, ◌<◌, ◌≡◌, refl, ◌⊎◌, inl, inr, Bool, true, false, List, [], ◌∷◌,
  arith, All, if◌then◌else◌, Bool-cases, length, All-map, ltb, ltb→lt, map,
}
use listnun.Webhooks.{Delivery, unfinished, is_in, select_due, jobs_in, claim_batch}
use listnun.Webhooks.Rows.{Consistent, unfinished-attempts-lt}
use listnun.Webhooks.Worker.{Pass, run_once}
use listnun.Webhooks.Passes.{serve, run_once-serve}
use listnun.Webhooks.Totals.{
  run_passes, total_left, Sound, Runs, run_once-Sound, run_once-jobs, run_once-total_left,
  run_passes-total_left, total_left-le,
}
use listnun.Webhooks.Finishing.{Before, Prompt, serve-Before, run_once-sends}

-- Passes of a ticker from the time `c` on: each starts at most `gap` seconds after the one before.
abbrev pub Ticking : ℕ → ℕ → List Pass → Type 0
Ticking gap c [] = Unit
Ticking gap c (p ∷ ps) = (p.now ≤ c + gap) × Prompt p × Ticking gap p.now ps

-- When the last pass starts.
abbrev pub last_pass : ℕ → List Pass → ℕ
last_pass c [] = c
last_pass c (p ∷ ps) = last_pass p.now ps

-- Rows that a pass does not select keep their times.
idle-Before :
    (p : Pass) (table : List Delivery) (t : ℕ) (ds : List Delivery)
    → length (jobs_in (select_due claim_batch p.now table) ds) ≡ 0
    → All (Before t) ds
    → All (Before t) (map (serve p table) ds)
unfolding jobs_in serve
idle-Before p table t [] h b = tt
idle-Before p table t (d ∷ ds) h (b, bs) =
    elim (Bool-cases (is_in d.id (select_due claim_batch p.now table))) [
      | inl e ↦ absurd (omega (arith, rw e at h))
      | inr e ↦ rw e (b, idle-Before p table t ds (rw e at h) bs)
    ]

run_once-idle :
    (t : ℕ) (p : Pass) (table : List Delivery)
    → Runs p
    → Sound table
    → length (run_once p table).0 ≡ 0
    → All (Before t) table
    → All (Before t) (run_once p table).1
run_once-idle t p table (claims, saved) (u, c) h b =
    rw (run_once-serve p table u claims saved)
      (idle-Before p table t table (rw (run_once-jobs p table claims) at h) b)

run_once-Before :
    (t u : ℕ) (p : Pass) (table : List Delivery)
    → t ≤ u
    → p.now + 22100 ≤ u
    → Prompt p
    → Runs p
    → Sound table
    → All (Before t) table
    → All (Before u) (run_once p table).1
run_once-Before t u p table late after prompt (claims, saved) (q, c) b =
    rw (run_once-serve p table q claims saved) (
      All-map (Before t) (Before u) (serve p table)
        (λ d r. serve-Before p table t u d late after prompt r) table b)

-- The seconds that `n` attempts may take, each `k`.
budget : ℕ → ℕ → ℕ
budget k zero = 0
budget k (suc n) = k + budget k n

budget-le : (k n m : ℕ) → n ≤ m → budget k n ≤ budget k m
unfolding budget
budget-le k zero m h = omega arith
budget-le k (suc n) zero h = absurd (omega arith)
budget-le k (suc n) (suc m) h = omega (arith, budget-le k n m (omega arith))

budget_lem : (k n : ℕ) → budget k n ≡ n * k
unfolding budget
budget_lem k zero = omega arith
budget_lem k (suc n) = omega (arith, budget_lem k n)

lt_or_le : (m n : ℕ) → (m < n) ⊎ (n ≤ m)
lt_or_le m n = elim (Bool-cases (ltb m n)) [
  | inl e ↦ inl (ltb→lt m n e)
  | inr e ↦ inr (ground arith)
]

-- Nothing is left to try, or the last pass still lies within what the attempts left may take.
Within : ℕ → ℕ → ℕ → List Pass → List Delivery → Type 0
Within gap t c ps table =
    (total_left (run_passes ps table).1 ≡ 0)
    ⊎ (last_pass c ps ≤ t + budget (gap + 22100) (total_left table))

run_passes-Within :
    (gap t c : ℕ) (ps : List Pass) (table : List Delivery)
    → All Runs ps
    → Ticking gap c ps
    → c ≤ t
    → Sound table
    → All (Before t) table
    → Within gap t c ps table
unfolding Within run_passes budget
run_passes-Within gap t c [] table r k h s b = inr (omega arith)
run_passes-Within gap t c (p ∷ ps) table (r, rs) (soon, prompt, k) h s b =
    let next : List Delivery = (run_once p table).1 in
    let sound = run_once-Sound p table r s in
    let left = run_once-total_left p table r s in
    go (length (run_once p table).0) refl
      (run_passes-Within gap (t + (gap + 22100)) p.now ps next rs k (omega arith) sound
        (run_once-Before t (t + (gap + 22100)) p table (omega arith) (omega arith) prompt r s b))
      (λ idle early.
        run_passes-Within gap t p.now ps next rs k early sound (run_once-idle t p table r s idle b))
  where
    next_left : ℕ
    next_left = total_left (run_once p table).1

    all_tried : t < p.now → length (run_once p table).0 ≡ 0 → total_left table ≡ 0
    all_tried late idle = elim (run_once-sends t p table late r s b) [
      | inl e ↦ e
      | inr n ↦ absurd (omega arith)
    ]

    go :
        (jobs : ℕ)
        → length (run_once p table).0 ≡ jobs
        → Within gap (t + (gap + 22100)) p.now ps (run_once p table).1
        → (length (run_once p table).0 ≡ 0 → p.now ≤ t → Within gap t p.now ps (run_once p table).1)
        → Within gap t c (p ∷ ps) table
    go (suc jobs) e (inl done) idle = inl done
    go (suc jobs) e (inr w) idle = inr (
        omega (
          arith,
          w,
          e,
          run_once-total_left p table r s,
          budget-le (gap + 22100) (suc next_left) (total_left table)
              (omega (arith, e, run_once-total_left p table r s)),
        ))
    go zero e w idle = elim (lt_or_le t p.now) [
      | inl late ↦ inl (
          omega (
            arith,
            all_tried late e,
            run_once-total_left p table r s,
            run_passes-total_left ps (run_once p table).1 rs (run_once-Sound p table r s),
          ))
      | inr early ↦ elim (idle e early) [
        | inl done ↦ inl done
        | inr v ↦ inr (
            omega (
              arith,
              v,
              budget-le (gap + 22100) next_left (total_left table)
                  (omega (arith, run_once-total_left p table r s)),
            ))
      ]
    ]

abbrev pub Finished : Delivery → Type 0
Finished d = (unfinished d.status ≡ false)

none_left : (ds : List Delivery) → All Consistent ds → total_left ds ≡ 0 → All Finished ds
none_left [] c h = tt
none_left (d ∷ ds) (c, cs) h = (
  idle (unfinished d.status) (unfinished-attempts-lt d c) (omega arith),
  none_left ds cs (omega arith),
)
  where
    idle :
        (b : Bool) → (b ≡ true → d.attempts < 8) → (if b then 8 - d.attempts else 0) ≡ 0 → b ≡ false
    idle true f e = absurd (omega (arith, f refl))
    idle false f e = refl

run_passes-Sound :
    (ps : List Pass) (table : List Delivery)
    → All Runs ps
    → Sound table
    → Sound (run_passes ps table).1
unfolding run_passes
run_passes-Sound [] table r s = s
run_passes-Sound (p ∷ ps) table (r, rs) s =
    run_passes-Sound ps (run_once p table).1 rs (run_once-Sound p table r s)

-- Whatever the endpoints answer, all deliveries of a table, whose ids are unique and whose rows are
-- consistent, end with success or failure. No time in a row is after `t`; from `t` on each pass starts
-- at most `gap` seconds after the one before, its statements go through, and it has its answers within
-- 500 seconds. When the last pass starts more than `gap` and 22,100 seconds after `t` for each of the
-- eight attempts of each delivery, no delivery is left to try.
pub run_passes-Finished :
    (gap t : ℕ) (ps : List Pass) (table : List Delivery)
    → All Runs ps
    → Ticking gap t ps
    → Sound table
    → All (Before t) table
    → t + 8 * length table * (gap + 22100) < last_pass t ps
    → All Finished (run_passes ps table).1
unfolding Within
run_passes-Finished gap t ps table r k s b h =
    none_left (run_passes ps table).1 (run_passes-Sound ps table r s).1
      (elim (run_passes-Within gap t t ps table r k (omega arith) s b) [
        | inl e ↦ e
        | inr w ↦ absurd (
            omega (
              arith,
              w,
              h,
              budget-le (gap + 22100) (total_left table) (8 * length table) (total_left-le table),
              budget_lem (gap + 22100) (8 * length table),
            ))
      ])
