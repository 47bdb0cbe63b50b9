-- ===== src/Campaign/Pipe/Entering.antt =====
-- Where the goroutine that cleans up a pipe has been when it is in a place of cleanup.
use listnun.Prelude.{
  ℕ, ◌≡◌, refl, Bool, true, false, List, [], ◌∷◌, ◌++◌, ◌⊎◌, inl, inr, sym, ap, ◌∙◌, Bool-cases,
  arith,
}
use listnun.Campaign.Status.{running, scheduled, Campaign}
use listnun.Campaign.Pipe.{Pipe}
use listnun.Campaign.Pipe.Machine.{
  compares, stores, counts, fails, Scan, no_scan, loaded, taken, Ending, waits, cleans, checks,
  fetches, finishes, pauses, explains, leaves, removed, next_ending, Machine, Event, release,
  settle_one, scan_turn, step, run,
}
use listnun.Campaign.Pipe.Moves.{
  Move, rests, gives_up, turns, pushes, skips, attempts_send, sends, errs, settles, stops, requests,
  scans, writes, cleans_up, step-Move,
}

abbrev pub is_checking : Ending → Bool
is_checking checks = true
is_checking _ = false

abbrev pub is_fetching : Ending → Bool
is_fetching fetches = true
is_fetching _ = false

abbrev pub is_finishing : Ending → Bool
is_finishing finishes = true
is_finishing _ = false

pub next_ending-is_checking :
    (ok : Bool) (e : Ending) (p : Pipe) (c : Campaign)
    → is_checking e ≡ false
    → is_checking (next_ending ok e p c) ≡ true
    → (e ≡ cleans) × (p.with_errors ≡ false)
unfolding next_ending
next_ending-is_checking ok waits p c n k = ground arith
next_ending-is_checking ok cleans p c n k = ground arith
next_ending-is_checking ok checks p c n k = ground arith
next_ending-is_checking ok fetches p c n k = ground arith
next_ending-is_checking ok finishes p c n k = ground arith
next_ending-is_checking ok pauses p c n k = ground arith
next_ending-is_checking ok explains p c n k = ground arith
next_ending-is_checking ok leaves p c n k = ground arith
next_ending-is_checking ok removed p c n k = ground arith

pub next_ending-is_fetching :
    (ok : Bool) (e : Ending) (p : Pipe) (c : Campaign)
    → is_fetching e ≡ false
    → is_fetching (next_ending ok e p c) ≡ true
    → (e ≡ checks) × (p.stopped ≡ false)
unfolding next_ending
next_ending-is_fetching ok waits p c n k = ground arith
next_ending-is_fetching ok cleans p c n k = ground arith
next_ending-is_fetching ok checks p c n k = ground arith
next_ending-is_fetching ok fetches p c n k = ground arith
next_ending-is_fetching ok finishes p c n k = ground arith
next_ending-is_fetching ok pauses p c n k = ground arith
next_ending-is_fetching ok explains p c n k = ground arith
next_ending-is_fetching ok leaves p c n k = ground arith
next_ending-is_fetching ok removed p c n k = ground arith

pub next_ending-is_finishing :
    (ok : Bool) (e : Ending) (p : Pipe) (c : Campaign)
    → is_finishing e ≡ false
    → is_finishing (next_ending ok e p c) ≡ true
    → (e ≡ fetches) × (((c.status ≡ running) ⊎ (c.status ≡ scheduled)))
unfolding next_ending
next_ending-is_finishing ok waits p c n k = ground arith
next_ending-is_finishing ok cleans p c n k = ground arith
next_ending-is_finishing ok checks p c n k = ground arith
next_ending-is_finishing ok fetches p c n k = ground arith
next_ending-is_finishing ok finishes p c n k = ground arith
next_ending-is_finishing ok pauses p c n k = ground arith
next_ending-is_finishing ok explains p c n k = ground arith
next_ending-is_finishing ok leaves p c n k = ground arith
next_ending-is_finishing ok removed p c n k = ground arith

-- Only the steps of the waiting goroutine change where it is.
Goes : Machine → Ending → Type 0
Goes m e =
    (e ≡ m.ending) ⊎ (e ≡ cleans) ⊎ ((ok : Bool) × (e ≡ next_ending ok m.ending m.pipe m.row))

Move-Goes : (max : ℕ) (m m' : Machine) → Move max m m' → Goes m m'.ending
unfolding Goes release settle_one scan_turn
Move-Goes max m m' rests = inl refl
Move-Goes max m m' (gives_up failed w) = inl refl
Move-Goes max m m' (turns t w w') = inl refl
Move-Goes max m m' (pushes id subs w) = inl refl
Move-Goes max m m' (skips id rest q s) = inl refl
Move-Goes max m m' (attempts_send id rest q s) = inl refl
Move-Goes max m m' (sends id rest p) = inl refl
Move-Goes max m m' (errs id rest p) = inl refl
Move-Goes max m m' (settles (compares id) rest p) = inl refl
Move-Goes max m m' (settles (stores id) rest p) = inl refl
Move-Goes max m m' (settles counts rest p) = inl refl
Move-Goes max m m' (settles fails rest p) = inl refl
Move-Goes max m m' stops = inl refl
Move-Goes max m m' (requests s) = inl refl
Move-Goes max m m' (scans ok) = inl (scan_ending m.scan)
  where
    scan_ending : (s : Scan) → (scan_turn ok s m).ending ≡ m.ending
    scan_ending no_scan = refl
    scan_ending (loaded n) = refl
    scan_ending (taken n) = refl
Move-Goes max m m' (writes ok e w) = inr (inl refl)
Move-Goes max m m' (cleans_up ok) = inr (inr (ok, refl))

-- The events up to one of the steps of a run, where the machine has a property.
abbrev pub Once : ℕ → Machine → List Event → (List Event → Machine → Type 0) → Type 0
Once max m es P = (fs : List Event) × (gs : List Event) × (es ≡ fs ++ gs) × P fs (run max fs m)

-- A run that ends in places of cleanup where it did not begin has entered them.
module _ (q : Ending → Bool) (P : Machine → Type 0) (other : q cleans ≡ false)
    (enters : (ok : Bool) (m : Machine)
      → q m.ending ≡ false
      → q (next_ending ok m.ending m.pipe m.row) ≡ true
      → P m) where
  step-enters :
      (max : ℕ) (e : Event) (m : Machine)
      → q m.ending ≡ false
      → q (step max e m).ending ≡ true
      → P m
  unfolding Goes
  step-enters max e m n h = elim (Move-Goes max m (step max e m) (step-Move max e m)) [
    | inl k ↦ cc
    | inr (inl k) ↦ cc
    | inr (inr (ok, k)) ↦ enters ok m n (sym (ap q k) ∙ h)
  ]

  pub entered :
      (max : ℕ) (es : List Event) (m : Machine)
      → q m.ending ≡ false
      → q (run max es m).ending ≡ true
      → Once max m es (λ fs k. P k)
  unfolding run
  entered max [] m n h = cc
  entered max (e ∷ es) m n h = elim (Bool-cases (q (step max e m).ending)) [
    | inl k ↦ ([], e ∷ es, refl, step-enters max e m n k)
    | inr k ↦
        let (fs, gs, s, p) = entered max es (step max e m) k h in (e ∷ fs, gs, ap (λ l. e ∷ l) s, p)
  ]
