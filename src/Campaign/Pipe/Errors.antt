-- ===== src/Campaign/Pipe/Errors.antt =====
-- What a pipe counts of its errors, and what a stopped pipe still does.
use listnun.Prelude.{
  ℕ, ◌+◌, ◌≤◌, ◌<◌, ◌≡◌, ◌≢◌, refl, Bool, true, false, some, List, [], ◌∷◌, length, length-append,
  arith, ◌⊎◌, inl, sym, ◌∙◌, ltb, if◌then◌else◌,
}
use listnun.Campaign.Status.{Campaign}
use listnun.Campaign.Pipe.{Pipe, fresh_pipe, add, done, stop, on_error, store_last, count_sent}
use listnun.Campaign.Pipe.Machine.{
  Settling, compares, stores, counts, fails, Scan, no_scan, loaded, taken, Machine, Event, first,
  release, settle_one, scan_turn, run,
}
use listnun.Campaign.Pipe.Moves.{
  Picks, here, there, Picks-length, Move, rests, gives_up, turns, pushes, skips, attempts_send,
  sends, errs, settles, stops, requests, scans, writes, cleans_up, run-invariant,
}

abbrev is_failure : Settling → ℕ
is_failure fails = 1
is_failure _ = 0

-- The workers with an error that is not counted yet.
abbrev pub failing : List Settling → ℕ
failing [] = 0
failing (s ∷ ss) = is_failure s + failing ss

abbrev is_success : Settling → ℕ
is_success fails = 0
is_success _ = 1

-- The workers with a message that is sent and not counted yet.
abbrev pub succeeding : List Settling → ℕ
succeeding [] = 0
succeeding (s ∷ ss) = is_success s + succeeding ss

succeeding-Picks :
    (s : Settling) (xs ys : List Settling)
    → Picks s xs ys
    → succeeding xs ≡ is_success s + succeeding ys
succeeding-Picks s xs ys (here _) = refl
succeeding-Picks s xs ys (there x zs ws p) = omega (arith, succeeding-Picks s zs ws p)

failing-Picks :
    (s : Settling) (xs ys : List Settling) → Picks s xs ys → failing xs ≡ is_failure s + failing ys
failing-Picks s xs ys (here _) = refl
failing-Picks s xs ys (there x zs ws p) = omega (arith, failing-Picks s zs ws p)

abbrev Tallied : ℕ → Machine → Type 0
Tallied max m =
    (m.attempts ≡ length m.sending + m.counted + succeeding m.settling + m.failures)
    × (m.failures ≡ m.pipe.errors + failing m.settling)
    × ((m.pipe.errors < max) ⊎ (m.pipe.stopped ≡ true))
    × ((m.pipe.with_errors ≡ false) ⊎ (max ≤ m.pipe.errors))

compared-Tallied :
    (max : ℕ) (b : Bool) (id : ℕ) (rest : List Settling) (m : Machine)
    → Picks (compares id) m.settling rest
    → Tallied max m
    → Tallied max (record m { settling = (if b then stores id else counts) ∷ rest })
compared-Tallied max true id rest m p (a, f, e, w) =
    ground (arith, failing-Picks _ _ _ p, succeeding-Picks _ _ _ p)
compared-Tallied max false id rest m p (a, f, e, w) =
    ground (arith, failing-Picks _ _ _ p, succeeding-Picks _ _ _ p)

settle_one-Tallied :
    (max : ℕ) (s : Settling) (rest : List Settling) (m : Machine)
    → 1 ≤ max
    → Picks s m.settling rest
    → Tallied max m
    → Tallied max (settle_one max (some (s, rest)) m)
unfolding settle_one store_last count_sent on_error stop
settle_one-Tallied max (compares id) rest m h p t =
    compared-Tallied max (ltb m.pipe.last_id id) id rest m p t
settle_one-Tallied max (stores id) rest m h p (a, f, e, w) =
    ground (arith, failing-Picks _ _ _ p, succeeding-Picks _ _ _ p)
settle_one-Tallied max counts rest m h p (a, f, e, w) =
    ground (arith, failing-Picks _ _ _ p, succeeding-Picks _ _ _ p)
settle_one-Tallied max fails rest m h p (a, f, e, w) =
    ground (arith, failing-Picks _ _ _ p, succeeding-Picks _ _ _ p)

scan_turn-Tallied :
    (max : ℕ) (ok : Bool) (s : Scan) (m : Machine) → Tallied max m → Tallied max (scan_turn ok s m)
unfolding scan_turn
scan_turn-Tallied max ok no_scan m a = a
scan_turn-Tallied max ok (loaded n) m a = a
scan_turn-Tallied max ok (taken n) m a = a

release-Tallied :
    (max : ℕ) (failed : Bool) (m : Machine) → Tallied max m → Tallied max (release failed m)
unfolding release done stop
release-Tallied max true m (a, f, e, w) = ground arith
release-Tallied max false m (a, f, e, w) = (a, f, e, w)

Move-Tallied :
    (max : ℕ) → 1 ≤ max → (m m' : Machine) → Move max m m' → Tallied max m → Tallied max m'
unfolding done add stop
Move-Tallied max h m m' rests a = a
Move-Tallied max h m m' (gives_up failed w) a = release-Tallied max failed m a
Move-Tallied max h m m' (turns t w w') a = a
Move-Tallied max h m m' (pushes id subs w) a = a
Move-Tallied max h m m' (skips id rest q s) a = a
Move-Tallied max h m m' (attempts_send id rest q s) (a, f, e, w) =
    ground (arith, length-append m.sending (id ∷ []))
Move-Tallied max h m m' (sends id rest p) (a, f, e, w) =
    ground (arith, Picks-length id m.sending rest p)
Move-Tallied max h m m' (errs id rest p) (a, f, e, w) =
    ground (arith, Picks-length id m.sending rest p)
Move-Tallied max h m m' (settles s rest p) a = settle_one-Tallied max s rest m h p a
Move-Tallied max h m m' stops (a, f, e, w) = ground arith
Move-Tallied max h m m' (requests s) a = a
Move-Tallied max h m m' (scans ok) a = scan_turn-Tallied max ok m.scan m a
Move-Tallied max h m m' (writes ok e w) a = a
Move-Tallied max h m m' (cleans_up ok) a = a

-- Whatever the order of the events, with a limit of errors that is not off: every attempt to send is
-- under way, has failed, has been counted as sent, or is still to be counted; the errors of the pipe
-- are the failures that are not still to be counted; the pipe is stopped once they reach the limit;
-- and it is marked as ended by errors only if they do.
pub run-Tallied :
    (max : ℕ) (es : List Event) (c : Campaign)
    → 1 ≤ max
    → let m = run max es (first c) in
      (m.attempts ≡ length m.sending + m.counted + succeeding m.settling + m.failures)
      × (m.failures ≡ m.pipe.errors + failing m.settling)
      × ((m.pipe.errors < max) ⊎ (m.pipe.stopped ≡ true))
      × ((m.pipe.with_errors ≡ false) ⊎ (max ≤ m.pipe.errors))
unfolding first fresh_pipe
run-Tallied max es c h =
    run-invariant max (Tallied max) (Move-Tallied max h) es (first c)
      (refl, refl, inl (omega (arith, h)), inl refl)

abbrev Halted : ℕ → Machine → Type 0
Halted n m = (m.pipe.stopped ≡ true) × (m.attempts ≡ n)

Bool-clash : true ≢ false
Bool-clash h = cc

stop-stopped : (b : Bool) (p : Pipe) → (stop b p).stopped ≡ true
unfolding stop
stop-stopped b p = ground arith

on_error-stopped : (max : ℕ) (p : Pipe) → p.stopped ≡ true → (on_error max p).stopped ≡ true
unfolding on_error stop
on_error-stopped max p s = ground arith

settle_one-Halted :
    (max n : ℕ) (s : Settling) (rest : List Settling) (m : Machine)
    → Halted n m
    → Halted n (settle_one max (some (s, rest)) m)
unfolding settle_one store_last count_sent
settle_one-Halted max n (compares id) rest m a = a
settle_one-Halted max n (stores id) rest m a = a
settle_one-Halted max n counts rest m a = a
settle_one-Halted max n fails rest m (s, a) = (on_error-stopped max m.pipe s, a)

scan_turn-Halted :
    (n : ℕ) (ok : Bool) (s : Scan) (m : Machine) → Halted n m → Halted n (scan_turn ok s m)
unfolding scan_turn
scan_turn-Halted n ok no_scan m a = a
scan_turn-Halted n ok (loaded k) m a = a
scan_turn-Halted n ok (taken k) m a = a

release-Halted : (n : ℕ) (failed : Bool) (m : Machine) → Halted n m → Halted n (release failed m)
unfolding release done
release-Halted n true m (s, a) = (stop-stopped false m.pipe, a)
release-Halted n false m (s, a) = (s, a)

Move-Halted : (max n : ℕ) (m m' : Machine) → Move max m m' → Halted n m → Halted n m'
unfolding done add
Move-Halted max n m m' rests a = a
Move-Halted max n m m' (gives_up failed w) a = release-Halted n failed m a
Move-Halted max n m m' (turns t w w') a = a
Move-Halted max n m m' (pushes id subs w) a = a
Move-Halted max n m m' (skips id rest q s) a = a
Move-Halted max n m m' (attempts_send id rest q r) (s, a) = elim (Bool-clash (sym s ∙ r)) [ ]
Move-Halted max n m m' (sends id rest p) a = a
Move-Halted max n m m' (errs id rest p) a = a
Move-Halted max n m m' (settles s rest p) a = settle_one-Halted max n s rest m a
Move-Halted max n m m' stops (s, a) = (stop-stopped false m.pipe, a)
Move-Halted max n m m' (requests s) a = a
Move-Halted max n m m' (scans ok) a = scan_turn-Halted n ok m.scan m a
Move-Halted max n m m' (writes ok e w) a = a
Move-Halted max n m m' (cleans_up ok) a = a

-- After a pipe has been stopped no worker starts to send another of its messages, whatever happens.
run-stopped :
    (max : ℕ) (es : List Event) (m : Machine)
    → m.pipe.stopped ≡ true
    → ((run max es m).pipe.stopped ≡ true) × ((run max es m).attempts ≡ m.attempts)
run-stopped max es m s =
    run-invariant max (Halted m.attempts) (Move-Halted max m.attempts) es m (s, refl)
