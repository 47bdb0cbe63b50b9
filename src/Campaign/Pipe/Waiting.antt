-- ===== src/Campaign/Pipe/Waiting.antt =====
-- The counter of a pipe: what it counts, and what is left when it is zero.
use listnun.Prelude.{
  ℕ, ◌+◌, ◌-◌, ◌≡◌, refl, Bool, true, false, some, List, [], ◌∷◌, ◌++◌, length, length-append,
  arith, ◌⊎◌, inl, inr, ap, sym, ◌∙◌,
}
use mathlib.Core.List.{append_assoc, append-nil}
use listnun.Campaign.Status.{Campaign}
use listnun.Campaign.Pipe.{Pipe, fresh_pipe, add, done, stop, on_error, store_last, count_sent}
use listnun.Campaign.Pipe.Machine.{
  Settling, compares, stores, counts, fails, Scan, no_scan, loaded, taken, waits, next_ending,
  Machine, Event, first, release, settle_one, scan_turn, run,
}
use listnun.Campaign.Pipe.Moves.{
  weight, Picks-length, Move, rests, gives_up, turns, pushes, skips, attempts_send, sends, errs,
  settles, stops, requests, scans, writes, cleans_up, run-invariant,
}

-- The counter counts the pipe itself, the messages in the queue and those being sent. A pipe that
-- is cleaned up has a counter of zero. The messages leave the queue in the order of their pushes.
abbrev pub Accounted : Machine → Type 0
Accounted m =
    (m.pipe.wg ≡ weight m.turn + length m.queue + length m.sending)
    × ((m.ending ≡ waits) ⊎ (m.pipe.wg ≡ 0))
    × (m.took ++ m.queue ≡ m.pushed)

stop-wg : (b : Bool) (p : Pipe) → (stop b p).wg ≡ p.wg
unfolding stop
stop-wg b p = ground arith

on_error-wg : (max : ℕ) (p : Pipe) → (on_error max p).wg ≡ p.wg
unfolding on_error
on_error-wg max p = ground (arith, stop-wg true (record p { errors = p.errors + 1 }))

settle_one-wg :
    (max : ℕ) (s : Settling) (rest : List Settling) (m : Machine)
    → let m' = settle_one max (some (s, rest)) m in
      (m'.pipe.wg ≡ m.pipe.wg)
      × (m'.turn ≡ m.turn)
      × (m'.queue ≡ m.queue)
      × (m'.sending ≡ m.sending)
      × (m'.ending ≡ m.ending)
      × (m'.took ≡ m.took)
      × (m'.pushed ≡ m.pushed)
unfolding settle_one store_last count_sent
settle_one-wg max (compares id) rest m = (refl, refl, refl, refl, refl, refl, refl)
settle_one-wg max (stores id) rest m = (refl, refl, refl, refl, refl, refl, refl)
settle_one-wg max counts rest m = (refl, refl, refl, refl, refl, refl, refl)
settle_one-wg max fails rest m = (on_error-wg max m.pipe, refl, refl, refl, refl, refl, refl)

scan_turn-Accounted :
    (ok : Bool) (s : Scan) (m : Machine) → Accounted m → Accounted (scan_turn ok s m)
unfolding scan_turn
scan_turn-Accounted ok no_scan m a = a
scan_turn-Accounted ok (loaded n) m a = a
scan_turn-Accounted ok (taken n) m a = a

release-wg : (failed : Bool) (m : Machine) → (release failed m).pipe.wg ≡ m.pipe.wg - 1
unfolding release done
release-wg true m = ap (λ n. n - 1) (stop-wg false m.pipe)
release-wg false m = refl

release-Accounted :
    (failed : Bool) (m : Machine) → weight m.turn ≡ 1 → Accounted m → Accounted (release failed m)
unfolding release
release-Accounted failed m w (b, inl z, f) = (ground (arith, release-wg failed m), inl z, f)
release-Accounted failed m w (b, inr z, f) =
    (ground (arith, release-wg failed m), inr (omega arith), f)

Move-Accounted : (max : ℕ) (m m' : Machine) → Move max m m' → Accounted m → Accounted m'
unfolding done add next_ending
Move-Accounted max m m' rests a = a
Move-Accounted max m m' (gives_up failed w) a = release-Accounted failed m w a
Move-Accounted max m m' (turns t w w') (b, z, f) = (omega (arith, b, w, w'), z, f)
Move-Accounted max m m' (pushes id subs w) (b, z, f) = (
  ground (arith, length-append m.queue (id ∷ [])),
  ground arith,
  sym (append_assoc m.took m.queue (id ∷ [])) ∙ ap (λ l. l ++ (id ∷ [])) f,
)
Move-Accounted max m m' (skips id rest q s) (b, z, f) =
    (ground (arith, ap length q), ground arith, append_assoc m.took (id ∷ []) rest ∙ rw q at f)
Move-Accounted max m m' (attempts_send id rest q s) (b, z, f) = (
  ground (arith, ap length q, length-append m.sending (id ∷ [])),
  z,
  append_assoc m.took (id ∷ []) rest ∙ rw q at f,
)
Move-Accounted max m m' (sends id rest p) (b, z, f) =
    (ground (arith, Picks-length id m.sending rest p), ground arith, f)
Move-Accounted max m m' (errs id rest p) (b, z, f) =
    (ground (arith, Picks-length id m.sending rest p), ground arith, f)
Move-Accounted max m m' (settles s rest p) (b, z, f) =
    let (w, t, q, n, e, k, u) = settle_one-wg max s rest m in rw (w, t, q, n, e, k, u) (b, z, f)
Move-Accounted max m m' stops (b, z, f) = rw (stop-wg false m.pipe) (b, z, f)
Move-Accounted max m m' (requests s) a = a
Move-Accounted max m m' (scans ok) a = scan_turn-Accounted ok m.scan m a
Move-Accounted max m m' (writes ok e w) (b, z, f) = (b, inr w, f)
Move-Accounted max m m' (cleans_up ok) (b, inl z, f) = (b, inl (rw z refl), f)
Move-Accounted max m m' (cleans_up ok) (b, inr z, f) = (b, inr z, f)

empty_of_length : (xs : List ℕ) → length xs ≡ 0 → xs ≡ []
empty_of_length [] h = refl
empty_of_length (x ∷ xs) h = cc

drained :
    (m : Machine)
    → Accounted m
    → (m.ending ≡ waits)
      ⊎ (m.pipe.wg ≡ 0)
        × (weight m.turn ≡ 0)
        × (m.queue ≡ [])
        × (m.sending ≡ [])
        × (m.took ≡ m.pushed)
drained m (b, inl e, f) = inl e
drained m (b, inr z, f) =
    let q = empty_of_length m.queue (omega (arith, b, z)) in
    let taken = sym (append-nil m.took) ∙ sym (ap (λ l. m.took ++ l) q) ∙ f in
    inr (z, omega (arith, b, z), q, empty_of_length m.sending (omega (arith, b, z)), taken)

-- Whatever the order of the events: the counter of a pipe is one for as long as Run holds the pipe,
-- plus one for every message in the queue and every message being sent; the counts are written only
-- when it is zero, and from then on it stays zero, Run has let go of the pipe, no message is in the
-- queue and none is being sent; and the workers take the messages once each, in the order of their
-- pushes.
pub run-Accounted :
    (max : ℕ) (es : List Event) (c : Campaign)
    → let m = run max es (first c) in
      (m.pipe.wg ≡ weight m.turn + length m.queue + length m.sending)
      × ((m.ending ≡ waits)
          ⊎ (m.pipe.wg ≡ 0)
            × (weight m.turn ≡ 0)
            × (m.queue ≡ [])
            × (m.sending ≡ [])
            × (m.took ≡ m.pushed))
      × (m.took ++ m.queue ≡ m.pushed)
unfolding first fresh_pipe
run-Accounted max es c =
    let a = run-invariant max Accounted (Move-Accounted max) es (first c) (refl, inl refl, refl) in
    (a.0, drained (run max es (first c)) a, a.2)
