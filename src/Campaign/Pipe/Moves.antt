-- ===== src/Campaign/Pipe/Moves.antt =====
-- The steps of the machine as a relation: what each event does when it can happen.
use listnun.Prelude.{
  ℕ, zero, suc, ◌+◌, ◌≡◌, refl, Bool, true, false, Option, none, some, List, [], ◌∷◌, ◌++◌,
  if◌then◌else◌, ==_iff, ap, ◌&&◌, length,
}
use mathlib.Core.Path.{subst}
use listnun.Campaign.Status.{CampaignStatus, set_status}
use listnun.Campaign.Pipe.{add, done, stop, clean_counts}
use listnun.Campaign.Pipe.Machine.{
  Subscriber, Turn, queued, pushing, released, Settling, compares, fails, Ending, waits, cleans,
  checks, fetches, finishes, pauses, explains, leaves, removed, Machine, Event, fetch, push,
  requeue, take, send, settle, stop_campaign, request, scan_step, write_counts, clean_up, pick,
  beside, release, fetch_turn, push_message, push_turn, requeue_turn, take_message, end_send,
  settle_one, scan_turn, is_waiting, next_ending, clean_row, step, run,
}

-- One for the pipe itself until Run lets go of it.
abbrev pub weight : Turn → ℕ
weight released = 0
weight _ = 1

-- What is left of a list when one element has been picked.
pub data Picks {ℓ} {A : Type ℓ} (a : A) : List A → List A → Type ℓ where
  here : (xs : List A) → Picks a (a ∷ xs) xs
  there : (x : A) (xs ys : List A) → Picks a xs ys → Picks a (x ∷ xs) (x ∷ ys)

some-injective {ℓ} : {A : Type ℓ} {x y : A} → some x ≡ some y → x ≡ y
some-injective h = cc

pick-Picks {ℓ} :
    {A : Type ℓ} (i : ℕ) (xs : List A) (a : A) (ys : List A)
    → pick i xs ≡ some (a, ys)
    → Picks a xs ys
unfolding pick
pick-Picks i [] a ys h = cc
pick-Picks zero (x ∷ xs) a ys h = subst (λ p. Picks p.0 (x ∷ xs) p.1) (some-injective h) (here xs)
pick-Picks {A = A} (suc i) (x ∷ xs) a ys h = go (pick i xs) refl h (pick-Picks i xs)
  where
    go :
        (o : Option (A × List A))
        → pick i xs ≡ o
        → beside x o ≡ some (a, ys)
        → ((b : A) (zs : List A) → pick i xs ≡ some (b, zs) → Picks b xs zs)
        → Picks a (x ∷ xs) ys
    go none e h rec = cc
    go (some (z, zs)) e h rec =
        subst (λ p. Picks p.0 (x ∷ xs) p.1) (some-injective h) (there x xs zs (rec z zs e))

pub Picks-length {ℓ} :
    {A : Type ℓ} (a : A) (xs ys : List A) → Picks a xs ys → length xs ≡ suc (length ys)
Picks-length a xs ys (here _) = refl
Picks-length a xs ys (there x zs ws p) = ap suc (Picks-length a zs ws p)

-- The moves of a machine whose MaxSendErrors is `max`.
pub data Move (max : ℕ) (m : Machine) : Machine → Type 0 where
  rests : Move max m m
  gives_up : (failed : Bool) → weight m.turn ≡ 1 → Move max m (release failed m)
  turns : (t : Turn) → weight m.turn ≡ 1 → weight t ≡ 1 → Move max m (record m { turn = t })
  pushes :
      (id : ℕ) (subs : List Subscriber)
      → weight m.turn ≡ 1
      → Move max m (record m {
        pipe = add m.pipe;
        turn = pushing subs;
        queue = m.queue ++ (id ∷ []);
        pushed = m.pushed ++ (id ∷ []);
      })
  skips :
      (id : ℕ) (rest : List ℕ)
      → m.queue ≡ id ∷ rest
      → m.pipe.stopped ≡ true
      → Move max m (record m { pipe = done m.pipe; queue = rest; took = m.took ++ (id ∷ []) })
  attempts_send :
      (id : ℕ) (rest : List ℕ)
      → m.queue ≡ id ∷ rest
      → m.pipe.stopped ≡ false
      → Move max m (record m {
        queue = rest;
        took = m.took ++ (id ∷ []);
        sending = m.sending ++ (id ∷ []);
        attempts = m.attempts + 1;
      })
  sends :
      (id : ℕ) (rest : List ℕ)
      → Picks id m.sending rest
      → Move max m
          (record m { pipe = done m.pipe; sending = rest; settling = compares id ∷ m.settling })
  errs :
      (id : ℕ) (rest : List ℕ)
      → Picks id m.sending rest
      → Move max m (record m {
        pipe = done m.pipe;
        sending = rest;
        settling = fails ∷ m.settling;
        failures = m.failures + 1;
      })
  settles :
      (s : Settling) (rest : List Settling)
      → Picks s m.settling rest
      → Move max m (settle_one max (some (s, rest)) m)
  stops : Move max m (record m { pipe = stop false m.pipe })
  requests : (s : CampaignStatus) → Move max m (record m { row = set_status s m.row })
  scans : (ok : Bool) → Move max m (scan_turn ok m.scan m)
  writes :
      (ok : Bool)
      → m.ending ≡ waits
      → m.pipe.wg ≡ 0
      → Move max m (record m { ending = cleans; row = clean_counts ok m.pipe m.row })
  cleans_up :
      (ok : Bool)
      → Move max m (record m {
        ending = next_ending ok m.ending m.pipe m.row;
        row = clean_row ok m.ending m.row;
      })

if-Move :
    (max : ℕ) (m : Machine) (b : Bool) (m₁ m₂ : Machine)
    → (b ≡ true → Move max m m₁)
    → (b ≡ false → Move max m m₂)
    → Move max m (if b then m₁ else m₂)
if-Move max m true m₁ m₂ f g = f refl
if-Move max m false m₁ m₂ f g = g refl

fetch_turn-Move :
    (max : ℕ) (subs : Option (List Subscriber)) (t : Turn) (m : Machine)
    → m.turn ≡ t
    → Move max m (fetch_turn subs t m)
unfolding fetch_turn
fetch_turn-Move max none queued m e = gives_up true (ap weight e)
fetch_turn-Move max (some []) queued m e = gives_up false (ap weight e)
fetch_turn-Move max (some (s ∷ subs)) queued m e = turns (pushing (s ∷ subs)) (ap weight e) refl
fetch_turn-Move max subs (pushing _) m e = rests
fetch_turn-Move max subs released m e = rests

push_turn-Move : (max : ℕ) (t : Turn) (m : Machine) → m.turn ≡ t → Move max m (push_turn t m)
unfolding push_turn push_message
push_turn-Move max (pushing (s ∷ subs)) m e =
    if-Move max m s.renders _ _ (λ r. pushes s.id subs (ap weight e))
      (λ r. turns (pushing subs) (ap weight e) refl)
push_turn-Move max (pushing []) m e = rests
push_turn-Move max queued m e = rests
push_turn-Move max released m e = rests

requeue_turn-Move :
    (max : ℕ) (room : Bool) (t : Turn) (m : Machine)
    → m.turn ≡ t
    → Move max m (requeue_turn room t m)
unfolding requeue_turn
requeue_turn-Move max true (pushing []) m e = turns queued (ap weight e) refl
requeue_turn-Move max false (pushing []) m e = gives_up true (ap weight e)
requeue_turn-Move max room (pushing (s ∷ subs)) m e = rests
requeue_turn-Move max room queued m e = rests
requeue_turn-Move max room released m e = rests

take_message-Move :
    (max : ℕ) (q : List ℕ) (m : Machine) → m.queue ≡ q → Move max m (take_message q m)
unfolding take_message
take_message-Move max [] m e = rests
take_message-Move max (id ∷ rest) m e =
    if-Move max m m.pipe.stopped _ _ (skips id rest e) (attempts_send id rest e)

end_send-Move :
    (max : ℕ) (ok : Bool) (i : ℕ) (o : Option (ℕ × List ℕ)) (m : Machine)
    → pick i m.sending ≡ o
    → Move max m (end_send ok o m)
unfolding end_send
end_send-Move max ok i none m e = rests
end_send-Move max true i (some (id, rest)) m e = sends id rest (pick-Picks i _ id rest e)
end_send-Move max false i (some (id, rest)) m e = errs id rest (pick-Picks i _ id rest e)

settle_one-Move :
    (max : ℕ) (i : ℕ) (o : Option (Settling × List Settling)) (m : Machine)
    → pick i m.settling ≡ o
    → Move max m (settle_one max o m)
unfolding settle_one
settle_one-Move max i none m e = rests
settle_one-Move max i (some (s, rest)) m e = settles s rest (pick-Picks i _ s rest e)

both : {a b : Bool} → (a && b) ≡ true → (a ≡ true) × (b ≡ true)
both {a = true} h = (refl, h)
both {a = false} h = cc

is_waiting-true : (e : Ending) → is_waiting e ≡ true → e ≡ waits
is_waiting-true waits h = refl
is_waiting-true cleans h = cc
is_waiting-true checks h = cc
is_waiting-true fetches h = cc
is_waiting-true finishes h = cc
is_waiting-true pauses h = cc
is_waiting-true explains h = cc
is_waiting-true leaves h = cc
is_waiting-true removed h = cc

-- Every event makes a move.
pub step-Move : (max : ℕ) (e : Event) (m : Machine) → Move max m (step max e m)
unfolding step
step-Move max (fetch subs) m = fetch_turn-Move max subs m.turn m refl
step-Move max push m = push_turn-Move max m.turn m refl
step-Move max (requeue room) m = requeue_turn-Move max room m.turn m refl
step-Move max take m = take_message-Move max m.queue m refl
step-Move max (send i ok) m = end_send-Move max ok i (pick i m.sending) m refl
step-Move max (settle i) m = settle_one-Move max i (pick i m.settling) m refl
step-Move max stop_campaign m = if-Move max m _ _ _ (λ r. rests) (λ w. stops)
step-Move max (request s) m = requests s
step-Move max (scan_step ok) m = if-Move max m _ _ _ (λ r. rests) (λ w. scans ok)
step-Move max (write_counts ok) m =
    if-Move max m _ _ _
      (λ w. writes ok (is_waiting-true m.ending (both w).0) ((==_iff m.pipe.wg 0).0 (both w).1))
      (λ w. rests)
step-Move max (clean_up ok) m = cleans_up ok

-- An invariant of the moves holds after every run.
pub run-invariant {ℓ} :
    (max : ℕ) (P : Machine → Type ℓ)
    → ((m m' : Machine) → Move max m m' → P m → P m')
    → (es : List Event) (m : Machine) → P m
    → P (run max es m)
unfolding run
run-invariant max P keep [] m p = p
run-invariant max P keep (e ∷ es) m p =
    run-invariant max P keep es (step max e m) (keep m _ (step-Move max e m) p)
