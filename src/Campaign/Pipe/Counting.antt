-- ===== src/Campaign/Pipe/Counting.antt =====
-- The number of sent messages that the database has of a campaign while its pipe works.
use listnun.Prelude.{
  ℕ, ◌+◌, ◌≤◌, ◌≡◌, ◌≢◌, refl, Bool, true, false, some, List, arith, ◌⊎◌, inl, inr,
}
use listnun.Campaign.Status.{
  CampaignStatus, Campaign, set_status, set_pause_reason, update_counts, scheduled, running,
}
use listnun.Campaign.Pipe.{Pipe, fresh_pipe, add, done, stop, on_error, store_last, count_sent}
use listnun.Campaign.Pipe.Machine.{
  Settling, compares, stores, counts, fails, Scan, no_scan, loaded, taken, Ending, waits, cleans,
  checks, fetches, finishes, pauses, explains, leaves, removed, next_ending, clean_row, Machine,
  Event, first, release, settle_one, scan_turn, run,
}
use listnun.Campaign.Pipe.Moves.{
  Move, rests, gives_up, turns, pushes, skips, attempts_send, sends, errs, settles, stops, requests,
  scans, writes, cleans_up, run-invariant,
}

-- What a scan has read and not reset yet, and what it has reset and not written yet.
abbrev pub seen : Scan → ℕ
seen (loaded n) = n
seen _ = 0

abbrev pub held : Scan → ℕ
held (taken n) = n
held _ = 0

abbrev After : Ending → Type 0
After e = e ≢ waits

next_ending-After :
    (ok : Bool) (e : Ending) (p : Pipe) (c : Campaign) → After e → After (next_ending ok e p c)
unfolding next_ending
next_ending-After ok waits p c h = h
next_ending-After ok cleans p c h = ground arith
next_ending-After ok checks p c h = ground arith
next_ending-After ok fetches p c h = ground arith
next_ending-After ok finishes p c h = λ e. cc
next_ending-After ok pauses p c h = ground arith
next_ending-After ok explains p c h = λ e. cc
next_ending-After ok leaves p c h = λ e. cc
next_ending-After ok removed p c h = h

clean_row-sent : (ok : Bool) (e : Ending) (c : Campaign) → (clean_row ok e c).sent ≡ c.sent
unfolding clean_row set_pause_reason set_status
clean_row-sent false waits c = refl
clean_row-sent false cleans c = refl
clean_row-sent false checks c = refl
clean_row-sent false fetches c = refl
clean_row-sent false finishes c = refl
clean_row-sent false pauses c = refl
clean_row-sent false explains c = refl
clean_row-sent false leaves c = refl
clean_row-sent false removed c = refl
clean_row-sent true waits c = refl
clean_row-sent true cleans c = refl
clean_row-sent true checks c = refl
clean_row-sent true fetches c = refl
clean_row-sent true finishes c = refl
clean_row-sent true pauses c = refl
clean_row-sent true explains c = ground arith
clean_row-sent true leaves c = refl
clean_row-sent true removed c = refl

abbrev Bounded : ℕ → Machine → Type 0
Bounded base m =
    After m.ending
    ⊎ (m.row.sent + held m.scan + m.pipe.sent ≤ base + m.counted) × (seen m.scan ≤ m.pipe.sent)

stop-sent : (b : Bool) (p : Pipe) → (stop b p).sent ≡ p.sent
unfolding stop
stop-sent b p = ground arith

on_error-sent : (max : ℕ) (p : Pipe) → (on_error max p).sent ≡ p.sent
unfolding on_error stop
on_error-sent max p = ground arith

set_status-sent : (s : CampaignStatus) (c : Campaign) → (set_status s c).sent ≡ c.sent
unfolding set_status
set_status-sent CampaignStatus.draft c = refl
set_status-sent scheduled c = refl
set_status-sent running c = refl
set_status-sent CampaignStatus.paused c = refl
set_status-sent CampaignStatus.finished c = refl
set_status-sent CampaignStatus.cancelled c = refl

settle_one-Bounded :
    (max base : ℕ) (s : Settling) (rest : List Settling) (m : Machine)
    → Bounded base m
    → Bounded base (settle_one max (some (s, rest)) m)
unfolding settle_one store_last count_sent
settle_one-Bounded max base (compares id) rest m b = b
settle_one-Bounded max base (stores id) rest m b = b
settle_one-Bounded max base counts rest m b = ground arith
settle_one-Bounded max base fails rest m b = rw (on_error-sent max m.pipe) b

scan_turn-Bounded :
    (base : ℕ) (ok : Bool) (s : Scan) (m : Machine)
    → m.scan ≡ s
    → Bounded base m
    → Bounded base (scan_turn ok s m)
unfolding scan_turn update_counts
scan_turn-Bounded base ok no_scan m e (inl k) = inl k
scan_turn-Bounded base ok no_scan m e (inr (b, s)) = inr (ground (arith, rw e at b), omega arith)
scan_turn-Bounded base ok (loaded n) m e (inl k) = inl k
scan_turn-Bounded base ok (loaded n) m e (inr (b, s)) =
    inr (ground (arith, rw e at b, rw e at s), omega arith)
scan_turn-Bounded base ok (taken n) m e (inl k) = inl k
scan_turn-Bounded base true (taken n) m e (inr (b, s)) =
    inr (ground (arith, rw e at b), omega arith)
scan_turn-Bounded base false (taken n) m e (inr (b, s)) =
    inr (ground (arith, rw e at b), omega arith)

release-Bounded :
    (base : ℕ) (failed : Bool) (m : Machine) → Bounded base m → Bounded base (release failed m)
unfolding release done
release-Bounded base true m b = rw (stop-sent false m.pipe) b
release-Bounded base false m b = b

Move-Bounded : (max base : ℕ) (m m' : Machine) → Move max m m' → Bounded base m → Bounded base m'
unfolding done add
Move-Bounded max base m m' rests b = b
Move-Bounded max base m m' (gives_up failed w) b = release-Bounded base failed m b
Move-Bounded max base m m' (turns t w w') b = b
Move-Bounded max base m m' (pushes id subs w) b = b
Move-Bounded max base m m' (skips id rest q s) b = b
Move-Bounded max base m m' (attempts_send id rest q s) b = b
Move-Bounded max base m m' (sends id rest p) b = b
Move-Bounded max base m m' (errs id rest p) b = b
Move-Bounded max base m m' (settles s rest p) b = settle_one-Bounded max base s rest m b
Move-Bounded max base m m' stops b = rw (stop-sent false m.pipe) b
Move-Bounded max base m m' (requests s) b = rw (set_status-sent s m.row) b
Move-Bounded max base m m' (scans ok) b = scan_turn-Bounded base ok m.scan m refl b
Move-Bounded max base m m' (writes ok e w) b = inl (λ h. cc)
Move-Bounded max base m m' (cleans_up ok) (inl a) =
    inl (next_ending-After ok m.ending m.pipe m.row a)
Move-Bounded max base m m' (cleans_up ok) (inr b) = inr (rw (clean_row-sent ok m.ending m.row) b)

-- Whatever the order of the events, and however the scans fail: until the pipe is cleaned up, the
-- messages that the row says were sent since the pipe began, those that a scan has taken and not
-- written, and those that the pipe still holds, are together at most those that were sent.
pub run-Bounded :
    (max : ℕ) (es : List Event) (c : Campaign)
    → let m = run max es (first c) in
      (m.ending ≢ waits)
      ⊎ (m.row.sent + held m.scan + m.pipe.sent ≤ c.sent + m.counted) × (seen m.scan ≤ m.pipe.sent)
unfolding first fresh_pipe
run-Bounded max es c =
    run-invariant max (Bounded c.sent) (Move-Bounded max c.sent) es (first c)
      (inr (omega arith, omega arith))
