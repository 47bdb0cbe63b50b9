-- ===== src/Campaign/Sliding.antt =====
-- The sliding window of NextSubscribers (internal/manager/pipe.go), which limits how many messages
-- are pushed in a time. Only Run's goroutine uses it. Times are in one unit.
use listnun.Prelude.{
  ℕ, ◌+◌, ◌-◌, ◌≤◌, ◌<◌, ◌≡◌, refl, Bool, List, [], ◌∷◌, ltb, leb, if◌then◌else◌, arith, ◌⊎◌, inl,
  ◌&&◌,
}

-- SlidingWindow, SlidingWindowRate, SlidingWindowDuration and the length of a second.
pub record Config : Type 0 where
  pub enabled : Bool
  pub rate : ℕ
  pub duration : ℕ
  pub second : ℕ

-- hasSliding
unfoldable pub has_sliding : Config → Bool
has_sliding c = c.enabled && ltb 0 c.rate && ltb c.second c.duration

-- slidingStart and slidingCount, with the time. `pushed` records the messages since the clock was
-- last reset, with the one at which it was.
pub record Window : Type 0 where
  pub now : ℕ
  pub start : ℕ
  pub count : ℕ
  pub pushed : ℕ

-- The reset of the clock, `lag` after the time was read.
unfoldable pub reset : ℕ → Window → Window
reset lag w = record w { now = w.now + lag; start = w.now + lag; count = 0; pushed = 1 }

-- The count, and the sleep for what was left of the window when the time was read.
unfoldable pub count_message : Config → ℕ → Window → Window
count_message c diff w =
    if leb c.rate (w.count + 1)
    then record w { now = w.now + (c.duration - diff); count = 0 }
    else record w { count = w.count + 1 }

unfoldable pub slide_from : Config → ℕ → ℕ → Window → Window
slide_from c diff lag w =
    count_message c diff
      (if leb c.duration diff then reset lag w else record w { pushed = w.pushed + 1 })

-- One message, pushed `gap` after the one before.
unfoldable pub slide : Config → ℕ → ℕ → Window → Window
slide c gap lag w = slide_from c (w.now + gap - w.start) lag (record w { now = w.now + gap })

-- The messages that are pushed one after the other.
unfoldable pub slide_all : Config → List (ℕ × ℕ) → Window → Window
slide_all c [] w = w
slide_all c ((gap, lag) ∷ rest) w = slide_all c rest (slide c gap lag w)

-- The window of a new manager.
unfoldable pub first_window : ℕ → Window
first_window t = record { now = t; start = t; count = 0; pushed = 0 }

-- Below the limit every message is counted; at the limit the window is over when the sleep ends.
abbrev Limited : Config → Window → Type 0
Limited c w =
    (w.start ≤ w.now)
    × (((w.pushed ≡ w.count) × (w.count < c.rate))
        ⊎ (w.pushed ≤ c.rate) × (w.start + c.duration ≤ w.now))

slide-Limited :
    (c : Config) (gap lag : ℕ) (w : Window)
    → 2 ≤ c.rate
    → Limited c w
    → Limited c (slide c gap lag w)
unfolding slide slide_from count_message reset
slide-Limited c gap lag w h (o, l) = ground arith

slide_all-Limited :
    (c : Config) (ms : List (ℕ × ℕ)) (w : Window)
    → 2 ≤ c.rate
    → Limited c w
    → Limited c (slide_all c ms w)
unfolding slide_all
slide_all-Limited c [] w h l = l
slide_all-Limited c ((gap, lag) ∷ rest) w h l =
    slide_all-Limited c rest (slide c gap lag w) h (slide-Limited c gap lag w h l)

slide-window :
    (c : Config) (gap lag : ℕ) (w : Window)
    → 2 ≤ c.rate
    → Limited c w
    → let w' = slide c gap lag w in
      (w'.pushed ≤ c.rate)
      × (((w'.start ≡ w.start) × (w'.pushed ≡ w.pushed + 1))
          ⊎ (w.start + c.duration ≤ w'.start) × (w'.pushed ≡ 1))
unfolding slide slide_from count_message reset
slide-window c gap lag w h (o, l) = ground arith

-- With a limit of two messages or more: after every sequence of messages, however much time passes
-- between them, the next message either belongs to the same window, which then has at most as many
-- messages as the limit, or begins a window at least the duration after the one before.
pub slide_all-window :
    (c : Config) (ms : List (ℕ × ℕ)) (t gap lag : ℕ)
    → 2 ≤ c.rate
    → let w = slide_all c ms (first_window t) in
      let w' = slide c gap lag w in
      (w'.pushed ≤ c.rate)
      × (((w'.start ≡ w.start) × (w'.pushed ≡ w.pushed + 1))
          ⊎ (w.start + c.duration ≤ w'.start) × (w'.pushed ≡ 1))
unfolding first_window
slide_all-window c ms t gap lag h =
    slide-window c gap lag _ h
      (slide_all-Limited c ms (first_window t) h (omega arith, inl (refl, omega (arith, h))))
