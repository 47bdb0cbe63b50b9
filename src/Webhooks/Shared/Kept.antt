-- ===== src/Webhooks/Shared/Kept.antt =====
-- How the statements of queries/webhooks.sql keep predicates on the rows and on the held jobs.
use listnun.Prelude.{
  ℕ, zero, suc, ◌+◌, ◌≤◌, ◌<◌, ◌≡◌, refl, ◌≢◌, ◌⊎◌, inl, inr, Bool, true, false, ◌&&◌, Option, none,
  some, List, [], ◌∷◌, ◌++◌, arith, All, ◌==◌, if◌then◌else◌, Bool-cases, length, get_elem?,
  All-imp, All-append, Text, contains,
}
use listnun.Webhooks.{Delivery, Endpoint, Job, is_in, job_of, jobs_in, prune, enqueue}
use listnun.Webhooks.Rows.{Consistent}
use listnun.Webhooks.Selection.{Unique}
use listnun.Webhooks.Shared.{Held, drop_at, hold, cascade}

if-All :
    (P : Delivery → Type 0) (b : Bool) (d : Delivery) (ds : List Delivery)
    → P d
    → All P ds
    → All P (if b then ds else d ∷ ds)
if-All P true d ds p h = h
if-All P false d ds p h = (p, h)

if-Unique :
    (b : Bool) (d : Delivery) (ds : List Delivery)
    → All (λ e. e.id ≢ d.id) ds
    → Unique ds
    → Unique (if b then ds else d ∷ ds)
if-Unique true d ds n u = u
if-Unique false d ds n u = (n, u)

pub prune-All :
    (P : Delivery → Type 0) (cutoff : ℕ) (ds : List Delivery) → All P ds → All P (prune cutoff ds)
unfolding prune
prune-All P cutoff [] h = tt
prune-All P cutoff (d ∷ ds) (p, h) = if-All P _ d (prune cutoff ds) p (prune-All P cutoff ds h)

pub prune-Unique : (cutoff : ℕ) (ds : List Delivery) → Unique ds → Unique (prune cutoff ds)
unfolding prune
prune-Unique cutoff [] u = tt
prune-Unique cutoff (d ∷ ds) (n, u) =
    if-Unique _ d (prune cutoff ds) (prune-All _ cutoff ds n) (prune-Unique cutoff ds u)

pub cascade-All :
    (P : Delivery → Type 0) (e : ℕ) (ds : List Delivery) → All P ds → All P (cascade e ds)
unfolding cascade
cascade-All P e [] h = tt
cascade-All P e (d ∷ ds) (p, h) =
    if-All P (d.endpoint_id == e) d (cascade e ds) p (cascade-All P e ds h)

pub cascade-Unique : (e : ℕ) (ds : List Delivery) → Unique ds → Unique (cascade e ds)
unfolding cascade
cascade-Unique e [] u = tt
cascade-Unique e (d ∷ ds) (n, u) =
    if-Unique (d.endpoint_id == e) d (cascade e ds) (cascade-All _ e ds n) (cascade-Unique e ds u)

-- What holds of the rows that a message's event adds from the id `i` on.
abbrev pub New : ℕ → ℕ → Delivery → Type 0
New i n d = (i ≤ d.id) × (d.id < i + n) × Consistent d

pub enqueue-New :
    (i now : ℕ) (event : Text) (es : List Endpoint)
    → All (New i (length (enqueue i now event es))) (enqueue i now event es)
unfolding enqueue
enqueue-New i now event [] = tt
enqueue-New i now event (e ∷ es) = elim (Bool-cases (e.enabled && contains e.events event)) [
  | inl b ↦ rw b (
    (omega arith, omega arith, refl),
    All-imp _ _ (λ d h. (omega (arith, h.0), omega (arith, h.1), h.2))
        (enqueue (i + 1) now event es) (enqueue-New (i + 1) now event es),
  )
  | inr b ↦ rw b (enqueue-New i now event es)
]

pub enqueue-Unique :
    (i now : ℕ) (event : Text) (es : List Endpoint) → Unique (enqueue i now event es)
unfolding enqueue
enqueue-Unique i now event [] = tt
enqueue-Unique i now event (e ∷ es) = elim (Bool-cases (e.enabled && contains e.events event)) [
  | inl b ↦ rw b (
    All-imp _ _ (λ d h q. absurd (omega (arith, h.0))) (enqueue (i + 1) now event es)
        (enqueue-New (i + 1) now event es),
    enqueue-Unique (i + 1) now event es,
  )
  | inr b ↦ rw b (enqueue-Unique i now event es)
]

pub Unique-append :
    (i : ℕ) (ds es : List Delivery)
    → Unique ds
    → All (λ d. d.id < i) ds
    → Unique es
    → All (λ d. i ≤ d.id) es
    → Unique (ds ++ es)
Unique-append i [] es u l v g = v
Unique-append i (d ∷ ds) es (n, u) (l, ls) v g = (
  All-append _ ds es n (All-imp _ _ (λ e h q. absurd (omega (arith, h))) es g),
  Unique-append i ds es u ls v g,
)

-- A predicate of the held jobs is one of those that are left, and of the one that is sent.
pub drop_at-All : (P : Held → Type 0) (i : ℕ) (hs : List Held) → All P hs → All P (drop_at i hs)
unfolding drop_at
drop_at-All P i [] h = tt
drop_at-All P zero (x ∷ xs) h = h.1
drop_at-All P (suc i) (x ∷ xs) h = (h.0, drop_at-All P i xs h.1)

abbrev pub IfSome : (Held → Type 0) → Option Held → Type 0
IfSome P none = Unit
IfSome P (some h) = P h

pub get_elem?-IfSome :
    (P : Held → Type 0) (i : ℕ) (hs : List Held) → All P hs → IfSome P (get_elem? hs i)
get_elem?-IfSome P i [] h = tt
get_elem?-IfSome P zero (x ∷ xs) h = h.0
get_elem?-IfSome P (suc i) (x ∷ xs) h = get_elem?-IfSome P i xs h.1

pub hold-All :
    (P : Held → Type 0) (until : ℕ) (js : List Job)
    → All (λ j. P (record { job = j; until = until })) js
    → All P (hold until js)
unfolding hold
hold-All P until [] h = tt
hold-All P until (j ∷ js) h = (h.0, hold-All P until js h.1)

pub jobs_in-All :
    (P : Job → Type 0) (ids : List ℕ) (ds : List Delivery)
    → All (λ d. (is_in d.id ids ≡ false) ⊎ P (job_of d)) ds
    → All P (jobs_in ids ds)
unfolding jobs_in
jobs_in-All P ids [] h = tt
jobs_in-All P ids (d ∷ ds) (h, hs) = elim (Bool-cases (is_in d.id ids)) [
  | inl e ↦ rw e (own h e, jobs_in-All P ids ds hs)
  | inr e ↦ rw e (jobs_in-All P ids ds hs)
]
  where
    own : (is_in d.id ids ≡ false) ⊎ P (job_of d) → is_in d.id ids ≡ true → P (job_of d)
    own (inl q) e = cc
    own (inr p) e = p
