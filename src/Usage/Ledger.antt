-- ===== src/Usage/Ledger.antt =====
-- That internal/usage/usage.go neither loses nor doubles a count.
use listnun.Prelude.{
  ℕ, zero, suc, ◌+◌, ◌≡◌, refl, ap, inl, inr, Bool, true, false, ◌||◌, Option, none, some, List, [],
  ◌∷◌, ◌++◌, arith, ltb, ==_iff, if◌then◌else◌, Bool-cases, and_parts, Text, text_eq_iff,
}
use listnun.Usage.{
  Key, key_eq, Row, bump, bump_all, bucket_of, Meter, add_usage, take_batch, pull, settle_batch,
  end_flush, take_rows, Event, adds, takes, ends, step, run, new_meter,
}

-- The counts of a key in a list of counters.
pub total : Key → List Row → ℕ
total k [] = 0
total k (r ∷ rs) = (if key_eq r.key k then r.count else 0) + total k rs

pub total_all : Key → List (List Row) → ℕ
total_all k [] = 0
total_all k (b ∷ bs) = total k b + total_all k bs

-- What an event adds for a key: nothing below one, in the hour of the call.
pub added_by : Key → Event → ℕ
added_by k (adds now tenant kind n) =
    if ltb tenant 1 || ltb n 1
    then 0
    else if key_eq (record { tenant_id = tenant; kind = kind; bucket = bucket_of now }) k
    then n
    else 0
added_by k e = 0

pub added : Key → List Event → ℕ
added k [] = 0
added k (e ∷ es) = added_by k e + added k es

key_eq_sound : (j k : Key) → key_eq j k ≡ true → j ≡ k
unfolding key_eq
key_eq_sound j k h =
    let p = and_parts _ _ h in
    let q = and_parts _ _ p.1 in
    same j.tenant_id k.tenant_id j.kind k.kind j.bucket k.bucket ((==_iff _ _).0 p.0)
      ((text_eq_iff j.kind k.kind).0 q.0) ((==_iff _ _).0 q.1)
  where
    same :
        (a a' : ℕ) (s s' : Text) (b b' : ℕ)
        → a ≡ a'
        → s ≡ s'
        → b ≡ b'
        → ◌≡◌ {A = Key}
            (record { tenant_id = a; kind = s; bucket = b })
            (record { tenant_id = a'; kind = s'; bucket = b' })
    same a a' s s' b b' p q r = rw (p, q, r) refl

total-bump :
    (k j : Key) (n : ℕ) (rs : List Row)
    → total k (bump j n rs) ≡ total k rs + (if key_eq j k then n else 0)
unfolding total bump
total-bump k j n [] = omega arith
total-bump k j n (r ∷ rs) = elim (Bool-cases (key_eq r.key j)) [
  | inl e ↦ rw e (go (key_eq r.key k) (key_eq j k) (ap (λ x. key_eq x k) (key_eq_sound r.key j e)))
  | inr e ↦ rw e (omega (arith, total-bump k j n rs))
]
  where
    go :
        (a b : Bool)
        → a ≡ b
        → (if a then r.count + n else 0) + total k rs
          ≡ (if a then r.count else 0) + total k rs + (if b then n else 0)
    go true true h = omega arith
    go true false h = cc
    go false true h = cc
    go false false h = omega arith

total-bump_all : (k : Key) (b rs : List Row) → total k (bump_all b rs) ≡ total k rs + total k b
unfolding total bump_all
total-bump_all k [] rs = omega arith
total-bump_all k (r ∷ b) rs =
    omega (arith, total-bump_all k b (bump r.key r.count rs), total-bump k r.key r.count rs)

total_all-append :
    (k : Key) (bs : List (List Row)) (b : List Row)
    → total_all k (bs ++ (b ∷ [])) ≡ total_all k bs + total k b
unfolding total_all
total_all-append k [] b = omega arith
total_all-append k (c ∷ bs) b = omega (arith, total_all-append k bs b)

-- All that the meter and the table hold of a key.
pub held : Key → Meter → ℕ
held k m = total k m.stored + (total k m.pending + total_all k m.flying)

take_batch-held : (k : Key) (m : Meter) → held k (take_batch m) ≡ held k m
unfolding held take_batch total
take_batch-held k m = go m.pending
  where
    go :
        (p : List Row)
        → held k (take_rows p (record m { pending = p })) ≡ held k (record m { pending = p })
    go [] = refl
    go (r ∷ rs) = omega (arith, total_all-append k m.flying (r ∷ rs))

-- What pulling a batch leaves.
Pulled : Key → List (List Row) → Option (List Row × List (List Row)) → Type 0
Pulled k bs none = Unit
Pulled k bs (some p) = total_all k bs ≡ total k p.0 + total_all k p.1

pull-Pulled : (k : Key) (i : ℕ) (bs : List (List Row)) → Pulled k bs (pull i bs)
unfolding Pulled pull total_all
pull-Pulled k i [] = tt
pull-Pulled k zero (b ∷ bs) = refl
pull-Pulled k (suc i) (b ∷ bs) = go (pull i bs) (pull-Pulled k i bs)
  where
    go :
        (o : Option (List Row × List (List Row)))
        → Pulled k bs o
        → Pulled k (b ∷ bs) (elim o [ none ↦ none | some p ↦ some (p.0, b ∷ p.1) ])
    go none h = tt
    go (some p) h = omega arith

settle_batch-held :
    (k : Key) (ok : Bool) (o : Option (List Row × List (List Row))) (m : Meter)
    → Pulled k m.flying o
    → held k (settle_batch ok o m) ≡ held k m
unfolding held Pulled
settle_batch-held k ok none m h = refl
settle_batch-held k true (some p) m h = omega (arith, total-bump_all k p.0 m.stored)
settle_batch-held k false (some p) m h = omega (arith, total-bump_all k p.0 m.pending)

add_usage-held :
    (k : Key) (now tenant : ℕ) (kind : Text) (n : ℕ) (m : Meter)
    → held k (add_usage now tenant kind n m) ≡ held k m + added_by k (adds now tenant kind n)
unfolding add_usage added_by held
add_usage-held k now tenant kind n m = go (ltb tenant 1 || ltb n 1)
  where
    new : Key
    new = record { tenant_id = tenant; kind = kind; bucket = bucket_of now }

    go :
        (b : Bool)
        → held k (if b then m else record m { pending = bump new n m.pending })
          ≡ held k m + (if b then 0 else if key_eq new k then n else 0)
    go true = omega arith
    go false = omega (arith, total-bump k new n m.pending)

step-held : (k : Key) (e : Event) (m : Meter) → held k (step e m) ≡ held k m + added_by k e
unfolding step added_by end_flush
step-held k (adds now tenant kind n) m = add_usage-held k now tenant kind n m
step-held k takes m = omega (arith, take_batch-held k m)
step-held k (ends i ok) m =
    omega (arith, settle_batch-held k ok (pull i m.flying) m (pull-Pulled k i m.flying))

run-held-from : (k : Key) (es : List Event) (m : Meter) → held k (run es m) ≡ held k m + added k es
unfolding run added
run-held-from k [] m = omega arith
run-held-from k (e ∷ es) m = omega (arith, run-held-from k es (step e m), step-held k e m)

-- However calls of Add and of Flush interleave, and whichever writes fail, what the table, the
-- buffer and the batches under way hold of a tenant's hour is exactly what Add was given for it: no
-- count is lost and none is stored twice.
pub run-held :
    (k : Key) (es : List Event)
    → total k (run es new_meter).stored
        + (total k (run es new_meter).pending + total_all k (run es new_meter).flying)
      ≡ added k es
unfolding held total total_all
run-held k es = omega (arith, run-held-from k es new_meter)
