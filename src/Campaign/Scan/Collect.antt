-- ===== src/Campaign/Scan/Collect.antt =====
-- What getCurrentCampaigns of internal/manager/manager.go collects of each campaign.
use listnun.Prelude.{
  ℕ, ◌≡◌, refl, ap, sym, ◌∙◌, inl, inr, Bool, true, false, Option, none, some, List, [], ◌∷◌, ◌++◌,
  arith, length-append, if◌then◌else◌, ◌==◌, ==_iff, ◌&&◌, Bool-cases, length,
}
use listnun.Campaign.Scan.{
  Running, CurrentIds, push, group_of, put_group, add_pipe, collect, count_for, rows_of,
}

pub or_else : Option ℕ → Option ℕ → Option ℕ
or_else none o = o
or_else (some n) o = some n

-- The count that the pipe of a tenant's campaign holds.
pub pending : ℕ → ℕ → List Running → Option ℕ
pending t i [] = none
pending t i (p ∷ ps) =
    let rest = pending t i ps in if p.tenant_id == t && p.id == i then some p.sent else rest

Even : CurrentIds → Type 0
Even g = length (rows_of g.ids) ≡ length (rows_of g.counts)

unfoldable pub found : ℕ → CurrentIds → Option ℕ
found i g = count_for i (rows_of g.ids) (rows_of g.counts)

rows_of-push : (o : Option (List ℕ)) (n : ℕ) → rows_of (push o n) ≡ rows_of o ++ (n ∷ [])
rows_of-push none n = refl
rows_of-push (some ns) n = refl

or_else-none : (o : Option ℕ) → or_else o none ≡ o
unfolding or_else
or_else-none none = refl
or_else-none (some n) = refl

if_some : Bool → ℕ → Option ℕ
if_some b n = if b then some n else none

count_for-append :
    (i x n : ℕ) (xs ns : List ℕ)
    → length xs ≡ length ns
    → count_for i (xs ++ (x ∷ [])) (ns ++ (n ∷ []))
      ≡ or_else (count_for i xs ns) (if_some (x == i) n)
unfolding count_for or_else if_some
count_for-append i x n [] [] h = refl
count_for-append i x n [] (m ∷ ns) h = absurd (omega arith)
count_for-append i x n (y ∷ xs) [] h = absurd (omega arith)
count_for-append i x n (y ∷ xs) (m ∷ ns) h = elim (Bool-cases (y == i)) [
  | inl e ↦ rw e refl
  | inr e ↦ rw e (count_for-append i x n xs ns (omega arith))
]

add_pipe-Even : (p : Running) (g : CurrentIds) → Even g → Even (add_pipe p g)
unfolding Even
add_pipe-Even p g h =
    rw (rows_of-push g.ids p.id, rows_of-push g.counts p.sent)
      (omega (
        arith,
        h,
        length-append (rows_of g.ids) (p.id ∷ []),
        length-append (rows_of g.counts) (p.sent ∷ []),
      ))

add_pipe-found :
    (i : ℕ) (p : Running) (g : CurrentIds)
    → Even g
    → found i (add_pipe p g) ≡ or_else (found i g) (if_some (p.id == i) p.sent)
unfolding Even found
add_pipe-found i p g h =
    rw (rows_of-push g.ids p.id, rows_of-push g.counts p.sent)
      (count_for-append i p.id p.sent (rows_of g.ids) (rows_of g.counts) h)

group_of-put_group :
    (t k : ℕ) (g : CurrentIds) (out : List (ℕ × CurrentIds))
    → group_of t (put_group k g out) ≡ (if k == t then g else group_of t out)
unfolding group_of put_group
group_of-put_group t k g [] = refl
group_of-put_group t k g ((x, h) ∷ out) = elim (Bool-cases (x == k)) [
  | inl e ↦ rw e (same (x == t) (k == t) (ap (λ y. y == t) ((==_iff x k).0 e)))
  | inr e ↦
      rw (e, group_of-put_group t k g out) (other (x == t) (k == t) (λ a b. absurd (ground arith)))
]
  where
    same :
        (a b : Bool)
        → a ≡ b
        → (if a then g else group_of t out) ≡ (if b then g else if a then h else group_of t out)
    same true true p = refl
    same false false p = refl
    same true false p = cc
    same false true p = cc

    other :
        (a b : Bool)
        → (a ≡ true → b ≡ true → ⊥)
        → (if a then h else if b then g else group_of t out)
          ≡ (if b then g else if a then h else group_of t out)
    other true true p = absurd (p refl refl)
    other true false p = refl
    other false b p = refl

EvenGroups : List (ℕ × CurrentIds) → Type 0
EvenGroups out = (t : ℕ) → Even (group_of t out)

put_group-EvenGroups :
    (k : ℕ) (g : CurrentIds) (out : List (ℕ × CurrentIds))
    → Even g
    → EvenGroups out
    → EvenGroups (put_group k g out)
unfolding EvenGroups
put_group-EvenGroups k g out h all t = rw (group_of-put_group t k g out) (go (k == t))
  where
    go : (b : Bool) → Even (if b then g else group_of t out)
    go true = h
    go false = all t

-- What the loop finds for a tenant's campaign: what was there, or its first pipe's count.
collect-found :
    (t i : ℕ) (ps : List Running) (out : List (ℕ × CurrentIds))
    → EvenGroups out
    → found i (group_of t (collect ps out)) ≡ or_else (found i (group_of t out)) (pending t i ps)
unfolding collect pending or_else if_some EvenGroups
collect-found t i [] out h = sym (or_else-none (found i (group_of t out)))
collect-found t i (p ∷ ps) out h =
    collect-found t i ps next
      (put_group-EvenGroups p.tenant_id _ out (add_pipe-Even p _ (h p.tenant_id)) h)
    ∙ ap (λ o. or_else o (pending t i ps)) (ap (found i) (group_of-put_group t p.tenant_id _ out))
    ∙ go (p.tenant_id == t) (λ e. (==_iff p.tenant_id t).0 e)
  where
    next : List (ℕ × CurrentIds)
    next = put_group p.tenant_id (add_pipe p (group_of p.tenant_id out)) out

    step :
        (o : Option ℕ) (b : Bool)
        → or_else (or_else o (if_some b p.sent)) (pending t i ps)
          ≡ or_else o (if b then some p.sent else pending t i ps)
    step none true = refl
    step none false = refl
    step (some n) b = refl

    go :
        (b : Bool)
        → (b ≡ true → p.tenant_id ≡ t)
        → or_else
            (found i (if b then add_pipe p (group_of p.tenant_id out) else group_of t out))
            (pending t i ps)
          ≡ or_else
              (found i (group_of t out))
              (if b && p.id == i then some p.sent else pending t i ps)
    go false e = refl
    go true e =
        rw (add_pipe-found i p (group_of p.tenant_id out) (h p.tenant_id), e refl)
          (step (found i (group_of t out)) (p.id == i))

pub current-found :
    (t i : ℕ) (ps : List Running) → found i (group_of t (collect ps [])) ≡ pending t i ps
unfolding EvenGroups Even group_of pending or_else found count_for
current-found t i ps = collect-found t i ps [] none-Even ∙ none-found
  where
    none-Even : EvenGroups []
    none-Even t = refl

    none-found : or_else (found i (group_of t [])) (pending t i ps) ≡ pending t i ps
    none-found = refl
