-- ===== src/Bounces/Threshold.antt =====
-- A subscriber whose bounces are counted until the blocklisting.
use listnun.Prelude.{
  ℕ, zero, suc, ◌+◌, ◌≤◌, ◌<◌, ◌≡◌, refl, sym, ap, ◌∙◌, ◌⊎◌, true, false, Option, some, List, [],
  ◌∷◌, map, arith, filter, filter-map, Bool-cases, ==_iff, if◌then◌else◌, ◌==◌, ltb, leb, text_eq,
  text_eq_refl, codes, inl, inr,
}
use listnun.Bounces.{
  SubscriberRow, SubscriberStatus, Db, Bounce, BounceAction, Actions, bounce_action, is_the_one,
  matches, block, row_for, apply_action, record_for, record_found, is_bounce_type, record_with,
  record_bounce, record_times, count_of, is_blocklisted,
}

abbrev pub after_block : SubscriberRow → SubscriberRow
after_block s = record s { status = SubscriberStatus.blocklisted }

-- The bounce finds one subscriber, who has `k` bounces of its type.
abbrev pub Found : Bounce → SubscriberRow → ℕ → Db → Type 0
Found b s k db =
    (filter (matches b) db.subscribers ≡ s ∷ []) × (count_of s.id b.bounce_type db.bounces ≡ k)

abbrev pub blocklists_at : ℕ → BounceAction
blocklists_at c = record { count = c; action = codes "blocklist" }

matches-block : (b : Bounce) (i : ℕ) (s : SubscriberRow) → matches b (block i s) ≡ matches b s
unfolding matches is_the_one
matches-block b i s = elim (Bool-cases (s.id == i)) [ inl e ↦ rw e refl | inr e ↦ rw e refl ]

found-block :
    (b : Bounce) (s : SubscriberRow) (ss : List SubscriberRow)
    → filter (matches b) ss ≡ s ∷ []
    → filter (matches b) (map (block s.id) ss) ≡ after_block s ∷ []
found-block b s ss h =
    filter-map (matches b) (block s.id) (matches-block b s.id) ss
    ∙ (ap (map (block s.id)) h ∙ rw ((==_iff s.id s.id).1 refl) refl)

count-row :
    (b : Bounce) (s : SubscriberRow) (db : Db) (k : ℕ)
    → count_of s.id b.bounce_type db.bounces ≡ k
    → count_of s.id b.bounce_type (row_for b s db.campaigns ∷ db.bounces) ≡ k + 1
unfolding count_of
count-row b s db k h = rw (h, (==_iff s.id s.id).1 refl, text_eq_refl b.bounce_type) refl

leb-above : (c n : ℕ) → n < c → leb c n ≡ false
leb-above c n h = ground arith

leb-reached : (c n : ℕ) → n ≡ c → leb c n ≡ true
leb-reached c n h = ground arith

ltb-above : (c n : ℕ) → n ≤ c → ltb c n ≡ false
ltb-above c n h = ground arith

ltb-below : (n c : ℕ) → n < c → ltb n c ≡ true
ltb-below n c h = ground arith

-- The statement, by whether the subscriber is blocklisted and the new count.
stays :
    (b : Bounce) (c k : ℕ) (s : SubscriberRow) (db : Db)
    → Found b (after_block s) k db
    → Found b (after_block s) k (record_found b (blocklists_at c) (after_block s ∷ []) db).0
unfolding record_found record_for apply_action text_eq
stays b c k s db h = elim (Bool-cases (leb c (count_of s.id b.bounce_type db.bounces + 1))) [
  | inl e ↦ rw e h
  | inr e ↦ rw e h
]

counts :
    (b : Bounce) (c k : ℕ) (s : SubscriberRow) (db : Db)
    → is_blocklisted s.status ≡ false
    → k + 1 < c
    → Found b s k db
    → Found b s (k + 1) (record_found b (blocklists_at c) (s ∷ []) db).0
unfolding record_found record_for apply_action text_eq
counts b c k s db free below (f, n) =
    rw (n, free, leb-above c (k + 1) below, ltb-above c (k + 1) (omega arith))
      (f, count-row b s db k n)

blocks :
    (b : Bounce) (c k : ℕ) (s : SubscriberRow) (db : Db)
    → is_blocklisted s.status ≡ false
    → k + 1 ≡ c
    → Found b s k db
    → Found b (after_block s) (k + 1) (record_found b (blocklists_at c) (s ∷ []) db).0
unfolding record_found record_for apply_action text_eq
blocks b c k s db free reached (f, n) =
    rw (n, free, leb-reached c (k + 1) reached, ltb-above c (k + 1) (omega arith))
      (found-block b s db.subscribers f, count-row b s db k n)

module _ (settings : ℕ → Option Actions) (defaults : Actions) (b : Bounce) (c : ℕ)
    (s : SubscriberRow)
    (act : bounce_action settings defaults b.tenant_id b.bounce_type ≡ some (blocklists_at c))
    (typ : is_bounce_type b.bounce_type ≡ true) where
  record_bounce-found :
      (x : SubscriberRow) (k : ℕ) (db : Db)
      → Found b x k db
      → (record_bounce settings defaults b db).0 ≡ (record_found b (blocklists_at c) (x ∷ []) db).0
  unfolding record_bounce record_with
  record_bounce-found x k db h = rw (act, typ, h.0) refl

  next_found :
      (n : ℕ) (db : Db)
      → is_blocklisted s.status ≡ false
      → ((n < c) × Found b s n db) ⊎ ((c ≤ n) × Found b (after_block s) c db)
      → ((suc n < c) × Found b s (suc n) (record_bounce settings defaults b db).0)
        ⊎ ((c ≤ suc n) × Found b (after_block s) c (record_bounce settings defaults b db).0)
  next_found n db free (inr (h, f)) =
      inr (omega arith, rw (record_bounce-found (after_block s) c db f) (stays b c c s db f))
  next_found n db free (inl (h, f)) = elim (Bool-cases (ltb (n + 1) c)) [
    | inl e ↦ inl (
      ground arith,
      rw (record_bounce-found s n db f) (
          let found = counts b c n s db free (ground arith) f in
          let same : n + 1 ≡ suc n = omega arith in (found.0, found.1 ∙ same)),
    )
    | inr e ↦
        let q : n + 1 ≡ c = ground arith in
        inr (
          omega arith,
          rw (record_bounce-found s n db f, sym q) (blocks b (n + 1) n s db free refl f),
        )
  ]

  found_times :
      (n : ℕ) (db : Db)
      → 0 < c
      → is_blocklisted s.status ≡ false
      → Found b s 0 db
      → ((n < c) × Found b s n (record_times settings defaults b n db))
        ⊎ ((c ≤ n) × Found b (after_block s) c (record_times settings defaults b n db))
  unfolding record_times
  found_times zero db h free f = inl (h, f)
  found_times (suc n) db h free f =
      next_found n (record_times settings defaults b n db) free (found_times n db h free f)

  -- A subscriber who is not blocklisted, has no bounce of the type of `b` and is the only one whom `b`
  -- finds: when `b` has come in `n` times, and the action for it is to blocklist at `c` bounces, where
  -- `c` is not 0, it still finds that one subscriber, unchanged below `c` times and blocklisted from
  -- `c` times on, and `n` bounces of the type are stored, but never more than `c`.
  pub record_times-threshold :
      (n : ℕ) (db : Db)
      → 0 < c
      → is_blocklisted s.status ≡ false
      → filter (matches b) db.subscribers ≡ s ∷ []
      → count_of s.id b.bounce_type db.bounces ≡ 0
      → (filter (matches b) (record_times settings defaults b n db).subscribers
          ≡ (if ltb n c then s else after_block s) ∷ [])
        × (count_of s.id b.bounce_type (record_times settings defaults b n db).bounces
            ≡ (if ltb n c then n else c))
  record_times-threshold n db h free f k = elim (found_times n db h free (f, k)) [
    | inl (l, q) ↦ rw (ltb-below n c l) q
    | inr (l, q) ↦ rw (ltb-above n c l) q
  ]
