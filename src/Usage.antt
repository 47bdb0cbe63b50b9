-- ===== src/Usage.antt =====
-- The usage meter: internal/usage/usage.go, whose counters are what tenants are billed by.
pub mod Ledger
mod Examples
use listnun.Prelude.{
  ℕ, zero, suc, ◌+◌, ◌*◌, ◌/◌, Bool, true, false, ◌&&◌, ◌||◌, Option, none, some, List, [], ◌∷◌,
  ◌++◌, ltb, ◌==◌, if◌then◌else◌, Text, text_eq,
}

pub record Key : Type 0 where
  pub tenant_id : ℕ
  pub kind : Text
  pub bucket : ℕ

unfoldable pub key_eq : Key → Key → Bool
key_eq j k = j.tenant_id == k.tenant_id && (text_eq j.kind k.kind && j.bucket == k.bucket)

-- A counter of a map, or an increment: Row.
pub record Row : Type 0 where
  pub key : Key
  pub count : ℕ

-- `counters[k] += n`
unfoldable pub bump : Key → ℕ → List Row → List Row
bump k n [] = record { key = k; count = n } ∷ []
bump k n (r ∷ rs) =
    let rest = bump k n rs in
    if key_eq r.key k then record { key = r.key; count = r.count + n } ∷ rs else r ∷ rest

-- The loops that add a batch's rows to counters: AddUsage's, and the one that puts a batch back.
unfoldable pub bump_all : List Row → List Row → List Row
bump_all [] m = m
bump_all (r ∷ rs) m = bump_all rs (bump r.key r.count m)

-- The seconds of BucketSize, and Truncate.
abbrev pub bucket_of : ℕ → ℕ
bucket_of now = now / 3600 * 3600

-- The meter, the batches that calls of Flush are writing, and the table usage_counters.
pub record Meter : Type 0 where
  pub pending : List Row
  pub flying : List (List Row)
  pub stored : List Row

-- Add. The tenant 0 and the count 0 stand for those below 1.
unfoldable pub add_usage : ℕ → ℕ → Text → ℕ → Meter → Meter
add_usage now tenant kind n m = if ltb tenant 1 || ltb n 1 then m else record m {
  pending = bump (record { tenant_id = tenant; kind = kind; bucket = bucket_of now }) n m.pending;
}

abbrev pub take_rows : List Row → Meter → Meter
take_rows [] m = m
take_rows (r ∷ rs) m = record m { pending = []; flying = m.flying ++ ((r ∷ rs) ∷ []) }

-- Flush up to its call of AddUsage: takes what is pending.
unfoldable pub take_batch : Meter → Meter
take_batch m = take_rows m.pending m

-- One of the batches that are being written, and the others.
unfoldable pub pull : ℕ → List (List Row) → Option (List Row × List (List Row))
pull i [] = none
pull zero (b ∷ bs) = some (b, bs)
pull (suc i) (b ∷ bs) = elim (pull i bs) [ none ↦ none | some p ↦ some (p.0, b ∷ p.1) ]

abbrev pub settle_batch : Bool → Option (List Row × List (List Row)) → Meter → Meter
settle_batch ok none m = m
settle_batch true (some p) m = record m { flying = p.1; stored = bump_all p.0 m.stored }
settle_batch false (some p) m = record m { flying = p.1; pending = bump_all p.0 m.pending }

-- Flush from the result of AddUsage on.
unfoldable pub end_flush : ℕ → Bool → Meter → Meter
end_flush i ok m = settle_batch ok (pull i m.flying) m

pub data Event : Type 0 where
  adds : (now : ℕ) → (tenant : ℕ) → (kind : Text) → (n : ℕ) → Event
  takes : Event
  ends : (i : ℕ) → (ok : Bool) → Event

unfoldable pub step : Event → Meter → Meter
step (adds now tenant kind n) m = add_usage now tenant kind n m
step takes m = take_batch m
step (ends i ok) m = end_flush i ok m

unfoldable pub run : List Event → Meter → Meter
run [] m = m
run (e ∷ es) m = run es (step e m)

abbrev pub new_meter : Meter
new_meter = record { pending = []; flying = []; stored = [] }
