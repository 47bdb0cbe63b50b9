-- ===== src/Scrub.antt =====
-- The validation of a list's addresses by the service Scrub: ChunkEmails and AggregateBatches of
-- internal/scrub/batching.go with submitScrubBatch and submitScrubListValidation of
-- cmd/scrub_batch.go. The state is that of one job.
pub mod Chunks
pub mod Submitting
pub mod Progressing
mod Examples
use listnun.Prelude.{
  ℕ, zero, suc, ◌+◌, Bool, true, false, ◌||◌, Option, none, some, List, [], ◌∷◌, ◌++◌, length,
  if◌then◌else◌, ◌==◌, Text, text_eq, codes,
}

abbrev pub scrub_batch_max_emails : ℕ
scrub_batch_max_emails = 30000

abbrev pub take_emails : ℕ → List Text → List Text
take_emails zero es = []
take_emails (suc n) [] = []
take_emails (suc n) (e ∷ es) = e ∷ take_emails n es

abbrev pub drop_emails : ℕ → List Text → List Text
drop_emails zero es = es
drop_emails (suc n) [] = []
drop_emails (suc n) (e ∷ es) = drop_emails n es

-- The loop over the starts of the chunks; `fuel` bounds their number.
unfoldable pub chunks_from : ℕ → ℕ → List Text → List (List Text)
chunks_from zero size es = []
chunks_from (suc fuel) size [] = []
chunks_from (suc fuel) size (e ∷ es) =
    take_emails size (e ∷ es) ∷ chunks_from fuel size (drop_emails size (e ∷ es))

unfoldable pub chunk_emails : List Text → ℕ → List (List Text)
chunk_emails es size = chunks_from (length es) size es

-- A row of scrub_validation_batches.
pub record Batch : Type 0 where
  pub status : Text
  pub submitted_count : ℕ
  pub validated_count : ℕ
  pub invalid_count : ℕ

pub record Progress : Type 0 where
  pub completed : ℕ
  pub submitted : ℕ
  pub validated : ℕ
  pub invalid : ℕ

abbrev pub is_terminal : Text → Bool
is_terminal status = text_eq status (codes "completed") || text_eq status (codes "failed")

unfoldable pub sum_batches : List Batch → Progress
sum_batches [] = record { completed = 0; submitted = 0; validated = 0; invalid = 0 }
sum_batches (b ∷ bs) =
    let rest = sum_batches bs in
    record {
      completed = if is_terminal b.status then rest.completed + 1 else rest.completed;
      submitted = rest.submitted + b.submitted_count;
      validated = rest.validated + b.validated_count;
      invalid = rest.invalid + b.invalid_count;
    }

unfoldable pub aggregate_batches : ℕ → List Batch → Progress × Bool
aggregate_batches total bs = (sum_batches bs, (sum_batches bs).completed == total)

-- What happens when a chunk is submitted: its row is not written, Scrub does not take it, and the row
-- may be deleted again, or Scrub takes `count` addresses; the row's update and the tenant's usage are
-- written or not.
pub data Submission : Type 0 where
  not_recorded : Submission
  refused : (deleted : Bool) → Submission
  accepted : (count : ℕ) → (updated counted : Bool) → Submission

-- The job's row, which holds the number of its chunks, its batches, the addresses that Scrub was sent,
-- what Scrub charges and what the tenant is billed.
pub record Job : Type 0 where
  pub total_batches : Option ℕ
  pub batches : List Batch
  pub sent : List (List Text)
  pub charged : ℕ
  pub billed : ℕ

abbrev pub pending_batch : ℕ → Batch
pending_batch n = record {
  status = codes "pending";
  submitted_count = n;
  validated_count = 0;
  invalid_count = 0;
}

-- The state after a submission, and whether it returns no error.
unfoldable pub submit_scrub_batch : Bool → Submission → List Text → Job → Job × Bool
submit_scrub_batch false answer chunk j = (j, true)
submit_scrub_batch true not_recorded chunk j = (j, false)
submit_scrub_batch true (refused true) chunk j = (j, false)
submit_scrub_batch true (refused false) chunk j =
    (record j { batches = j.batches ++ (pending_batch (length chunk) ∷ []) }, false)
submit_scrub_batch true (accepted count updated counted) chunk j = (
  record j {
    batches = j.batches ++ (pending_batch (if updated then count else length chunk) ∷ []);
    sent = j.sent ++ (chunk ∷ []);
    charged = j.charged + count;
    billed = if counted then j.billed + count else j.billed;
  },
  true,
)

abbrev pub if_ok {ℓ} : {A : Type ℓ} → A × Bool → (A → A × Bool) → A × Bool
if_ok (j, true) f = f j
if_ok (j, false) f = (j, false)

unfoldable pub submit_chunks : Bool → (ℕ → Submission) → ℕ → List (List Text) → Job → Job × Bool
submit_chunks configured answers i [] j = (j, true)
submit_chunks configured answers i (c ∷ cs) j =
    if_ok (submit_scrub_batch configured (answers i) c j)
      (submit_chunks configured answers (i + 1) cs)

-- The row's deletion takes the batches with it.
abbrev pub delete_job : Bool → Job → Job
delete_job false j = j
delete_job true j = record j { total_batches = none; batches = [] }

abbrev pub clean_job : Bool → Job × Bool → Job × Bool
clean_job deletes (j, true) = (j, true)
clean_job deletes (j, false) = (delete_job deletes j, false)

abbrev pub no_job : Job
no_job = record { total_batches = none; batches = []; sent = []; charged = 0; billed = 0 }

-- `inserts` and `deletes`: whether the job's row is written, and deleted when that is asked for.
unfoldable pub submit_scrub_list_validation :
    Bool → Bool → Bool → (ℕ → Submission) → List Text → Job × Bool
submit_scrub_list_validation configured false deletes answers es = (no_job, false)
submit_scrub_list_validation configured true deletes answers es =
    let chunks = chunk_emails es scrub_batch_max_emails in
    clean_job deletes (
      submit_chunks configured answers 0 chunks
        (record no_job { total_batches = some (length chunks) }))
