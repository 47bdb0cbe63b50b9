-- ===== src/Scrub/Examples.antt =====
-- Tests and worked cases of the validation of a list.
use listnun.Prelude.{
  ℕ, zero, suc, ◌≡◌, ◌↔◌, refl, arith, length, All, true, false, some, List, [], ◌∷◌, Text, codes,
  text_eq,
}
use listnun.Scrub.{
  Batch, aggregate_batches, sum_batches, Submission, accepted, refused, chunks_from, chunk_emails,
  submit_scrub_batch, submit_chunks, submit_scrub_list_validation, pending_batch,
}
use listnun.Scrub.Progressing.{Over, aggregate_batches_iff}
use listnun.Scrub.Submitting.{Counted, Complete, submit_scrub_list_validation-Complete}

abbrev addresses : List Text
addresses = codes "a@a.example" ∷ codes "b@a.example" ∷ codes "c@a.example" ∷ []

in_twos :
    chunk_emails addresses 2
    ≡ (codes "a@a.example" ∷ codes "b@a.example" ∷ []) ∷ (codes "c@a.example" ∷ []) ∷ []
unfolding chunk_emails chunks_from
in_twos = refl

-- Scrub takes all but one of the first chunk, and refuses later ones.
abbrev one_short : ℕ → Submission
one_short zero = accepted 2 true true
one_short (suc i) = refused true

one_short-Counted : (i : ℕ) → Counted (one_short i)
one_short-Counted zero = refl
one_short-Counted (suc i) = tt

-- When the second chunk is refused the first has been billed.
second_refused :
    submit_chunks true one_short 0
      ((codes "a@a.example" ∷ codes "b@a.example" ∷ codes "c@a.example" ∷ []) ∷ [] ∷ [])
      (record { total_batches = some 2; batches = []; sent = []; charged = 0; billed = 0 })
    ≡ (
      record {
        total_batches = some 2;
        batches = pending_batch 2 ∷ [];
        sent = addresses ∷ [];
        charged = 2;
        billed = 2;
      },
      false,
    )
unfolding submit_chunks submit_scrub_batch
second_refused = refl

submit_scrub_list_validation-Complete_example :
    Complete addresses (submit_scrub_list_validation true true true one_short addresses)
submit_scrub_list_validation-Complete_example =
    submit_scrub_list_validation-Complete true one_short addresses one_short-Counted

-- A callback that has all of a job's batches, one of them failed, and one that misses a batch.
abbrev failed_batch : Batch
failed_batch = record {
  status = codes "failed";
  submitted_count = 3;
  validated_count = 1;
  invalid_count = 0;
}

all_over : (aggregate_batches 1 (failed_batch ∷ [])).1 ≡ true
unfolding aggregate_batches sum_batches text_eq
all_over = refl

one_missing : (aggregate_batches 2 (failed_batch ∷ [])).1 ≡ false
unfolding aggregate_batches sum_batches text_eq
one_missing = refl

aggregate_batches_iff_example :
    ((aggregate_batches 2 (failed_batch ∷ [])).1 ≡ true)
    ↔ ((length (failed_batch ∷ []) ≡ 2) × All Over (failed_batch ∷ []))
aggregate_batches_iff_example = aggregate_batches_iff 2 (failed_batch ∷ []) (omega arith)
