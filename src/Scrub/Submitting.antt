-- ===== src/Scrub/Submitting.antt =====
-- The submission of a list's addresses: submitScrubListValidation of cmd/scrub_batch.go.
use listnun.Prelude.{
  ℕ, ◌+◌, ◌≡◌, refl, sym, ap, ◌∙◌, Bool, true, false, none, some, List, [], ◌∷◌, ◌++◌, arith,
  length, length-append, All, Text,
}
use mathlib.Core.List.{append-nil, append_assoc}
use listnun.Scrub.{
  scrub_batch_max_emails, chunk_emails, Submission, not_recorded, refused, accepted, Job, no_job,
  submit_scrub_batch, submit_chunks, if_ok, clean_job, submit_scrub_list_validation,
}
use listnun.Scrub.Chunks.{concat, Sized, chunk_emails_lem}

-- The usage that the answer brings is written.
abbrev pub Counted : Submission → Type 0
Counted (accepted count updated counted) = (counted ≡ true)
Counted _ = Unit

-- What the submission of chunks leaves of a job.
abbrev After : Job → List (List Text) → Job × Bool → Type 0
After j cs (k, true) =
    (k.billed ≡ k.charged)
    × (k.total_batches ≡ j.total_batches)
    × (k.sent ≡ j.sent ++ cs)
    × (length k.batches ≡ length j.batches + length cs)
After j cs (k, false) = (k.billed ≡ k.charged)

submit_scrub_batch-After :
    (s : Submission) (c : List Text) (j : Job)
    → Counted s
    → j.billed ≡ j.charged
    → After j (c ∷ []) (submit_scrub_batch true s c j)
unfolding submit_scrub_batch
submit_scrub_batch-After not_recorded c j h b = b
submit_scrub_batch-After (refused true) c j h b = b
submit_scrub_batch-After (refused false) c j h b = b
submit_scrub_batch-After (accepted count updated counted) c j h b =
    rw h (omega arith, refl, refl, omega (arith, length-append j.batches (_ ∷ [])))

After-next :
    (c : List Text) (cs : List (List Text)) (j : Job) (f : Job → Job × Bool)
    → ((k : Job) → k.billed ≡ k.charged → After k cs (f k))
    → (r : Job × Bool) → After j (c ∷ []) r
    → After j (c ∷ cs) (if_ok r f)
After-next c cs j f rec (k, false) a = a
After-next c cs j f rec (k, true) (b, t, s, n) = go (f k) (rec k b)
  where
    go : (r : Job × Bool) → After k cs r → After j (c ∷ cs) r
    go (l, false) a = a
    go (l, true) (b', t', s', n') =
        (b', t' ∙ t, s' ∙ (ap (λ x. x ++ cs) s ∙ append_assoc j.sent (c ∷ []) cs), omega arith)

submit_chunks-After :
    (answers : ℕ → Submission)
    → ((i : ℕ) → Counted (answers i))
    → (cs : List (List Text)) (i : ℕ) (j : Job) → j.billed ≡ j.charged
    → After j cs (submit_chunks true answers i cs j)
unfolding submit_chunks
submit_chunks-After answers h [] i j b = (b, refl, sym (append-nil j.sent), omega arith)
submit_chunks-After answers h (c ∷ cs) i j b =
    After-next c cs j (submit_chunks true answers (i + 1) cs)
      (λ k q. submit_chunks-After answers h cs (i + 1) k q)
      (submit_scrub_batch true (answers i) c j) (submit_scrub_batch-After (answers i) c j (h i) b)

-- What a submission of the addresses `es` leaves: without an error, all of them were sent in chunks
-- within Scrub's limit and the job has a batch for each chunk; with one, the job is gone.
abbrev pub Complete : List Text → Job × Bool → Type 0
Complete es (j, true) =
    (concat j.sent ≡ es)
    × All (Sized scrub_batch_max_emails) j.sent
    × (length j.batches ≡ length j.sent)
    × (j.total_batches ≡ some (length j.sent))
    × (j.billed ≡ j.charged)
Complete es (j, false) = (j.total_batches ≡ none) × (j.batches ≡ []) × (j.billed ≡ j.charged)

-- When Scrub is configured, the usage of each chunk that Scrub takes is written, and the row of a
-- failed job is deleted: whatever else fails, either no error is returned, and then the chunks sent
-- hold all addresses in order, none more than 30,000, and the job has a batch for each and waits for
-- that many; or the job and its batches are gone. The tenant is billed what Scrub charges in both
-- cases.
pub submit_scrub_list_validation-Complete :
    (inserts : Bool) (answers : ℕ → Submission) (es : List Text)
    → ((i : ℕ) → Counted (answers i))
    → Complete es (submit_scrub_list_validation true inserts true answers es)
unfolding submit_scrub_list_validation
submit_scrub_list_validation-Complete false answers es h = (refl, refl, refl)
submit_scrub_list_validation-Complete true answers es h =
    go (submit_chunks true answers 0 chunks job) (submit_chunks-After answers h chunks 0 job refl)
  where
    chunks : List (List Text)
    chunks = chunk_emails es scrub_batch_max_emails

    job : Job
    job = record no_job { total_batches = some (length chunks) }

    go : (r : Job × Bool) → After job chunks r → Complete es (clean_job true r)
    go (k, false) b = (refl, refl, b)
    go (k, true) (b, t, s, n) =
        let (all, sized) = chunk_emails_lem es 29999 in rw s (all, sized, omega arith, t, b)
