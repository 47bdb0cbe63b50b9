-- ===== src/Scrub/Chunks.antt =====
-- The chunks of a list of addresses: ChunkEmails of internal/scrub/batching.go.
use listnun.Prelude.{
  ℕ, zero, suc, ◌≤◌, ◌<◌, ◌≡◌, refl, ap, ◌∙◌, List, [], ◌∷◌, ◌++◌, arith, length, All, Text,
}
use listnun.Scrub.{take_emails, drop_emails, chunks_from, chunk_emails}

abbrev pub concat : List (List Text) → List Text
concat [] = []
concat (c ∷ cs) = c ++ concat cs

abbrev pub Sized : ℕ → List Text → Type 0
Sized size c = (0 < length c) × (length c ≤ size)

take_drop : (n : ℕ) (es : List Text) → take_emails n es ++ drop_emails n es ≡ es
take_drop zero es = refl
take_drop (suc n) [] = refl
take_drop (suc n) (e ∷ es) = ap (λ x. e ∷ x) (take_drop n es)

length-take : (n : ℕ) (es : List Text) → length (take_emails n es) ≤ n
length-take zero es = omega arith
length-take (suc n) [] = omega arith
length-take (suc n) (e ∷ es) = omega (arith, length-take n es)

length-drop : (n : ℕ) (es : List Text) → length (drop_emails n es) ≤ length es
length-drop zero es = omega arith
length-drop (suc n) [] = omega arith
length-drop (suc n) (e ∷ es) = omega (arith, length-drop n es)

chunks_from_lem :
    (fuel n : ℕ) (es : List Text)
    → length es ≤ fuel
    → (concat (chunks_from fuel (suc n) es) ≡ es)
      × All (Sized (suc n)) (chunks_from fuel (suc n) es)
unfolding chunks_from
chunks_from_lem zero n [] h = (refl, tt)
chunks_from_lem zero n (e ∷ es) h = absurd (omega arith)
chunks_from_lem (suc fuel) n [] h = (refl, tt)
chunks_from_lem (suc fuel) n (e ∷ es) h =
    let (all, sized) =
      chunks_from_lem fuel n (drop_emails n es) (omega (arith, length-drop n es)) in
    (
      ap (λ x. e ∷ (take_emails n es ++ x)) all ∙ ap (λ x. e ∷ x) (take_drop n es),
      ((omega arith, omega (arith, length-take n es)), sized),
    )

-- The chunks hold all addresses in their order, and each has an address and at most the size given.
pub chunk_emails_lem :
    (es : List Text) (n : ℕ)
    → (concat (chunk_emails es (suc n)) ≡ es) × All (Sized (suc n)) (chunk_emails es (suc n))
unfolding chunk_emails
chunk_emails_lem es n = chunks_from_lem (length es) n es (omega arith)
