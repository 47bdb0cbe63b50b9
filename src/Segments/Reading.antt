-- ===== src/Segments/Reading.antt =====
-- A reader of SQL, and the texts of internal/segments/segments.go that mean nothing to it.
use listnun.Prelude.{
  ℕ, zero, suc, ◌+◌, ◌/◌, ◌%◌, ◌≤◌, ◌<◌, ◌≡◌, refl, ap, ◌∙◌, Bool, true, false, [], ◌∷◌, ◌++◌,
  arith, if◌then◌else◌, ltb, ◌==◌, Text,
}
use listnun.Segments.{Env, digits, digits_from, is_digit}

-- Where a reader of SQL stands: outside literals below some open parentheses, inside a literal, or
-- past the end of the statement or of the parenthesis that the condition stands in.
pub data Place : Type 0 where
  out quoted : (depth : ℕ) → Place
  broken : Place

abbrev close_one : ℕ → Place
close_one zero = broken
close_one (suc d) = out d

-- One byte: a quote, parentheses, and the semicolon that ends a statement. A doubled quote leaves a
-- literal and enters it again.
abbrev pub read_byte : ℕ → Place → Place
read_byte c (out d) =
    if c == 39
    then quoted d
    else if c == 40
    then out (suc d)
    else if c == 41
    then close_one d
    else if c == 59
    then broken
    else out d
read_byte c (quoted d) = if c == 39 then out d else quoted d
read_byte c broken = broken

unfoldable pub read : Text → Place → Place
read [] p = p
read (c ∷ s) p = read s (read_byte c p)

pub read-append : (s t : Text) (p : Place) → read (s ++ t) p ≡ read t (read s p)
unfolding read
read-append [] t p = refl
read-append (c ∷ s) t p = read-append s t (read_byte c p)

-- A text that a reader leaves where it entered, whatever parentheses are open.
unfoldable pub Closed : Text → Type 0
Closed s = (d : ℕ) → read s (out d) ≡ out d

-- What pq.QuoteLiteral promises: its result is one literal.
unfoldable pub Quotes : Env → Type 0
Quotes env = (v : Text) → Closed (env.quote v)

pub via : (s t : Text) (x : Place) {y z : Place} → read s x ≡ y → read t y ≡ z → read (s ++ t) x ≡ z
via s t x p q = read-append s t x ∙ ap (read t) p ∙ q

-- A text of bytes that mean nothing to the reader, inside or outside a literal.
unfoldable pub Plain : Text → Type 0
Plain s = (p : Place) → read s p ≡ p

-- A byte that is none of the four.
pub Neutral : ℕ → Type 0
Neutral c = (p : Place) → read_byte c p ≡ p

pub Plain-cons : (c : ℕ) (s : Text) → Neutral c → Plain s → Plain (c ∷ s)
unfolding Plain Neutral read
Plain-cons c s n h p = ap (read s) (n p) ∙ h p

pub Plain-nil : Plain []
unfolding Plain read
Plain-nil p = refl

pub digit-Neutral : (c : ℕ) → 44 ≤ c → c < 58 → Neutral c
unfolding Neutral
digit-Neutral c lo hi (out d) = ground arith
digit-Neutral c lo hi (quoted d) = ground arith
digit-Neutral c lo hi broken = refl

digits_from-Plain : (fuel n : ℕ) (s : Text) → Plain s → Plain (digits_from fuel n s)
unfolding digits_from
digits_from-Plain zero n s h = h
digits_from-Plain (suc fuel) n s h = go (ltb n 10) (digits_from-Plain fuel (n / 10) _ digit)
  where
    digit : Plain ((48 + n % 10) ∷ s)
    digit = Plain-cons _ s (digit-Neutral (48 + n % 10) (omega arith) (omega arith)) h

    go :
        (b : Bool)
        → Plain (digits_from fuel (n / 10) ((48 + n % 10) ∷ s))
        → Plain (if b then (48 + n % 10) ∷ s else digits_from fuel (n / 10) ((48 + n % 10) ∷ s))
    go true rest = digit
    go false rest = rest

pub digits-Plain : (n : ℕ) → Plain (digits n)
unfolding digits
digits-Plain n = digits_from-Plain 20 n [] Plain-nil

pub is_digit-Neutral : (c : ℕ) → is_digit c ≡ true → Neutral c
is_digit-Neutral c h = digit-Neutral c (ground arith) (ground arith)
