-- ===== src/Replies/Tokens.antt =====
-- Decoding a reply token.
use listnun.Prelude.{
  ℕ, zero, suc, ◌+◌, ◌-◌, ◌/◌, ◌^◌, ◌<◌, ◌≤◌, ◌≡◌, refl, ap, sym, false, ◌||◌, some, List, [], ◌∷◌,
  ◌++◌, All, All-append, Text, text_eq_refl, ltb, leb, lt→ltb, ltb→lt, ◌==◌, length, length-append,
  arith, Bool-cases, inl, inr,
}
use mathlib.Core.List.{append-nil}
use listnun.Replies.{
  Ref, put_uvarint, get_uvarint, encode_group, encode_bytes, take, drop, symbol, value_of, lower,
  upper, values_of, Codec, payload, map_codes, encode, third, second, read_ref, verify, decode,
}
use listnun.Replies.Coding.{get_uvarint-put, decode_symbols-encode}

abbrev pub IsByte : ℕ → Type 0
IsByte b = b < 256

put_uvarint-IsByte : (f x : ℕ) → All IsByte (put_uvarint f x)
unfolding put_uvarint
put_uvarint-IsByte zero x = (omega arith, tt)
put_uvarint-IsByte (suc f) x = elim (Bool-cases (ltb x 128)) [
  | inl s ↦ rw (s, put_uvarint) (ground arith, tt)
  | inr s ↦ rw (s, put_uvarint) (omega arith, put_uvarint-IsByte f (x / 128))
]

payload-IsByte : (r : Ref) → All IsByte (payload r)
unfolding payload
payload-IsByte r =
    All-append IsByte (put_uvarint 9 r.tenant_id) _ (put_uvarint-IsByte 9 r.tenant_id) (
      All-append IsByte (put_uvarint 9 r.campaign_id) _ (put_uvarint-IsByte 9 r.campaign_id)
        (put_uvarint-IsByte 9 r.subscriber_id))

take-append : (p m : List ℕ) → take (length p) (p ++ m) ≡ p
take-append [] [] = refl
take-append [] (x ∷ m) = refl
take-append (x ∷ p) m = ap (λ l. x ∷ l) (take-append p m)

drop-append : (p m : List ℕ) → drop (length p) (p ++ m) ≡ m
drop-append [] m = refl
drop-append (x ∷ p) m = drop-append p m

-- A symbol of an encoding in lower case.
small_symbol : (v : ℕ) → v < 26 → lower (symbol v) ≡ v + 97
unfolding lower symbol
small_symbol v h = rw (lt→ltb v 26 h) (ground arith)

large_symbol : (v : ℕ) → 26 ≤ v → v < 32 → lower (symbol v) ≡ v + 24
unfolding lower symbol
large_symbol v l h = rw (ltb-false v l) (ground arith)
  where
    ltb-false : (v : ℕ) → 26 ≤ v → ltb v 26 ≡ false
    ltb-false v l = ground arith

-- It is printable, is no line end, and has its value in upper case.
abbrev Reads : ℕ → ℕ → Type 0
Reads v c =
    ((33 ≤ c) × (c ≤ 126))
    × (value_of (upper c) ≡ some v)
    × ((upper c == 10 || upper c == 13) ≡ false)

symbol-Reads : (v : ℕ) → v < 32 → Reads v (lower (symbol v))
unfolding value_of upper
symbol-Reads v h = elim (Bool-cases (ltb v 26)) [
  | inl s ↦
      rw (small_symbol v (ltb→lt v 26 s)) ((omega arith, ground arith), ground arith, ground arith)
  | inr s ↦
      rw (large_symbol v (ground arith) h)
        ((ground arith, ground arith), ground arith, ground arith)
]

abbrev IsSymbol : ℕ → Type 0
IsSymbol v = v < 32

encode_bytes-IsSymbol : (bytes : List ℕ) → All IsByte bytes → All IsSymbol (encode_bytes bytes)
unfolding encode_bytes encode_group
encode_bytes-IsSymbol [] h = tt
encode_bytes-IsSymbol (a ∷ []) h = ground arith
encode_bytes-IsSymbol (a ∷ b ∷ []) h = ground arith
encode_bytes-IsSymbol (a ∷ b ∷ c ∷ []) h = ground arith
encode_bytes-IsSymbol (a ∷ b ∷ c ∷ d ∷ []) h = ground arith
encode_bytes-IsSymbol (a ∷ b ∷ c ∷ d ∷ e ∷ rest) h =
    let ih = encode_bytes-IsSymbol rest h.1.1.1.1.1 in ground arith

values_of-symbols :
    (vs : List ℕ)
    → All IsSymbol vs
    → values_of (map_codes upper (map_codes (λ v. lower (symbol v)) vs)) ≡ some vs
unfolding values_of
values_of-symbols [] h = refl
values_of-symbols (v ∷ vs) h =
    let (p, e, l) = symbol-Reads v h.0 in rw (l, e, values_of-symbols vs h.1) refl

abbrev pub Printable : ℕ → Type 0
Printable c = (33 ≤ c) × (c ≤ 126)

symbols-Printable :
    (vs : List ℕ) → All IsSymbol vs → All Printable (map_codes (λ v. lower (symbol v)) vs)
symbols-Printable [] h = tt
symbols-Printable (v ∷ vs) h = ((symbol-Reads v h.0).0, symbols-Printable vs h.1)

nonzero : (t c : ℕ) → 1 ≤ t → 1 ≤ c → (t == 0 || c == 0) ≡ false
nonzero t c ht hc = ground arith

read_ref-payload :
    (r : Ref)
    → 1 ≤ r.tenant_id
    → 1 ≤ r.campaign_id
    → r.tenant_id < 2 ^ 64
    → r.campaign_id < 2 ^ 64
    → r.subscriber_id < 2 ^ 64
    → read_ref (get_uvarint 10 (payload r)) ≡ some r
unfolding read_ref second third payload
read_ref-payload r t c ht hc hs =
    rw
      (
        get_uvarint-put 9 r.tenant_id _ ht,
        get_uvarint-put 9 r.campaign_id _ hc,
        sym (append-nil (put_uvarint 9 r.subscriber_id)),
        get_uvarint-put 9 r.subscriber_id [] hs,
      )
      (rw (nonzero r.tenant_id r.campaign_id t c) refl)

put_uvarint-long : (f x : ℕ) → 1 ≤ length (put_uvarint f x)
unfolding put_uvarint
put_uvarint-long zero x = omega arith
put_uvarint-long (suc f) x = elim (Bool-cases (ltb x 128)) [
  | inl s ↦ rw (s, put_uvarint) (omega arith)
  | inr s ↦ rw (s, put_uvarint) (omega arith)
]

payload-long : (r : Ref) → 1 ≤ length (payload r)
unfolding payload
payload-long r = omega (
  arith,
  put_uvarint-long 9 r.tenant_id,
  length-append (put_uvarint 9 r.tenant_id)
      (put_uvarint 9 r.campaign_id ++ put_uvarint 9 r.subscriber_id),
)

verify-signed :
    (c : Codec) (p : List ℕ)
    → 1 ≤ length p
    → length (c.mac p) ≡ 7
    → All IsByte (p ++ c.mac p)
    → verify c (some (encode_bytes (p ++ c.mac p))) ≡ read_ref (get_uvarint 10 p)
unfolding verify
verify-signed c p l m b =
    rw
      (
        decode_symbols-encode (p ++ c.mac p) b,
        long,
        start,
        take-append p (c.mac p),
        drop-append p (c.mac p),
        text_eq_refl (c.mac p),
      )
      refl
  where
    long : leb (length (p ++ c.mac p)) 7 ≡ false
    long = ground (arith, length-append p (c.mac p))

    start : length (p ++ c.mac p) - 7 ≡ length p
    start = omega (arith, length-append p (c.mac p), m)

-- For a MAC that is always seven bytes long, and functions that only change the case of printable
-- ASCII text: a token decodes to the message that it was made of, when the tenant and the campaign
-- are not zero and no ID is above 64 bits.
pub decode-encode :
    (c : Codec) (r : Ref)
    → ((t : Text) → All Printable t → c.to_upper (c.trim_space t) ≡ map_codes upper t)
    → ((bytes : List ℕ) → (length (c.mac bytes) ≡ 7) × All IsByte (c.mac bytes))
    → 1 ≤ r.tenant_id
    → 1 ≤ r.campaign_id
    → r.tenant_id < 2 ^ 64
    → r.campaign_id < 2 ^ 64
    → r.subscriber_id < 2 ^ 64
    → decode c (encode c r) ≡ some r
unfolding decode encode
decode-encode c r hu hm t k ht hk hs =
    let p = payload r in
    let bytes = All-append IsByte p (c.mac p) (payload-IsByte r) (hm p).1 in
    let vs = encode_bytes-IsSymbol (p ++ c.mac p) bytes in
    rw
      (
        hu (encode c r) (symbols-Printable _ vs),
        values_of-symbols _ vs,
        verify-signed c p (payload-long r) (hm p).0 bytes,
      )
      (read_ref-payload r t k ht hk hs)
