-- ===== src/Replies/Coding.antt =====
-- Decoding an encoding: varints and base32.
use listnun.Prelude.{
  ℕ, zero, suc, ◌+◌, ◌*◌, ◌/◌, ◌%◌, ◌<◌, ◌≡◌, refl, ap, false, some, List, [], ◌∷◌, ◌++◌, All, ltb,
  arith, Bool-cases, inl, inr,
}
use listnun.Replies.{
  put_uvarint, get_uvarint, encode_group, encode_bytes, decode_group, decode_symbols,
}

-- What fits in one byte more than the given number.
abbrev pub bound : ℕ → ℕ
bound zero = 2
bound (suc f) = 128 * bound f

continued : (x : ℕ) → ltb (x % 128 + 128) 128 ≡ false
continued x = ground arith

pub get_uvarint-put :
    (f x : ℕ) (rest : List ℕ)
    → x < bound f
    → get_uvarint (suc f) (put_uvarint f x ++ rest) ≡ some (x, rest)
unfolding get_uvarint put_uvarint
get_uvarint-put zero x rest h = ground arith
get_uvarint-put (suc f) x rest h = elim (Bool-cases (ltb x 128)) [
  | inl s ↦ rw (s, put_uvarint, get_uvarint) (rw s (ground arith))
  | inr s ↦
      rw (s, put_uvarint, get_uvarint, continued x)
        (rw (get_uvarint-put f (x / 128) rest (omega (arith, h)))
          (ap (λ n. some (n, rest)) (omega arith)))
]

first_byte : (a b : ℕ) → a < 256 → b < 256 → a / 8 * 8 % 256 + (a % 8 * 4 + b / 64) / 4 ≡ a
first_byte a b ha hb = omega (arith, ha, hb)

second_byte :
    (a b c : ℕ)
    → b < 256
    → c < 256
    → (a % 8 * 4 + b / 64) * 64 % 256 + b / 2 % 32 * 2 + (b % 2 * 16 + c / 16) / 16 ≡ b
second_byte a b c hb hc = omega (arith, hb, hc)

third_byte :
    (b c d : ℕ)
    → c < 256
    → d < 256
    → (b % 2 * 16 + c / 16) * 16 % 256 + (c % 16 * 2 + d / 128) / 2 ≡ c
third_byte b c d hc hd = omega (arith, hc, hd)

fourth_byte :
    (c d e : ℕ)
    → d < 256
    → e < 256
    → (c % 16 * 2 + d / 128) * 128 % 256 + d / 4 % 32 * 4 + (d % 4 * 8 + e / 32) / 8 ≡ d
fourth_byte c d e hd he = omega (arith, hd, he)

fifth_byte : (d e : ℕ) → e < 256 → (d % 4 * 8 + e / 32) * 32 % 256 + e % 32 ≡ e
fifth_byte d e he = omega (arith, he)

small : 0 < 256
small = omega arith

pub decode_symbols-encode :
    (bytes : List ℕ) → All (λ b. b < 256) bytes → decode_symbols (encode_bytes bytes) ≡ bytes
unfolding decode_symbols encode_bytes encode_group decode_group
decode_symbols-encode [] h = refl
decode_symbols-encode (a ∷ []) (ha, h) = rw (first_byte a 0 ha small) refl
decode_symbols-encode (a ∷ b ∷ []) (ha, (hb, h)) =
    rw (first_byte a b ha hb, second_byte a b 0 hb small) refl
decode_symbols-encode (a ∷ b ∷ c ∷ []) (ha, (hb, (hc, h))) =
    rw (first_byte a b ha hb, second_byte a b c hb hc, third_byte b c 0 hc small) refl
decode_symbols-encode (a ∷ b ∷ c ∷ d ∷ []) (ha, (hb, (hc, (hd, h)))) =
    rw
      (
        first_byte a b ha hb,
        second_byte a b c hb hc,
        third_byte b c d hc hd,
        fourth_byte c d 0 hd small,
      )
      refl
decode_symbols-encode (a ∷ b ∷ c ∷ d ∷ e ∷ rest) (ha, (hb, (hc, (hd, (he, h))))) =
    rw
      (
        first_byte a b ha hb,
        second_byte a b c hb hc,
        third_byte b c d hc hd,
        fourth_byte c d e hd he,
        fifth_byte d e he,
        decode_symbols-encode rest h,
      )
      refl
