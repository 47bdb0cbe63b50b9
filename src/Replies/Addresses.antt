-- ===== src/Replies/Addresses.antt =====
-- The reply addresses and the local part that a reply is recognized by.
use listnun.Prelude.{
  ℕ, ◌≡◌, ◌≢◌, refl, ap, sym, ◌∙◌, true, false, Option, none, some, [], ◌∷◌, ◌++◌, Text, ◌==◌,
  arith, Bool-cases, inl, inr,
}
use mathlib.Core.List.{append-nil}
use listnun.Replies.{
  Ref, Codec, encode, cut, at_sign, plus, Addresser, has_byte, addresser_of, new_addresser, address,
  recipient_local,
}

-- Cutting a text at its first separator.
cut-here : (sep : ℕ) (t : Text) → (cut sep (sep ∷ t)).0 ≡ []
unfolding cut
cut-here sep t = rw (same sep) refl
  where
    same : (n : ℕ) → (n == n) ≡ true
    same n = ground arith

cut-append :
    (sep : ℕ) (s t : Text) → has_byte sep s ≡ false → (cut sep (s ++ t)).0 ≡ s ++ (cut sep t).0
unfolding cut has_byte
cut-append sep [] t h = refl
cut-append sep (c ∷ s) t h = elim (Bool-cases (c == sep)) [
  | inl e ↦ elim (clash (rw e at h)) [ ]
  | inr e ↦ rw (e, cut) (ap (λ l. c ∷ l) (cut-append sep s t (rw e at h)))
]
  where
    clash : true ≢ false
    clash h = cc

cut-first : (sep : ℕ) (s : Text) → has_byte sep (cut sep s).0 ≡ false
unfolding cut has_byte
cut-first sep [] = refl
cut-first sep (c ∷ s) = elim (Bool-cases (c == sep)) [
  | inl e ↦ rw (e, cut) refl
  | inr e ↦ rw (e, cut, has_byte) (rw e (cut-first sep s))
]

some-injective {ℓ} : {A : Type ℓ} {x y : A} → some x ≡ some y → x ≡ y
some-injective h = cc

-- The local part and the domain of an Addresser hold what NewAddresser tests.
addresser_of-local :
    (c : Codec) (local : Text) (d : Option Text) (a : Addresser)
    → addresser_of c (local, d) ≡ some a
    → (a.codec ≡ c) × (a.local ≡ local) × (has_byte plus local ≡ false)
unfolding addresser_of
addresser_of-local c local none a h = cc
addresser_of-local c [] (some d) a h = cc
addresser_of-local c (x ∷ local) (some []) a h = cc
addresser_of-local c (x ∷ local) (some (y ∷ domain)) a h =
    elim (Bool-cases (has_byte plus (x ∷ local))) [
      | inl e ↦ let h' : none ≡ some a = rw (e, addresser_of) at h in cc
      | inr e ↦
          let h' : some (record { codec = c; local = x ∷ local; domain = y ∷ domain }) ≡ some a =
            rw (e, addresser_of) at h in
          (
            ap (λ z. z.codec) (sym (some-injective h')),
            ap (λ z. z.local) (sym (some-injective h')),
            e,
          )
    ]

before_tag :
    (a : Addresser) (r : Ref)
    → has_byte at_sign a.local ≡ false
    → has_byte plus a.local ≡ false
    → (cut plus (cut at_sign (address a r)).0).0 ≡ a.local
unfolding address cut
before_tag a r n p =
    ap (λ s. (cut plus s).0) (cut-append at_sign a.local _ n)
    ∙ cut-append plus a.local _ p
    ∙ ap (λ l. a.local ++ l)
        (cut-here plus (cut at_sign (encode a.codec r ++ (at_sign ∷ a.domain))).0)
    ∙ append-nil a.local

-- A reply to an address that an Addresser made is recognized by the local part of the inbound
-- address, whatever message it is for, when the address has no space at its ends.
recipient_local-address :
    (c : Codec) (inbound : Text) (a : Addresser) (r : Ref)
    → new_addresser c inbound ≡ some a
    → c.trim_space (address a r) ≡ address a r
    → recipient_local c (address a r) ≡ c.to_lower a.local
unfolding recipient_local new_addresser
recipient_local-address c inbound a r h t =
    let l = cut at_sign (c.trim_space inbound) in
    let (k, e, p) = addresser_of-local c l.0 l.1 a h in
    ap (λ s. c.to_lower (cut plus (cut at_sign s).0).0) t
    ∙ ap c.to_lower (before_tag a r (rw e (cut-first at_sign (c.trim_space inbound))) (rw e p))
