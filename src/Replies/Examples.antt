-- ===== src/Replies/Examples.antt =====
-- A codec whose MAC is the same for every message.
use listnun.Prelude.{◌≡◌, refl, some, [], ◌∷◌, codes, arith}
use listnun.Replies.{Ref, Codec, Addresser, encode, decode, lower, upper, map_codes}
use listnun.Replies.Tokens.{decode-encode}

abbrev codec : Codec
codec = record {
  mac = λ bytes. 1 ∷ 2 ∷ 3 ∷ 4 ∷ 5 ∷ 6 ∷ 255 ∷ [];
  to_upper = map_codes upper;
  to_lower = map_codes lower;
  trim_space = λ t. t;
}

abbrev message : Ref
message = record { tenant_id = 3; campaign_id = 200; subscriber_id = 70000 }

decode-encode_example : decode codec (encode codec message) ≡ some message
decode-encode_example =
    decode-encode codec message (λ t h. refl) (λ b. (refl, ground arith)) (omega arith)
      (omega arith) (omega arith) (omega arith) (omega arith)

abbrev addresser : Addresser
addresser = record { codec = codec; local = codes "Hash"; domain = codes "in.example" }
