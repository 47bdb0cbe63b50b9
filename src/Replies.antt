-- ===== src/Replies.antt =====
-- The signed tokens of reply addresses (internal/replies/token.go), with the parts of Go's
-- encoding/binary and encoding/base32 that they use. A byte is a number below 256.
pub mod Coding
pub mod Tokens
pub mod Addresses
mod Examples
use listnun.Prelude.{
  ℕ, zero, suc, ◌+◌, ◌-◌, ◌*◌, ◌/◌, ◌%◌, Bool, true, false, not, ◌&&◌, ◌||◌, Option, none, some,
  List, [], ◌∷◌, ◌++◌, Text, text_eq, ltb, leb, ◌==◌, length, if◌then◌else◌,
}

abbrev pub mac_len : ℕ
mac_len = 7

pub record Ref : Type 0 where
  pub tenant_id : ℕ
  pub campaign_id : ℕ
  pub subscriber_id : ℕ

-- binary.AppendUvarint: the first argument is how many bytes may follow the first, 9 for 64 bits.
unfoldable pub put_uvarint : ℕ → ℕ → List ℕ
put_uvarint zero x = (x % 256) ∷ []
put_uvarint (suc f) x =
    let rest = put_uvarint f (x / 128) in if ltb x 128 then x ∷ [] else (x % 128 + 128) ∷ rest

abbrev pub shift : ℕ → Option (ℕ × List ℕ) → Option (ℕ × List ℕ)
shift b none = none
shift b (some (v, rest)) = some (b % 128 + 128 * v, rest)

-- binary.Uvarint: the value and the bytes after it; the first argument is how many bytes it may
-- still read, 10 at first, of which the last is at most 1.
unfoldable pub get_uvarint : ℕ → List ℕ → Option (ℕ × List ℕ)
get_uvarint zero bytes = none
get_uvarint (suc f) [] = none
get_uvarint (suc f) (b ∷ bytes) =
    let more = shift b (get_uvarint f bytes) in
    if ltb b 128 then (if f == 0 && ltb 1 b then none else some (b, bytes)) else more

-- The eight symbols of five bytes.
unfoldable pub encode_group : ℕ → ℕ → ℕ → ℕ → ℕ → List ℕ
encode_group a b c d e =
    (a / 8)
    ∷ (a % 8 * 4 + b / 64)
    ∷ (b / 2 % 32)
    ∷ (b % 2 * 16 + c / 16)
    ∷ (c % 16 * 2 + d / 128)
    ∷ (d / 4 % 32)
    ∷ (d % 4 * 8 + e / 32)
    ∷ (e % 32)
    ∷ []

abbrev pub take : ℕ → List ℕ → List ℕ
take zero xs = []
take (suc n) [] = []
take (suc n) (x ∷ xs) = x ∷ take n xs

-- Encoding.EncodeToString without padding, before the alphabet.
unfoldable pub encode_bytes : List ℕ → List ℕ
encode_bytes [] = []
encode_bytes (a ∷ []) = take 2 (encode_group a 0 0 0 0)
encode_bytes (a ∷ b ∷ []) = take 4 (encode_group a b 0 0 0)
encode_bytes (a ∷ b ∷ c ∷ []) = take 5 (encode_group a b c 0 0)
encode_bytes (a ∷ b ∷ c ∷ d ∷ []) = take 7 (encode_group a b c d 0)
encode_bytes (a ∷ b ∷ c ∷ d ∷ e ∷ rest) = encode_group a b c d e ++ encode_bytes rest

-- The five bytes of eight symbols.
unfoldable pub decode_group : ℕ → ℕ → ℕ → ℕ → ℕ → ℕ → ℕ → ℕ → List ℕ
decode_group s t u v w x y z =
    (s * 8 % 256 + t / 4)
    ∷ (t * 64 % 256 + u * 2 + v / 16)
    ∷ (v * 16 % 256 + w / 2)
    ∷ (w * 128 % 256 + x * 4 + y / 8)
    ∷ (y * 32 % 256 + z)
    ∷ []

-- Encoding.decode without padding, after the alphabet: a last group of 1, 3 or 6 symbols is left
-- out without an error.
unfoldable pub decode_symbols : List ℕ → List ℕ
decode_symbols (s ∷ t ∷ []) = take 1 (decode_group s t 0 0 0 0 0 0)
decode_symbols (s ∷ t ∷ u ∷ v ∷ []) = take 2 (decode_group s t u v 0 0 0 0)
decode_symbols (s ∷ t ∷ u ∷ v ∷ w ∷ []) = take 3 (decode_group s t u v w 0 0 0)
decode_symbols (s ∷ t ∷ u ∷ v ∷ w ∷ x ∷ y ∷ []) = take 4 (decode_group s t u v w x y 0)
decode_symbols (s ∷ t ∷ u ∷ v ∷ w ∷ x ∷ y ∷ z ∷ rest) =
    decode_group s t u v w x y z ++ decode_symbols rest
decode_symbols _ = []

-- The alphabet of base32.
unfoldable pub symbol : ℕ → ℕ
symbol v = if ltb v 26 then v + 65 else v + 24

unfoldable pub value_of : ℕ → Option ℕ
value_of c =
    if leb 65 c && leb c 90
    then some (c - 65)
    else (if leb 50 c && leb c 55 then some (c - 24) else none)

-- strings.ToLower, for the ASCII letters and digits of an encoding.
unfoldable pub lower : ℕ → ℕ
lower c = if leb 65 c && leb c 90 then c + 32 else c

-- strings.ToUpper, for ASCII.
unfoldable pub upper : ℕ → ℕ
upper c = if leb 97 c && leb c 122 then c - 32 else c

abbrev pub beside : Option ℕ → Option (List ℕ) → Option (List ℕ)
beside none vs = none
beside (some v) none = none
beside (some v) (some vs) = some (v ∷ vs)

-- The symbols of a text; line ends are passed over.
unfoldable pub values_of : Text → Option (List ℕ)
values_of [] = some []
values_of (c ∷ cs) =
    let vs = values_of cs in if c == 10 || c == 13 then vs else beside (value_of c) vs

-- Codec. `mac` is its method mac, an HMAC with the codec's key that is cut off; `to_upper`,
-- `to_lower` and `trim_space` are the functions of package strings, which read Unicode's tables.
pub record Codec : Type 0 where
  pub mac : List ℕ → List ℕ
  pub to_upper : Text → Text
  pub to_lower : Text → Text
  pub trim_space : Text → Text

unfoldable pub payload : Ref → List ℕ
payload r =
    put_uvarint 9 r.tenant_id ++ (put_uvarint 9 r.campaign_id ++ put_uvarint 9 r.subscriber_id)

abbrev pub map_codes : (ℕ → ℕ) → List ℕ → List ℕ
map_codes f [] = []
map_codes f (x ∷ xs) = f x ∷ map_codes f xs

-- Codec.Encode
unfoldable pub encode : Codec → Ref → Text
encode c r = map_codes (λ v. lower (symbol v)) (encode_bytes (payload r ++ c.mac (payload r)))

abbrev pub drop : ℕ → List ℕ → List ℕ
drop zero xs = xs
drop (suc n) [] = []
drop (suc n) (x ∷ xs) = drop n xs

-- The loop over the three IDs. An ID is kept as the uint64 that is read, which Go converts to an
-- int.
unfoldable pub third : ℕ → ℕ → Option (ℕ × List ℕ) → Option Ref
third t c none = none
third t c (some (s, x ∷ rest)) = none
third t c (some (s, [])) =
    if t == 0 || c == 0
    then none
    else some (record { tenant_id = t; campaign_id = c; subscriber_id = s })

unfoldable pub second : ℕ → Option (ℕ × List ℕ) → Option Ref
second t none = none
second t (some (c, rest)) = third t c (get_uvarint 10 rest)

unfoldable pub read_ref : Option (ℕ × List ℕ) → Option Ref
read_ref none = none
read_ref (some (t, rest)) = second t (get_uvarint 10 rest)

unfoldable pub verify : Codec → Option (List ℕ) → Option Ref
verify c none = none
verify c (some vs) =
    let raw = decode_symbols vs in
    let n = length raw - mac_len in
    if leb (length raw) mac_len
    then none
    else (if text_eq (drop n raw) (c.mac (take n raw))
        then read_ref (get_uvarint 10 (take n raw))
        else none)

-- Codec.Decode; `none` is ErrInvalidToken.
unfoldable pub decode : Codec → Text → Option Ref
decode c token = verify c (values_of (c.to_upper (c.trim_space token)))

-- strings.Cut at a byte: what is before the first, and what is after it if there is one.
unfoldable pub cut : ℕ → Text → Text × Option Text
cut sep [] = ([], none)
cut sep (c ∷ cs) = let rest = cut sep cs in if c == sep then ([], some cs) else (c ∷ rest.0, rest.1)

-- The bytes @ and +.
abbrev pub at_sign : ℕ
at_sign = 64

abbrev pub plus : ℕ
plus = 43

pub record Addresser : Type 0 where
  pub codec : Codec
  pub local : Text
  pub domain : Text

-- strings.Contains for one byte.
unfoldable pub has_byte : ℕ → Text → Bool
has_byte b [] = false
has_byte b (c ∷ cs) = c == b || has_byte b cs

unfoldable pub addresser_of : Codec → Text × Option Text → Option Addresser
addresser_of c (local, none) = none
addresser_of c ([], some domain) = none
addresser_of c (x ∷ local, some []) = none
addresser_of c (x ∷ local, some (y ∷ domain)) =
    if has_byte plus (x ∷ local)
    then none
    else some (record { codec = c; local = x ∷ local; domain = y ∷ domain })

-- NewAddresser; `none` is its error.
unfoldable pub new_addresser : Codec → Text → Option Addresser
new_addresser c inbound = addresser_of c (cut at_sign (c.trim_space inbound))

-- Addresser.Address
unfoldable pub address : Addresser → Ref → Text
address a r = a.local ++ (plus ∷ (encode a.codec r ++ (at_sign ∷ a.domain)))

-- RecipientLocal
unfoldable pub recipient_local : Codec → Text → Text
recipient_local c addr = c.to_lower (cut plus (cut at_sign (c.trim_space addr)).0).0
