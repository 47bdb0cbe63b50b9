-- ===== src/Webhooks/Address.antt =====
-- The addresses that webhook calls may reach: PublicIP and the dialer's Control of
-- internal/webhooks/webhooks.go, with the tests of package `net` that they use. An address is its
-- bytes, 4 or 16; a mask `b & 0xf0 == 16 * k` is `b / 16 == k`.
use listnun.Prelude.{
  ℕ, ◌+◌, ◌*◌, ◌/◌, ◌%◌, ◌^◌, ◌<◌, ◌≡◌, Bool, true, false, ◌&&◌, ◌||◌, not, Option, none, some, [],
  ◌∷◌, ◌++◌, arith, ◌==◌, if◌then◌else◌, text_eq, length, Text,
}

-- The four bytes of an IPv4 address.
pub record V4 : Type 0 where
  pub a : ℕ
  pub b : ℕ
  pub c : ℕ
  pub d : ℕ

-- The bytes that an IPv4-mapped address begins with.
abbrev pub mapped_prefix : Text
mapped_prefix = 0 ∷ 0 ∷ 0 ∷ 0 ∷ 0 ∷ 0 ∷ 0 ∷ 0 ∷ 0 ∷ 0 ∷ 255 ∷ 255 ∷ []

abbrev pub if_mapped : Bool → V4 → Option V4
if_mapped true v = some v
if_mapped false v = none

-- net.IP.To4
unfoldable pub to4 : Text → Option V4
to4 (a ∷ b ∷ c ∷ d ∷ []) = some (record { a = a; b = b; c = c; d = d })
to4 (p0 ∷ p1 ∷ p2 ∷ p3 ∷ p4 ∷ p5 ∷ p6 ∷ p7 ∷ p8 ∷ p9 ∷ p10 ∷ p11 ∷ a ∷ b ∷ c ∷ d ∷ []) =
    if_mapped
      (text_eq (p0 ∷ p1 ∷ p2 ∷ p3 ∷ p4 ∷ p5 ∷ p6 ∷ p7 ∷ p8 ∷ p9 ∷ p10 ∷ p11 ∷ []) mapped_prefix)
      (record { a = a; b = b; c = c; d = d })
to4 ip = none

abbrev pub zeros : Text
zeros = 0 ∷ 0 ∷ 0 ∷ 0 ∷ 0 ∷ 0 ∷ 0 ∷ 0 ∷ 0 ∷ 0 ∷ 0 ∷ 0 ∷ 0 ∷ 0 ∷ 0 ∷ []

-- The first bytes of an IPv6 address, as the tests read them.
abbrev pub first_two : (ℕ → ℕ → Bool) → Text → Bool
first_two f (x ∷ y ∷ rest) = (length rest == 14) && f x y
first_two f ip = false

-- net.IP.IsLoopback
abbrev pub is_loopback : Option V4 → Text → Bool
is_loopback (some v) ip = v.a == 127
is_loopback none ip = text_eq ip (zeros ++ (1 ∷ []))

-- net.IP.IsPrivate
abbrev pub is_private : Option V4 → Text → Bool
is_private (some v) ip = v.a == 10 || (v.a == 172 && v.b / 16 == 1 || v.a == 192 && v.b == 168)
is_private none ip = first_two (λ x y. x / 2 == 126) ip

-- net.IP.IsUnspecified
abbrev pub is_unspecified : Option V4 → Text → Bool
is_unspecified (some v) ip = v.a == 0 && (v.b == 0 && (v.c == 0 && v.d == 0))
is_unspecified none ip = text_eq ip (zeros ++ (0 ∷ []))

-- net.IP.IsLinkLocalUnicast
abbrev pub is_link_local_unicast : Option V4 → Text → Bool
is_link_local_unicast (some v) ip = v.a == 169 && v.b == 254
is_link_local_unicast none ip = first_two (λ x y. x == 254 && y / 64 == 2) ip

-- net.IP.IsLinkLocalMulticast
abbrev pub is_link_local_multicast : Option V4 → Text → Bool
is_link_local_multicast (some v) ip = v.a == 224 && (v.b == 0 && v.c == 0)
is_link_local_multicast none ip = first_two (λ x y. x == 255 && y % 16 == 2) ip

-- net.IP.IsInterfaceLocalMulticast
abbrev pub is_interface_local_multicast : Option V4 → Text → Bool
is_interface_local_multicast (some v) ip = false
is_interface_local_multicast none ip = first_two (λ x y. x == 255 && y % 16 == 1) ip

-- net.IP.IsMulticast
abbrev pub is_multicast : Option V4 → Text → Bool
is_multicast (some v) ip = v.a / 16 == 14
is_multicast none ip = first_two (λ x y. x == 255) ip

-- Carrier-grade NAT (100.64.0.0/10) and 0.0.0.0/8.
abbrev pub is_reserved : Option V4 → Bool
is_reserved (some v) = if v.a == 100 && v.b / 64 == 1 then true else v.a == 0
is_reserved none = false

unfoldable pub public_ip : Text → Bool
public_ip ip =
    let v = to4 ip in
    if is_loopback v ip
      || (is_private v ip
          || (is_unspecified v ip
              || (is_link_local_unicast v ip
                  || (is_link_local_multicast v ip
                      || (is_interface_local_multicast v ip || is_multicast v ip)))))
    then false
    else not (is_reserved v)

-- What Control decides on the address that the dialer is about to connect to: `none` is an address
-- that does not split or parse.
pub data Verdict : Type 0 where
  proceeds blocked malformed : Verdict

abbrev check_ip : Option Text → Verdict
check_ip none = Verdict.blocked
check_ip (some ip) = if public_ip ip then Verdict.proceeds else Verdict.blocked

-- Control with the host that net.SplitHostPort gives and what net.ParseIP makes of it.
unfoldable pub control : Bool → Option Text → (Text → Option Text) → Verdict
control allow_private none parse_ip = if allow_private then Verdict.proceeds else Verdict.malformed
control allow_private (some host) parse_ip =
    if allow_private then Verdict.proceeds else check_ip (parse_ip host)

-- The address as a number, and the blocks of numbers that no call may reach: 0.0.0.0/8, 10.0.0.0/8,
-- 100.64.0.0/10, 127.0.0.0/8, 169.254.0.0/16, 172.16.0.0/12, 192.168.0.0/16 and 224.0.0.0/4.
abbrev pub value : V4 → ℕ
value v = ((v.a * 256 + v.b) * 256 + v.c) * 256 + v.d

abbrev pub within : ℕ → ℕ → ℕ → Bool
within base bits n = n / 2 ^ bits == base

unfoldable pub internal : ℕ → Bool
internal n =
    within 0 24 n
    || (within 10 24 n
        || (within 401 22 n
            || (within 127 24 n
                || (within 43518 16 n
                    || (within 2753 20 n || (within 49320 16 n || within 14 28 n))))))

abbrev pub bytes : V4 → Text
bytes v = v.a ∷ v.b ∷ v.c ∷ v.d ∷ []

abbrev pub IsBytes : V4 → Type 0
IsBytes v = (v.a < 256) × (v.b < 256) × (v.c < 256) × (v.d < 256)

-- The tests of the code, and the same as one disjunction of blocks.
blocks :
    (z u l t s h k x y m n : Bool)
    → (x ≡ true → m ≡ true)
    → (if l || ((t || (s || h)) || (z && u || (k || (x && y || (false || m)))))
        then false
        else not (if n then true else z))
      ≡ not (z || (t || (n || (l || (k || (s || (h || m)))))))
blocks z u l t s h k x y m n f = ground arith

module _ (v : V4) (h : IsBytes v) where
  -- The first bits of the address's number, by its bytes.
  first_8 : value v / 16777216 ≡ v.a
  first_8 = omega arith

  first_16 : value v / 65536 ≡ v.a * 256 + v.b
  first_16 = omega arith

  first_4 : value v / 268435456 ≡ v.a / 16
  first_4 = omega arith

  first_10 : value v / 4194304 ≡ v.a * 4 + v.b / 64
  first_10 = omega arith

  first_12 : value v / 1048576 ≡ v.a * 16 + v.b / 16
  first_12 = omega arith

  two_bytes : (x y : ℕ) → y < 256 → (v.a * 256 + v.b == x * 256 + y) ≡ (v.a == x && v.b == y)
  two_bytes x y l = ground arith

  -- The blocks by the bytes.
  block_10 : (v.a * 4 + v.b / 64 == 401) ≡ (v.a == 100 && v.b / 64 == 1)
  block_10 = ground arith

  block_12 : (v.a * 16 + v.b / 16 == 2753) ≡ (v.a == 172 && v.b / 16 == 1)
  block_12 = ground arith

  block_link : (v.a * 256 + v.b == 43518) ≡ (v.a == 169 && v.b == 254)
  block_link = ground arith

  block_home : (v.a * 256 + v.b == 49320) ≡ (v.a == 192 && v.b == 168)
  block_home = ground arith

  multicast_byte : (v.a == 224) ≡ true → (v.a / 16 == 14) ≡ true
  multicast_byte e = ground arith

  public_ip-bytes : public_ip (bytes v) ≡ not (internal (value v))
  unfolding public_ip internal to4
  public_ip-bytes =
      rw
        (first_8, first_16, first_4, first_10, first_12, block_10, block_12, block_link, block_home)
        (blocks (v.a == 0) (v.b == 0 && (v.c == 0 && v.d == 0)) (v.a == 127) (v.a == 10)
          (v.a == 172 && v.b / 16 == 1) (v.a == 192 && v.b == 168) (v.a == 169 && v.b == 254)
          (v.a == 224) (v.b == 0 && v.c == 0) (v.a / 16 == 14) (v.a == 100 && v.b / 64 == 1)
          multicast_byte)

  -- An IPv4 address, plain or in the IPv6-mapped form, may be called exactly when its number lies in
  -- none of the internal blocks.
  pub public_ip_v4 :
      (public_ip (bytes v) ≡ not (internal (value v)))
      × (public_ip (mapped_prefix ++ bytes v) ≡ not (internal (value v)))
  unfolding public_ip to4 text_eq
  public_ip_v4 = (public_ip-bytes, public_ip-bytes)
