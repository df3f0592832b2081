-- ===== src/Net.antt =====
-- The methods of Go's net/netip that the program calls, on the addresses that `netip.Addr` holds:
-- the zero value, an IPv4 address as its 32-bit number, and an IPv6 address as its 128-bit number
-- with a zone. The text form is a parameter, `AddrText`.
use nixos_kaiba_network.Prelude.{
  ℕ, ◌+◌, ◌-◌, ◌*◌, ◌/◌, ◌^◌, ◌≡◌, refl, Bool, true, false, not, ◌&&◌, ◌||◌, Option, some, arith,
  Bytes, bytes_eq, bytes_eq_iff, bytes_eq_refl, bytes_lt, bytes_lt_irrefl, bytes_lt_trans,
  bytes_lt_tri, ltb, ◌==◌, is_empty, if◌then◌else◌,
}
use nixos_kaiba_network.Prelude.Sorted.{TotalOrder}

pub data Addr : Type 0 where
  invalid : Addr
  v4 : ℕ → Addr
  v6 : ℕ → Bytes → Addr

unfoldable pub is_valid : Addr → Bool
is_valid invalid = false
is_valid _ = true

unfoldable pub is4 : Addr → Bool
is4 (v4 n) = true
is4 _ = false

unfoldable pub is6 : Addr → Bool
is6 (v6 n z) = true
is6 _ = false

-- ::ffff:0:0/96
unfoldable pub is4in6 : Addr → Bool
is4in6 (v6 n z) = n / 2 ^ 32 == 0xffff
is4in6 _ = false

-- A mapped address becomes the IPv4 address in its low 32 bits, and loses its zone.
unfoldable pub unmap : Addr → Addr
unmap (v6 n z) = if n / 2 ^ 32 == 0xffff then v4 (n - 0xffff * 2 ^ 32) else v6 n z
unmap a = a

-- `a == b`, as for the keys of a map.
unfoldable pub addr_eq : Addr → Addr → Bool
addr_eq invalid invalid = true
addr_eq (v4 m) (v4 n) = m == n
addr_eq (v6 m y) (v6 n z) = m == n && bytes_eq y z
addr_eq _ _ = false

-- `a.Compare(b) < 0`: by bit length, then by number, then by zone.
unfoldable pub addr_lt : Addr → Addr → Bool
addr_lt invalid invalid = false
addr_lt invalid _ = true
addr_lt (v4 m) invalid = false
addr_lt (v4 m) (v4 n) = ltb m n
addr_lt (v4 m) (v6 n z) = true
addr_lt (v6 m y) (v6 n z) = if ltb m n then true else if ltb n m then false else bytes_lt y z
addr_lt (v6 m y) _ = false

unfoldable pub is_loopback : Addr → Bool
is_loopback invalid = false
is_loopback (v4 n) = n / 2 ^ 24 == 127
is_loopback (v6 n z) =
    if n / 2 ^ 32 == 0xffff then (n - 0xffff * 2 ^ 32) / 2 ^ 24 == 127 else n == 1

unfoldable pub is_multicast : Addr → Bool
is_multicast invalid = false
is_multicast (v4 n) = n / 2 ^ 28 == 0xe
is_multicast (v6 n z) =
    if n / 2 ^ 32 == 0xffff then (n - 0xffff * 2 ^ 32) / 2 ^ 28 == 0xe else n / 2 ^ 120 == 0xff

-- 169.254.0.0/16 and fe80::/10
unfoldable pub is_link_local_unicast : Addr → Bool
is_link_local_unicast invalid = false
is_link_local_unicast (v4 n) = n / 2 ^ 16 == 169 * 2 ^ 8 + 254
is_link_local_unicast (v6 n z) =
    if n / 2 ^ 32 == 0xffff
    then (n - 0xffff * 2 ^ 32) / 2 ^ 16 == 169 * 2 ^ 8 + 254
    else n / 2 ^ 118 == 0x3fa

-- 10.0.0.0/8, 172.16.0.0/12, 192.168.0.0/16
abbrev private4 : ℕ → Bool
private4 n = n / 2 ^ 24 == 10 || n / 2 ^ 20 == 172 * 2 ^ 4 + 1 || n / 2 ^ 16 == 192 * 2 ^ 8 + 168

-- and fc00::/7
unfoldable pub is_private : Addr → Bool
is_private invalid = false
is_private (v4 n) = private4 n
is_private (v6 n z) =
    if n / 2 ^ 32 == 0xffff then private4 (n - 0xffff * 2 ^ 32) else n / 2 ^ 121 == 0x7e

-- 0.0.0.0, 255.255.255.255 and :: with no zone
unspecified_or_broadcast : Addr → Bool
unspecified_or_broadcast invalid = false
unspecified_or_broadcast (v4 n) = n == 0 || n == 2 ^ 32 - 1
unspecified_or_broadcast (v6 n z) =
    if n / 2 ^ 32 == 0xffff
    then n - 0xffff * 2 ^ 32 == 0 || n - 0xffff * 2 ^ 32 == 2 ^ 32 - 1
    else n == 0 && is_empty z

unfoldable pub is_global_unicast : Addr → Bool
unfolding unspecified_or_broadcast is_loopback is_multicast is_link_local_unicast is_valid
is_global_unicast a =
    is_valid a
    && not (unspecified_or_broadcast a)
    && not (is_loopback a)
    && not (is_multicast a)
    && not (is_link_local_unicast a)

-- A parsed prefix: the number of its address shifted right by the host bits, and those bits.
pub data Prefix : Type 0 where
  prefix4 prefix6 : ℕ → ℕ → Prefix

-- `prefix.Contains(addr)`: never for an address of the other family, nor for one with a zone.
unfoldable pub contains : Prefix → Addr → Bool
contains (prefix4 net host) (v4 n) = n / 2 ^ host == net
contains (prefix6 net host) (v6 n z) = is_empty z && n / 2 ^ host == net
contains _ _ = false

addr_eq_sound : (a b : Addr) → addr_eq a b ≡ true → a ≡ b
unfolding addr_eq
addr_eq_sound invalid invalid h = refl
addr_eq_sound (v4 m) (v4 n) h = ground arith
addr_eq_sound (v6 m y) (v6 n z) h = ground (arith, bytes_eq_iff y z)
addr_eq_sound _ _ h = cc

addr_eq_refl : (a : Addr) → addr_eq a a ≡ true
unfolding addr_eq
addr_eq_refl invalid = refl
addr_eq_refl (v4 n) = ground arith
addr_eq_refl (v6 n z) = ground (arith, bytes_eq_refl z)

pub addr_lt_irrefl : (a : Addr) → addr_lt a a ≡ false
unfolding addr_lt
addr_lt_irrefl invalid = refl
addr_lt_irrefl (v4 n) = ground arith
addr_lt_irrefl (v6 n z) = ground (arith, bytes_lt_irrefl z)

pub addr_lt_trans : (a b c : Addr) → addr_lt a b ≡ true → addr_lt b c ≡ true → addr_lt a c ≡ true
unfolding addr_lt
addr_lt_trans invalid b invalid p q = ground arith
addr_lt_trans invalid b (v4 n) p q = refl
addr_lt_trans invalid b (v6 n z) p q = refl
addr_lt_trans (v4 l) b invalid p q = ground arith
addr_lt_trans (v4 l) b (v4 n) p q = ground arith
addr_lt_trans (v4 l) b (v6 n z) p q = refl
addr_lt_trans (v6 l x) (v6 m y) (v6 n z) p q = ground (arith, bytes_lt_trans x y z)
addr_lt_trans (v6 l x) b c p q = ground arith

pub addr_lt_tri : (a b : Addr) → addr_lt a b ≡ false → addr_lt b a ≡ false → a ≡ b
unfolding addr_lt
addr_lt_tri invalid b p q = ground arith
addr_lt_tri (v4 m) b p q = ground arith
addr_lt_tri (v6 m y) (v6 n z) p q = ground (arith, bytes_lt_tri y z)
addr_lt_tri (v6 m y) b p q = ground arith

pub addr_eq_iff : (a b : Addr) → (addr_eq a b ≡ true → a ≡ b) × (a ≡ b → addr_eq a b ≡ true)
addr_eq_iff a b = (addr_eq_sound a b, λ e. rw e (addr_eq_refl b))

instance abbrev pub addr_order : TotalOrder Addr
addr_order = record {
  lt = addr_lt;
  eq = addr_eq;
  eq_iff = addr_eq_iff;
  irrefl = addr_lt_irrefl;
  trans = addr_lt_trans;
  tri = addr_lt_tri;
}

-- `netip.ParseAddr` and `Addr.String`: a valid address is read back from its text, and what is
-- read is valid.
pub record AddrText : Type 0 where
  pub parse_addr : Bytes → Option Addr
  pub addr_string : Addr → Bytes
  pub parse-string : (a : Addr) → is_valid a ≡ true → parse_addr (addr_string a) ≡ some a
  pub parse_valid : (s : Bytes) (a : Addr) → parse_addr s ≡ some a → is_valid a ≡ true
