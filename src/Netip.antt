-- ===== src/Netip.antt =====
-- The part of Go's package net/netip that the program uses. IPv6 text is not
-- read: every caller modelled here refuses an IPv6 address as it refuses a text that is none.
use sub_preprocessor.Base.{
  ◌>>=◌, ℕ, ◌+◌, ◌-◌, ◌*◌, ◌/◌, ◌%◌, ◌^◌, not, ◌&&◌, ◌||◌, [], ◌∷◌, Option, none, some, ltb, ◌==◌,
  if◌then◌else◌, Bytes, cut, cut_last, length,
}
use sub_preprocessor.Base.Decimal.{all_digits, value_from}

-- an address: 32 bits, or 128
pub data Addr : Type 0 where
  v4 v6 : ℕ → Addr

-- `netip.Addr.Unmap`: ::ffff:a.b.c.d is a.b.c.d
unfoldable pub unmap : Addr → Addr
unmap (v4 n) = v4 n
unmap (v6 n) = if n / 2 ^ 32 == 0xffff then v4 (n % 2 ^ 32) else v6 n

-- a number of an address text: digits, no leading zero
unfoldable pub parse_field : Bytes → ℕ → Option ℕ
parse_field [] limit = none
parse_field (c ∷ cs) limit =
    let s = c ∷ cs in
    if not (all_digits s) || (c == b'0' && not (length s == 1))
    then none
    else if ltb limit (value_from 0 s)
    then none
    else some (value_from 0 s)

unfoldable pub parse_octets : Bytes → Bytes → Bytes → Bytes → Option Addr
unfolding parse_field
parse_octets a b c d = do
  x ← parse_field a 255
  y ← parse_field b 255
  z ← parse_field c 255
  w ← parse_field d 255
  some (v4 (((x * 256 + y) * 256 + z) * 256 + w))

-- `netip.ParseAddr` on IPv4 text
unfoldable pub parse_addr : Bytes → Option Addr
unfolding parse_octets
parse_addr s = do
  (a, s1) ← cut b'.' s
  (b, s2) ← cut b'.' s1
  (c, d) ← cut b'.' s2
  parse_octets a b c d

-- `netip.ParsePrefix` on IPv4 text: the length stands behind the last '/'
unfoldable pub parse_prefix : Bytes → Option (Addr × ℕ)
unfolding parse_addr parse_field
parse_prefix s = do
  (a, bits) ← cut_last b'/' s
  addr ← parse_addr a
  n ← parse_field bits 32
  some (addr, n)

-- `^uint32(0) >> bits`
unfoldable pub host_mask : ℕ → ℕ
host_mask bits = (2 ^ 32 - 1) / 2 ^ bits

-- `Prefix.Masked` keeps the first `bits` bits
unfoldable pub mask_from : ℕ → ℕ → ℕ
mask_from value bits = value / 2 ^ (32 - bits) * 2 ^ (32 - bits)
