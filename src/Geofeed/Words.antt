-- ===== src/Geofeed/Words.antt =====
-- `uint128` of internal/geofeed/lookup.go: an IPv6 address as two words of 64 bits.
use sub_preprocessor.Base.{
  ℕ, ◌+◌, ◌-◌, ◌*◌, ◌%◌, ◌^◌, ◌≤◌, ◌<◌, ◌≡◌, Bool, ◌&&◌, ◌||◌, arith, ltb, ◌==◌, if◌then◌else◌,
}

pub record Uint128 : Type 0 where
  pub hi : ℕ
  pub lo : ℕ

unfoldable pub less : Uint128 → Uint128 → Bool
less a b = ltb a.hi b.hi || (a.hi == b.hi && ltb a.lo b.lo)

-- `bits.Sub64` on both words
unfoldable pub sub : Uint128 → Uint128 → Uint128
sub a b =
    let borrow = if ltb a.lo b.lo then 1 else 0 in
    record { hi = (a.hi + 2 ^ 65 - b.hi - borrow) % 2 ^ 64; lo = (a.lo + 2 ^ 64 - b.lo) % 2 ^ 64 }

abbrev pub value : Uint128 → ℕ
value a = a.hi * 2 ^ 64 + a.lo

pub record IsUint128 (a : Uint128) : Type 0 where
  pub hi_fits : a.hi < 2 ^ 64
  pub lo_fits : a.lo < 2 ^ 64

pub less-value : (a b : Uint128) → IsUint128 a → IsUint128 b → less a b ≡ ltb (value a) (value b)
unfolding less
less-value a b wa wb = ground (arith, wa.lo_fits, wb.lo_fits)

-- The difference of the words is the difference of the numbers, where that is not negative.
pub value-sub :
    (a b : Uint128)
    → IsUint128 a
    → IsUint128 b
    → value b ≤ value a
    → value (sub a b) ≡ value a - value b
unfolding sub
value-sub a b wa wb h = ground (arith, wa.lo_fits, wb.lo_fits, wa.hi_fits, wb.hi_fits, h)

pub sub-IsUint128 : (a b : Uint128) → IsUint128 (sub a b)
unfolding sub
sub-IsUint128 a b = record { hi_fits = omega arith; lo_fits = omega arith }
