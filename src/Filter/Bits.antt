-- ===== src/Filter/Bits.antt =====
-- One bit of a machine word, by its binary digits: `w & (1 << k) != 0` and `w | (1 << k)`.
use sub_preprocessor.Base.{
  ℕ, zero, suc, ◌+◌, ◌*◌, ◌/◌, ◌%◌, ◌≡◌, refl, ◌∙◌, Bool, false, ◌||◌, arith, ◌==◌, if◌then◌else◌,
}

unfoldable pub test_bit : ℕ → ℕ → Bool
test_bit w zero = w % 2 == 1
test_bit w (suc k) = test_bit (w / 2) k

unfoldable pub set_bit : ℕ → ℕ → ℕ
set_bit w zero = if w % 2 == 1 then w else w + 1
set_bit w (suc k) = w % 2 + 2 * set_bit (w / 2) k

half : (b m : ℕ) → (b % 2 + 2 * m) / 2 ≡ m
half b m = omega arith

-- Setting one bit changes no other.
pub test_bit-set_bit : (w j k : ℕ) → test_bit (set_bit w k) j ≡ ((j == k) || test_bit w j)
unfolding test_bit set_bit
test_bit-set_bit w zero zero = ground arith
test_bit-set_bit w zero (suc k) = ground arith
test_bit-set_bit w (suc j) zero =
    let e : (if w % 2 == 1 then w else w + 1) / 2 ≡ w / 2 = ground arith in rw e (ground arith)
test_bit-set_bit w (suc j) (suc k) = rw half (test_bit-set_bit (w / 2) j k ∙ ground arith)

pub test_bit-zero : (k : ℕ) → test_bit 0 k ≡ false
unfolding test_bit
test_bit-zero zero = refl
test_bit-zero (suc k) = test_bit-zero k
