-- ===== src/Cidrset/Covered.antt =====
-- `Covered`: the sum over the merged ranges counts the admitted addresses, and does not wrap.
use sub_preprocessor.Base.{
  length, ℕ, zero, suc, ◌+◌, ◌-◌, ◌^◌, ◌≤◌, ◌<◌, Bool, true, false, ◌||◌, List, [], ◌∷◌, ◌≡◌, refl,
  sym, ap, ◌∙◌, arith, ltb, if◌then◌else◌, All, All-map, any,
}
use mathlib.Core.Path.{fun_ext}
use sub_preprocessor.Cidrset.{IpRange, AllowSet, count_covered, contains_value, new_set}
use sub_preprocessor.Cidrset.Union.{IsRange, in_range, IsApart, new_set-IsApart}
use sub_preprocessor.Cidrset.Contains.{contains_value-any}

-- how many numbers below `n` pass a test
pub count_below : ℕ → (ℕ → Bool) → ℕ
count_below zero p = 0
count_below (suc n) p = count_below n p + (if p n then 1 else 0)

total : List IpRange → ℕ
total [] = 0
total (r ∷ rs) = r.hi + 1 - r.lo + total rs

count_below-in_range :
    (n : ℕ) (r : IpRange)
    → count_below n (λ v. in_range v r) ≡ (if ltb r.hi n then r.hi + 1 - r.lo else n - r.lo)
unfolding count_below
count_below-in_range zero r = ground arith
count_below-in_range (suc n) r = ground (arith, count_below-in_range n r)

count_below-none : (n : ℕ) → count_below n (λ v. false) ≡ 0
unfolding count_below
count_below-none zero = refl
count_below-none (suc n) = omega (arith, count_below-none n)

count_below-or :
    (n : ℕ) (p q : ℕ → Bool)
    → ((v : ℕ) → p v ≡ true → q v ≡ false)
    → count_below n (λ v. p v || q v) ≡ count_below n p + count_below n q
unfolding count_below
count_below-or zero p q h = refl
count_below-or (suc n) p q h = ground (arith, count_below-or n p q h, h n)

apart-disjoint :
    (r : IpRange) (rs : List IpRange) (v : ℕ)
    → All (λ (s : IpRange). r.hi + 1 < s.lo) rs
    → in_range v r ≡ true
    → any (in_range v) rs ≡ false
unfolding any
apart-disjoint r [] v h e = refl
apart-disjoint r (s ∷ rs) v h e = ground (arith, h.0, apart-disjoint r rs v h.1)

count_below-any :
    (n : ℕ) (rs : List IpRange)
    → IsApart rs
    → All (λ (s : IpRange). s.hi < n) rs
    → count_below n (λ v. any (in_range v) rs) ≡ total rs
unfolding total any
count_below-any n [] w h = count_below-none n
count_below-any n (r ∷ rs) w h =
    count_below-or n (λ v. in_range v r) (λ v. any (in_range v) rs)
      (λ v e. apart-disjoint r rs v w.1 e)
    ∙ ground (arith, count_below-in_range n r, h.0, count_below-any n rs w.2 h.1)

-- The sizes of ranges that start at `b` or later fit between `b` and the last address.
total-le :
    (b : ℕ) (rs : List IpRange)
    → b ≤ 2 ^ 32
    → IsApart rs
    → All (λ (s : IpRange). b ≤ s.lo) rs
    → total rs + b ≤ 2 ^ 32
unfolding total
total-le b [] le w h = omega arith
total-le b (r ∷ rs) le w h = omega (
  arith,
  w.0.ordered,
  w.0.fits,
  h.0,
  total-le (r.hi + 1) rs (omega (arith, w.0.fits)) w.2
      (All-map (λ (s : IpRange) (g : r.hi + 1 < s.lo). omega arith) rs w.1),
)

count_covered-total : (rs : List IpRange) → IsApart rs → count_covered rs ≡ total rs
unfolding count_covered total
count_covered-total [] w = refl
count_covered-total (r ∷ rs) w =
    let small : total (r ∷ rs) + 0 ≤ 2 ^ 32 =
      total-le 0 (r ∷ rs) (omega arith) w (all-zero (r ∷ rs)) in
    rw (count_covered-total rs w.2) (omega (arith, w.0.ordered, w.0.fits, small))
  where
    all-zero : (l : List IpRange) → All (λ (s : IpRange). 0 ≤ s.lo) l
    all-zero [] = tt
    all-zero (s ∷ l) = (omega arith, all-zero l)

apart-fits : (rs : List IpRange) → IsApart rs → All (λ (s : IpRange). s.hi < 2 ^ 32) rs
apart-fits [] w = tt
apart-fits (r ∷ rs) w = (w.0.fits, apart-fits rs w.2)

new_set-covered : (rs : List IpRange) → (new_set rs).covered ≡ count_covered (new_set rs).ranges
unfolding new_set
new_set-covered rs = refl

-- The coverage that a set built from well-formed ranges reports is the number of IPv4 addresses
-- that its lookup admits.
pub covered-count :
    (rs : List IpRange)
    → All IsRange rs
    → (new_set rs).covered ≡ count_below (2 ^ 32) (contains_value (new_set rs))
covered-count rs w =
    let s : AllowSet = new_set rs in
    let apart : IsApart s.ranges = new_set-IsApart rs w in
    new_set-covered rs
    ∙ count_covered-total s.ranges apart
    ∙ sym (count_below-any (2 ^ 32) s.ranges apart (apart-fits s.ranges apart))
    ∙ ap (count_below (2 ^ 32)) (fun_ext (λ v. sym (contains_value-any v s apart)))

-- A set with a range covers an address.
pub count_covered_some : (rs : List IpRange) → IsApart rs → 0 < length rs → 0 < count_covered rs
unfolding total
count_covered_some [] w h = absurd (omega (arith, h))
count_covered_some (r ∷ rs) w h =
    let e = count_covered-total (r ∷ rs) w in
    let positive : 1 ≤ total (r ∷ rs) = omega (arith, w.0.ordered) in omega (arith, e, positive)
