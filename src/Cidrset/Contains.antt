-- ===== src/Cidrset/Contains.antt =====
-- `Contains`: the binary search finds the only range that can hold an address.
use sub_preprocessor.Base.{
  ℕ, zero, suc, ◌+◌, ◌-◌, ◌^◌, ◌<◌, Bool, true, false, List, [], ◌∷◌, ◌≡◌, refl, sym, ◌∙◌, inl, inr,
  arith, ◌==◌, if◌then◌else◌, All, All-map, any, Bool-cases, length,
}
use sub_preprocessor.Base.Search.{binary_search, IsMonotone, IsFirst, binary_search-IsFirst}
use sub_preprocessor.Netip.{v4, unmap}
use sub_preprocessor.Cidrset.{
  IpRange, AllowSet, starts_above, ends_after, contains_value, contains, new_set,
}
use sub_preprocessor.Cidrset.Union.{IsRange, in_range, IsApart, new_set-IsApart, any-new_set}

above_stays :
    (v : ℕ) (rs : List IpRange)
    → All (λ (s : IpRange). v < s.lo) rs
    → (i : ℕ) → starts_above rs v i ≡ true
unfolding starts_above
above_stays v [] h i = refl
above_stays v (r ∷ rs) h zero = ground (arith, h.0)
above_stays v (r ∷ rs) h (suc i) = above_stays v rs h.1 i

above_none :
    (v : ℕ) (rs : List IpRange) → All (λ (s : IpRange). v < s.lo) rs → any (in_range v) rs ≡ false
unfolding any
above_none v [] h = refl
above_none v (r ∷ rs) h = ground (arith, above_none v rs h.1)

starts_above-IsMonotone :
    (v : ℕ) (rs : List IpRange) → IsApart rs → IsMonotone (length rs) (starts_above rs v)
unfolding starts_above
starts_above-IsMonotone v [] w a b le lt h = refl
starts_above-IsMonotone v (r ∷ rs) w zero zero le lt h = h
starts_above-IsMonotone v (r ∷ rs) w zero (suc b) le lt h =
    above_stays v rs
      (All-map (λ (s : IpRange) (g : r.hi + 1 < s.lo). ground (arith, w.0.ordered)) rs w.1) b
starts_above-IsMonotone v (r ∷ rs) w (suc a) zero le lt h = absurd (omega arith)
starts_above-IsMonotone v (r ∷ rs) w (suc a) (suc b) le lt h =
    starts_above-IsMonotone v rs w.2 a b (omega arith) (omega arith) h

shift-IsFirst :
    (v : ℕ) (r : IpRange) (rs : List IpRange) (k : ℕ)
    → IsFirst (length (r ∷ rs)) (starts_above (r ∷ rs) v) (suc k)
    → IsFirst (length rs) (starts_above rs v) k
unfolding starts_above
shift-IsFirst v r rs k f = record {
  bounded = omega (arith, f.bounded);
  before = λ i lt. f.before (suc i) (omega arith);
  at = λ lt. f.at (omega arith);
}

-- A first place of 0 means that every range starts above the address.
first_zero :
    (v : ℕ) (rs : List IpRange)
    → IsApart rs
    → IsFirst (length rs) (starts_above rs v) 0
    → All (λ (s : IpRange). v < s.lo) rs
unfolding starts_above
first_zero v [] w f = tt
first_zero v (r ∷ rs) w f =
    let here : v < r.lo = ground (arith, f.at (omega arith)) in
    (here, All-map (λ (s : IpRange) (g : r.hi + 1 < s.lo). ground (arith, w.0.ordered)) rs w.1)

-- The answer at the first place that starts above: no range, or the one before it decides.
abbrev verdict : List IpRange → ℕ → ℕ → Bool
verdict rs zero v = false
verdict rs (suc k) v = ends_after rs k v

verdict_lem :
    (rs : List IpRange) (k v : ℕ)
    → (if k == 0 then false else ends_after rs (k - 1) v) ≡ verdict rs k v
verdict_lem rs zero v = refl
verdict_lem rs (suc k) v = let e : suc k - 1 ≡ k = omega arith in rw e (ground arith)

ends_after_last :
    (v : ℕ) (r : IpRange) (rs : List IpRange)
    → any (in_range v) rs ≡ false
    → starts_above (r ∷ rs) v 0 ≡ false
    → ends_after (r ∷ rs) 0 v ≡ any (in_range v) (r ∷ rs)
unfolding ends_after any starts_above
ends_after_last v r rs e g = ground arith

ends_after_later :
    (v k : ℕ) (r s : IpRange) (rs : List IpRange)
    → r.hi + 1 < s.lo
    → starts_above (r ∷ s ∷ rs) v 1 ≡ false
    → ends_after (s ∷ rs) k v ≡ any (in_range v) (s ∷ rs)
    → ends_after (r ∷ s ∷ rs) (suc k) v ≡ any (in_range v) (r ∷ s ∷ rs)
unfolding ends_after any starts_above
ends_after_later v k r s rs gap g e = let out : in_range v r ≡ false = ground arith in rw out e

-- The range before the first that starts above the address decides.
decides :
    (v : ℕ) (rs : List IpRange) (k : ℕ)
    → IsApart rs
    → IsFirst (length rs) (starts_above rs v) k
    → verdict rs k v ≡ any (in_range v) rs
decides v rs zero w f = sym (above_none v rs (first_zero v rs w f))
decides v [] (suc k) w f = absurd (omega (arith, f.bounded))
decides v (r ∷ rs) (suc zero) w f =
    ends_after_last v r rs (above_none v rs (first_zero v rs w.2 (shift-IsFirst v r rs 0 f)))
      (f.before 0 (omega arith))
decides v (r ∷ []) (suc (suc k)) w f = absurd (omega (arith, f.bounded))
decides v (r ∷ s ∷ rs) (suc (suc k)) w f =
    ends_after_later v k r s rs w.1.0 (f.before 1 (omega arith))
      (decides v (s ∷ rs) (suc k) w.2 (shift-IsFirst v r (s ∷ rs) (suc k) f))

-- On ranges that are apart, the lookup is the membership test of some range.
pub contains_value-any :
    (v : ℕ) (s : AllowSet) → IsApart s.ranges → contains_value s v ≡ any (in_range v) s.ranges
unfolding contains_value
contains_value-any v s w =
    verdict_lem s.ranges (binary_search (length s.ranges) (starts_above s.ranges v)) v
    ∙ decides v s.ranges (binary_search (length s.ranges) (starts_above s.ranges v)) w (
        binary_search-IsFirst (length s.ranges) (starts_above s.ranges v)
          (starts_above-IsMonotone v s.ranges w))

contains-contains_value : (v : ℕ) (s : AllowSet) → contains s (v4 v) ≡ contains_value s v
unfolding contains contains_value binary_search unmap
contains-contains_value v s = elim (Bool-cases (length s.ranges == 0)) [
  | inl e ↦ let z : length s.ranges ≡ 0 = ground arith in rw z
  | inr e ↦ rw e
]

-- An IPv4 address is in the set built from well-formed ranges, by binary search over the
-- coalesced ones, exactly when one of the given ranges holds it, whatever their order and
-- overlaps.
pub contains-new_set :
    (v : ℕ) (rs : List IpRange)
    → v < 2 ^ 32
    → All IsRange rs
    → contains (new_set rs) (v4 v) ≡ any (in_range v) rs
contains-new_set v rs h w =
    contains-contains_value v (new_set rs)
    ∙ contains_value-any v (new_set rs) (new_set-IsApart rs w)
    ∙ any-new_set v rs h w
