-- ===== src/Preprocess/Filters/Booked.antt =====
-- internal/preprocess/filters.go: that a node which loses its last address is booked once.
use sub_preprocessor.Base.{
  ℕ, ◌+◌, ◌<◌, ◌≡◌, refl, ◌∙◌, inl, inr, Bool, true, false, ◌&&◌, ◌||◌, Option, List, [], ◌∷◌,
  arith, ◌==◌, if◌then◌else◌, Bool-cases, Option-cases, Bytes, length, keep,
}
use sub_preprocessor.Netip.{Addr}
use sub_preprocessor.Cidrset.{contains}
use sub_preprocessor.Filter.{is_full, is_empty, permitted}
use sub_preprocessor.Preprocess.{DropStats}
use sub_preprocessor.Preprocess.Filters.{
  AsnResult, IpFilter, geofeed_filter, asn_filter, cidr_filter, Sight, AsnVerdict, asn_kept,
  asn_denied, country_denied, asn_verdict, asn_round, asn_loop, asn_booked, asn_process,
  geofeed_process, cidr_process, process, run_filters, geo_dropped, asn_dropped, cidr_dropped,
}

-- the nodes that a count accounts for: the kept ones and those dropped for some reason
abbrev pub accounted : DropStats → ℕ
accounted st =
    st.valid + st.dns_drop + st.geo_drop + st.asn_drop + st.cidr_drop + st.geo_block_drop
    + st.ipv6_drop

-- `n` more drops are booked, and neither a node nor a kept one
pub record IsBooked (n : ℕ) (before : DropStats) (after : DropStats) : Type 0 where
  pub drops : accounted after ≡ accounted before + n
  pub same_valid : after.valid ≡ before.valid
  pub same_total : after.total ≡ before.total

-- one drop if no address is left
abbrev pub lost : List Addr → ℕ
lost [] = 1
lost (ip ∷ ips) = 0

IsBooked-refl : (st : DropStats) → IsBooked 0 st st
IsBooked-refl st = record { drops = omega arith; same_valid = refl; same_total = refl }

geo-IsBooked : (st : DropStats) → IsBooked 1 st (geo_dropped st)
geo-IsBooked st = record { drops = omega arith; same_valid = refl; same_total = refl }

asn-IsBooked : (st : DropStats) → IsBooked 1 st (asn_dropped st)
asn-IsBooked st = record { drops = omega arith; same_valid = refl; same_total = refl }

cidr-IsBooked : (st : DropStats) → IsBooked 1 st (cidr_dropped st)
cidr-IsBooked st = record { drops = omega arith; same_valid = refl; same_total = refl }

-- what is booked exactly if the list is empty
IsBooked-if :
    (ips : List Addr) (st after : DropStats)
    → IsBooked 1 st after
    → IsBooked (lost ips) st (if length ips == 0 then after else st)
IsBooked-if [] st after b = b
IsBooked-if (ip ∷ ips) st after b = rw never (IsBooked-refl st)
  where
    never : (length (ip ∷ ips) == 0) ≡ false
    never = ground arith

-- a list that lost an address knows why
HasReason : List Addr → List Addr × (Bool × Bool) → Type 0
HasReason ips (kept, (by_name, by_country)) =
    (0 < length ips) → kept ≡ [] → (by_name || by_country) ≡ true

asn_loop-HasReason :
    (s : Sight) (patterns : List (Bytes → Bool)) (resolve : Addr → Option AsnResult)
    (ips : List Addr)
    → HasReason ips (asn_loop s patterns resolve ips)
unfolding asn_loop HasReason
asn_loop-HasReason s patterns resolve [] = λ some_ip e. absurd (omega (arith, some_ip))
asn_loop-HasReason s patterns resolve (ip ∷ ips) =
    step (asn_verdict s patterns (resolve ip)) (asn_loop s patterns resolve ips)
  where
    step :
        (v : AsnVerdict) (rest : List Addr × (Bool × Bool))
        → HasReason (ip ∷ ips) (asn_round v ip rest)
    step asn_kept rest = λ some_ip e. absurd (cc)
    step asn_denied rest = λ some_ip e. refl
    step country_denied rest = λ some_ip e. ground arith

asn_booked-IsBooked :
    (ips : List Addr) (drops : Bool × Bool) (st : DropStats)
    → (ips ≡ [] → (drops.0 || drops.1) ≡ true)
    → IsBooked (lost ips) st (asn_booked ips drops st)
asn_booked-IsBooked (ip ∷ ips) drops st h = rw never (IsBooked-refl st)
  where
    never : (length (ip ∷ ips) == 0) ≡ false
    never = ground arith
asn_booked-IsBooked [] (true, by_country) st h = asn-IsBooked st
asn_booked-IsBooked [] (false, true) st h = geo-IsBooked st
asn_booked-IsBooked [] (false, false) st h = absurd (cc (h refl))

process-IsBooked :
    (s : Sight) (f : IpFilter) (ips : List Addr) (st : DropStats)
    → 0 < length ips
    → IsBooked (lost (process s f ips st).0) st (process s f ips st).1
unfolding process geofeed_process asn_process cidr_process HasReason
process-IsBooked s geofeed_filter [] st h = absurd (omega (arith, h))
process-IsBooked s geofeed_filter (ip ∷ ips) st h =
    elim (Bool-cases (is_full s.allowed && is_empty s.denied)) [
      | inl y ↦ rw y (IsBooked-refl st)
      | inr n ↦ rw n (
          IsBooked-if (permitted s.lookup (ip ∷ ips) s.allowed s.denied) st (geo_dropped st)
            (geo-IsBooked st))
    ]
process-IsBooked s (asn_filter patterns) [] st h = absurd (omega (arith, h))
process-IsBooked s (asn_filter patterns) (ip ∷ ips) st h = elim (Option-cases s.asn) [
  | inl e ↦ rw e (IsBooked-refl st)
  | inr (resolve, e) ↦
      let r = asn_loop s patterns resolve (ip ∷ ips) in
      rw e (
        asn_booked-IsBooked r.0 r.1 st
          (λ none_left. asn_loop-HasReason s patterns resolve (ip ∷ ips) h none_left))
]
process-IsBooked s cidr_filter ips st h =
    IsBooked-if (keep (contains s.cidr_set) ips) st (cidr_dropped st) (cidr-IsBooked st)

-- A chain that is given some address books one drop if it leaves none, and nothing if it leaves some.
pub run_filters-IsBooked :
    (s : Sight) (filters : List IpFilter) (ips : List Addr) (st : DropStats)
    → 0 < length ips
    → IsBooked (lost (run_filters s filters ips st).0) st (run_filters s filters ips st).1
unfolding run_filters
run_filters-IsBooked s [] [] st h = absurd (omega (arith, h))
run_filters-IsBooked s [] (ip ∷ ips) st h = IsBooked-refl st
run_filters-IsBooked s (f ∷ filters) ips st h =
    onward (run_filters-IsBooked s filters) (process s f ips st) (process-IsBooked s f ips st h)
  where
    onward :
        ((kept : List Addr) (mid : DropStats)
          → 0 < length kept
          → IsBooked
              (lost (run_filters s filters kept mid).0)
              mid
              (run_filters s filters kept mid).1)
        → (r : List Addr × DropStats) → IsBooked (lost r.0) st r.1
        → IsBooked
            (lost (if length r.0 == 0 then ([], r.1) else run_filters s filters r.0 r.1).0)
            st
            (if length r.0 == 0 then ([], r.1) else run_filters s filters r.0 r.1).1
    onward later ([], st') b = b
    onward later (x ∷ kept, st') b =
        let some_ip : 0 < length (x ∷ kept) = ground arith in
        let never : (length (x ∷ kept) == 0) ≡ false = ground arith in
        let ih = later (x ∷ kept) st' some_ip in
        rw never (record {
          drops = omega (arith, b.drops, ih.drops);
          same_valid = ih.same_valid ∙ b.same_valid;
          same_total = ih.same_total ∙ b.same_total;
        })
