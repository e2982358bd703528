-- ===== src/Preprocess/Filters/Admitted.antt =====
-- internal/preprocess/filters.go: which addresses pass a chain of filters, and what it books.
use sub_preprocessor.Base.{
  ℕ, zero, suc, ◌/◌, ◌%◌, ◌≡◌, refl, sym, ap, ◌∙◌, inl, inr, Bool, true, false, ◌&&◌, Option, none,
  some, List, [], ◌∷◌, arith, ◌==◌, if◌then◌else◌, Bool-cases, Option-cases, AllSome, Bytes, length,
  get_elem?, keep, every,
}
use sub_preprocessor.Netip.{Addr}
use sub_preprocessor.Cidrset.{contains}
use sub_preprocessor.Filter.{
  CountrySet, CountryCode, is_full, is_empty, has, has_index, is_code, index, permits,
}
use sub_preprocessor.Filter.Bits.{test_bit, test_bit-zero}
use sub_preprocessor.Filter.Codes.{permitted-keep}
use sub_preprocessor.Preprocess.{DropStats}
use sub_preprocessor.Preprocess.Filters.{
  asn_round, AsnResult, IpFilter, geofeed_filter, asn_filter, cidr_filter, Sight, AsnVerdict,
  asn_kept, asn_denied, country_denied, asn_verdict, asn_loop, asn_process, geofeed_process,
  cidr_process, process, run_filters,
}

-- whether a filter keeps an address
abbrev pub is_kept : AsnVerdict → Bool
is_kept asn_kept = true
is_kept asn_denied = false
is_kept country_denied = false

abbrev pub admits : Sight → Addr → IpFilter → Bool
admits s ip geofeed_filter = permits s.allowed s.denied (s.lookup ip)
admits s ip (asn_filter patterns) = elim s.asn [
  | none ↦ true
  | some resolve ↦ is_kept (asn_verdict s patterns (resolve ip))
]
admits s ip cidr_filter = contains s.cidr_set ip

empty_word :
    (s : CountrySet) (i : ℕ) → is_empty s ≡ true → AllSome (λ (w : ℕ). w ≡ 0) (get_elem? s i)
unfolding is_empty
empty_word [] i h = tt
empty_word (w ∷ ws) zero h = ground (arith, h)
empty_word (w ∷ ws) (suc i) h = empty_word ws i (ground (arith, h))

has_empty : (s : CountrySet) (c : CountryCode) → is_empty s ≡ true → has s c ≡ false
unfolding has has_index
has_empty s c h = elim (Bool-cases (is_code c)) [
  | inl y ↦ rw y (elim (Option-cases (get_elem? s (index c / 64))) [
    | inl e ↦ rw (e, has_index) refl
    | inr (w, e) ↦
        let z : w ≡ 0 = rw e at (empty_word s (index c / 64) h) in
        rw (e, has_index) (ap (λ x. test_bit x (index c % 64)) z ∙ test_bit-zero (index c % 64))
  ])
  | inr n ↦ rw n refl
]

keep-true : {A : Type 0} → (f : A → Bool) (xs : List A) → ((x : A) → f x ≡ true) → xs ≡ keep f xs
unfolding keep
keep-true f [] h = refl
keep-true f (x ∷ xs) h = rw (h x) (ap (λ l. x ∷ l) (keep-true f xs h))

asn_loop-keep :
    (s : Sight) (patterns : List (Bytes → Bool)) (resolve : Addr → Option AsnResult)
    (ips : List Addr)
    → (asn_loop s patterns resolve ips).0
      ≡ keep (λ ip. is_kept (asn_verdict s patterns (resolve ip))) ips
unfolding asn_loop keep
asn_loop-keep s patterns resolve [] = refl
asn_loop-keep s patterns resolve (ip ∷ ips) =
    let ih = asn_loop-keep s patterns resolve ips in
    step (asn_verdict s patterns (resolve ip)) (asn_loop s patterns resolve ips)
      (keep (λ (x : Addr). is_kept (asn_verdict s patterns (resolve x))) ips) ih
  where
    step :
        (v : AsnVerdict) (rest : List Addr × (Bool × Bool)) (kept : List Addr)
        → rest.0 ≡ kept
        → (asn_round v ip rest).0 ≡ (if is_kept v then ip ∷ kept else kept)
    step asn_kept rest kept e = ap (λ l. ip ∷ l) e
    step asn_denied rest kept e = e
    step country_denied rest kept e = e

unbounded :
    (s : Sight) (ip : Addr)
    → (is_full s.allowed && is_empty s.denied) ≡ true
    → permits s.allowed s.denied (s.lookup ip) ≡ true
unfolding permits
unbounded s ip y =
    let e : is_empty s.denied ≡ true = ground (arith, y) in
    let h = has_empty s.denied (s.lookup ip) e in ground (arith, y, h)

process-keep :
    (s : Sight) (f : IpFilter) (ips : List Addr) (st : DropStats)
    → (process s f ips st).0 ≡ keep (λ ip. admits s ip f) ips
unfolding process geofeed_process asn_process cidr_process
process-keep s geofeed_filter ips st = elim (Bool-cases (is_full s.allowed && is_empty s.denied)) [
  | inl y ↦
      rw y (keep-true (λ ip. permits s.allowed s.denied (s.lookup ip)) ips (λ ip. unbounded s ip y))
  | inr n ↦ rw n (permitted-keep s.lookup ips s.allowed s.denied)
]
process-keep s (asn_filter patterns) ips st = elim (Option-cases s.asn) [
  | inl e ↦ rw e (keep-true (λ (ip : Addr). true) ips (λ ip. refl))
  | inr (resolve, e) ↦ rw e (asn_loop-keep s patterns resolve ips)
]
process-keep s cidr_filter ips st = refl

-- whether all filters of a chain keep an address
abbrev pub passes_all : Sight → List IpFilter → Addr → Bool
passes_all s filters ip = every (admits s ip) filters

keep_twice :
    (f g : Addr → Bool) (ips : List Addr) → keep g (keep f ips) ≡ keep (λ ip. f ip && g ip) ips
unfolding keep
keep_twice f g [] = refl
keep_twice f g (ip ∷ ips) =
    let ih = keep_twice f g ips in
    elim (Bool-cases (f ip)) [
      | inl y ↦
          rw y (elim (Bool-cases (g ip)) [ inl z ↦ rw z (ap (λ l. ip ∷ l) ih) | inr z ↦ rw z ih ])
      | inr n ↦ rw n ih
    ]

-- A chain keeps, in order, the addresses that each of its filters keeps.
pub run_filters-keep :
    (s : Sight) (filters : List IpFilter) (ips : List Addr) (st : DropStats)
    → (run_filters s filters ips st).0 ≡ keep (passes_all s filters) ips
unfolding run_filters every
run_filters-keep s [] ips st = keep-true (λ (ip : Addr). true) ips (λ ip. refl)
run_filters-keep s (f ∷ filters) ips st =
    let r = process s f ips st in
    let k : keep (passes_all s filters) r.0 ≡ keep (passes_all s (f ∷ filters)) ips =
      ap (λ l. keep (passes_all s filters) l) (process-keep s f ips st)
      ∙ keep_twice (λ ip. admits s ip f) (passes_all s filters) ips in
    elim (Bool-cases (length r.0 == 0)) [
      | inl y ↦
          let e : r.0 ≡ [] = nil_of r.0 y in
          rw y (ap (λ l. keep (passes_all s filters) l) (sym e) ∙ k)
      | inr n ↦ rw n (run_filters-keep s filters r.0 r.1 ∙ k)
    ]
  where
    nil_of : (l : List Addr) → (length l == 0) ≡ true → l ≡ []
    nil_of [] y = refl
    nil_of (x ∷ l) y = absurd (ground (arith, y))
