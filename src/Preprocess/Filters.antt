-- ===== src/Preprocess/Filters.antt =====
-- internal/preprocess/filters.go: the filters on the addresses of a node. What the databases and the
-- address list answer is an argument; a filter compacts its slice in place, which is a new list here.
pub mod Admitted
pub mod Booked
use sub_preprocessor.Base.{
  ℕ, zero, suc, ◌+◌, ◌-◌, ◌*◌, ◌/◌, ◌%◌, ◌^◌, ◌≤◌, ◌<◌, max, min, ◌≡◌, refl, sym, ap, ◌∙◌, ◌≢◌, ◌↔◌,
  ◌⊎◌, inl, inr, Bool, true, false, not, ◌&&◌, ◌||◌, Option, none, some, List, [], ◌∷◌, ◌++◌, map,
  arith, ◌>>=◌, ltb, leb, ◌==◌, if◌then◌else◌, leb→le, le→leb, ltb→lt, lt→ltb, ==_iff, tests,
  Bool-cases, Option-cases, if_either, if_passed, AllSome, AllSome-bind, bind-eq-some, some-inj,
  AllSome-all, AllSome-map, Bytes, codes, beq, beq_iff, beq_refl, has_byte, cut, cut-append,
  cut_last, split, is_space, trim_left, trim_right, trim_space, starts_with, is_digit, is_upper,
  is_lower, lower_byte, lower_byte_idem, is_ascii, to_lower, length, get_elem?, take, drop,
  length-append, keep, any, every, All, All-append, All-map, Among, length-Among,
}
use sub_preprocessor.Netip.{Addr}
use sub_preprocessor.Cidrset.{AllowSet, contains}
use sub_preprocessor.Filter.{CountrySet, CountryCode, is_full, is_empty, permits, permitted}
use sub_preprocessor.Preprocess.{DropStats}

-- `asn.Result`
pub record AsnResult : Type 0 where
  pub country : CountryCode
  pub name : Bytes

-- the types of the interface `Filter`; a compiled pattern is what it matches
pub data IpFilter : Type 0 where
  geofeed_filter : IpFilter
  asn_filter : List (Bytes → Bool) → IpFilter
  cidr_filter : IpFilter

-- what the filters ask while a node is processed: the country chain, the ASN resolver if there is one,
-- `none` of an address being its error, and the address list
pub record Sight : Type 0 where
  pub allowed : CountrySet
  pub denied : CountrySet
  pub lookup : Addr → CountryCode
  pub asn : Option (Addr → Option AsnResult)
  pub cidr_set : AllowSet

abbrev pub geo_dropped : DropStats → DropStats
geo_dropped st = record st { geo_drop = st.geo_drop + 1 }

abbrev pub asn_dropped : DropStats → DropStats
asn_dropped st = record st { asn_drop = st.asn_drop + 1 }

abbrev pub cidr_dropped : DropStats → DropStats
cidr_dropped st = record st { cidr_drop = st.cidr_drop + 1 }

-- `GeofeedFilter.Process`
unfoldable pub geofeed_process : Sight → List Addr → DropStats → List Addr × DropStats
unfolding permitted is_full is_empty
geofeed_process s ips st =
    if is_full s.allowed && is_empty s.denied
    then (ips, st)
    else let result = permitted s.lookup ips s.allowed s.denied in
      (result, if length result == 0 then geo_dropped st else st)

-- `isNameDenied`
unfoldable pub is_name_denied : List (Bytes → Bool) → Bytes → Bool
is_name_denied [] name = false
is_name_denied (pattern ∷ patterns) name =
    let rest = is_name_denied patterns name in if pattern name then true else rest

-- what the loop of `ASNFilter.Process` does with an address
pub data AsnVerdict : Type 0 where
  asn_kept asn_denied country_denied : AsnVerdict

unfoldable pub asn_verdict : Sight → List (Bytes → Bool) → Option AsnResult → AsnVerdict
unfolding is_name_denied permits beq
asn_verdict s patterns none = asn_kept
asn_verdict s patterns (some result) =
    if not (beq result.name []) && is_name_denied patterns result.name
    then asn_denied
    else if not (permits s.allowed s.denied result.country)
    then country_denied
    else asn_kept

-- one round of that loop, from its end: `(ips[:n], (asnDrop, geoDrop))`
abbrev pub asn_round : AsnVerdict → Addr → List Addr × (Bool × Bool) → List Addr × (Bool × Bool)
asn_round asn_kept ip (ips, drops) = (ip ∷ ips, drops)
asn_round asn_denied ip (ips, (by_name, by_country)) = (ips, (true, by_country))
asn_round country_denied ip (ips, (by_name, by_country)) = (ips, (by_name, true))

unfoldable pub asn_loop :
    Sight → List (Bytes → Bool) → (Addr → Option AsnResult) → List Addr → List Addr × (Bool × Bool)
unfolding asn_verdict
asn_loop s patterns resolve [] = ([], (false, false))
asn_loop s patterns resolve (ip ∷ ips) =
    asn_round (asn_verdict s patterns (resolve ip)) ip (asn_loop s patterns resolve ips)

abbrev pub asn_booked : List Addr → Bool × Bool → DropStats → DropStats
asn_booked ips (by_name, by_country) st =
    if not (length ips == 0)
    then st
    else if by_name
    then asn_dropped st
    else if by_country
    then geo_dropped st
    else st

-- `ASNFilter.Process`
unfoldable pub asn_process :
    Sight → List (Bytes → Bool) → List Addr → DropStats → List Addr × DropStats
unfolding asn_loop
asn_process s patterns ips st = elim s.asn [
  | none ↦ (ips, st)
  | some resolve ↦
      let (kept, drops) = asn_loop s patterns resolve ips in (kept, asn_booked kept drops st)
]

-- `CIDRFilter.Process`
unfoldable pub cidr_process : Sight → List Addr → DropStats → List Addr × DropStats
unfolding keep contains
cidr_process s ips st =
    let kept = keep (contains s.cidr_set) ips in
    (kept, if length kept == 0 then cidr_dropped st else st)

-- `Process`
unfoldable pub process : Sight → IpFilter → List Addr → DropStats → List Addr × DropStats
unfolding geofeed_process asn_process cidr_process
process s geofeed_filter ips st = geofeed_process s ips st
process s (asn_filter patterns) ips st = asn_process s patterns ips st
process s cidr_filter ips st = cidr_process s ips st

-- the loop of `processNode` over the filters
unfoldable pub run_filters : Sight → List IpFilter → List Addr → DropStats → List Addr × DropStats
unfolding process
run_filters s [] ips st = (ips, st)
run_filters s (f ∷ filters) ips st =
    let (kept, booked) = process s f ips st in
    let rest = run_filters s filters kept booked in if length kept == 0 then ([], booked) else rest

-- `config.IPFilterSpec`, as far as the filters read it
pub record IpFilterSpec : Type 0 where
  pub kind : Bytes
  pub provider : Bytes
  pub deny_patterns : List Bytes

-- `compilePatterns`, with the compiler of package regexp
unfoldable pub compile_patterns :
    (Bytes → Option (Bytes → Bool)) → List Bytes → Option (List (Bytes → Bool))
compile_patterns compile [] = some []
compile_patterns compile (p ∷ patterns) =
    compile p >>= λ re. compile_patterns compile patterns >>= λ rest. some (re ∷ rest)

-- The switch of `buildFilters`: the filters that it appends. `none` is one of its errors.
unfoldable pub build_one :
    (Bytes → Option (Bytes → Bool)) → Bool → Bool → IpFilterSpec → Option (List IpFilter)
unfolding compile_patterns beq
build_one compile has_asn has_cidr spec =
    let compiled = compile_patterns compile spec.deny_patterns in
    if beq spec.kind (codes "country")
    then (if beq spec.provider (codes "asn")
        then (if not has_asn then none else some (asn_filter [] ∷ []))
        else some (geofeed_filter ∷ []))
    else if beq spec.kind (codes "asn")
    then (if not has_asn then none else compiled >>= λ res. some (asn_filter res ∷ []))
    else if beq spec.kind (codes "cidr")
    then (if not has_cidr then none else some (cidr_filter ∷ []))
    else some []

-- `buildFilters`
unfoldable pub build_filters :
    (Bytes → Option (Bytes → Bool)) → Bool → Bool → List IpFilterSpec → Option (List IpFilter)
unfolding build_one
build_filters compile has_asn has_cidr [] = some []
build_filters compile has_asn has_cidr (spec ∷ specs) =
    build_one compile has_asn has_cidr spec >>= λ fs.
    build_filters compile has_asn has_cidr specs >>= λ rest. some (fs ++ rest)
