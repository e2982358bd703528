-- ===== src/Preprocess/Chain.antt =====
-- internal/preprocess/processor.go: the country databases that the filter asks, in the order of the
-- annotate entries.
pub mod Order
pub mod Verdicts
use sub_preprocessor.Base.{
  ℕ, zero, suc, ◌+◌, ◌-◌, ◌*◌, ◌/◌, ◌%◌, ◌^◌, ◌≤◌, ◌<◌, max, min, ◌≡◌, refl, sym, ap, ◌∙◌, ◌≢◌, ◌↔◌,
  ◌⊎◌, inl, inr, Bool, true, false, not, ◌&&◌, ◌||◌, Option, none, some, List, [], ◌∷◌, ◌++◌, map,
  arith, ◌>>=◌, ltb, leb, ◌==◌, if◌then◌else◌, leb→le, le→leb, ltb→lt, lt→ltb, ==_iff, tests,
  Bool-cases, Option-cases, if_either, if_passed, AllSome, AllSome-bind, bind-eq-some, some-inj,
  AllSome-all, AllSome-map, Bytes, codes, beq, beq_iff, beq_refl, has_byte, cut, cut-append,
  cut_last, split, is_space, trim_left, trim_right, trim_space, starts_with, is_digit, is_upper,
  is_lower, lower_byte, lower_byte_idem, is_ascii, to_lower, length, get_elem?, take, drop,
  length-append, keep, any, every, All, All-append, All-map, Among, length-Among,
}
use sub_preprocessor.Netip.{Addr}
use sub_preprocessor.Filter.{CountryCode}
use sub_preprocessor.Stable.Merge.{seen_key}

-- `config.AnnotateSpec`
pub record AnnotateSpec : Type 0 where
  pub tag : Bytes
  pub providers : List Bytes

-- `localCountryProvider`
unfoldable pub local_country_provider : Bool → Bool → Bytes → Bool
unfolding beq
local_country_provider have_dbip have_registry prov =
    if beq prov (codes "geofeed")
    then true
    else if beq prov (codes "dbip")
    then have_dbip
    else if beq prov (codes "registry")
    then have_registry
    else false

-- the providers of the entries that the outer loop does not skip
unfoldable pub geo_providers : List AnnotateSpec → List Bytes
unfolding beq
geo_providers [] = []
geo_providers (a ∷ annotate) =
    let rest = geo_providers annotate in
    if not (beq a.tag (codes "GEO")) then rest else a.providers ++ rest

-- the inner loop of `countryChainOrder`, on what is in the buffer
unfoldable pub order_from : (Bytes → Bool) → List Bytes → List Bytes → List Bytes
unfolding seen_key
order_from is_local buf [] = buf
order_from is_local buf (prov ∷ provs) =
    let skipped = order_from is_local buf provs in
    let added = order_from is_local (buf ++ prov ∷ []) provs in
    if not (is_local prov) || seen_key prov buf then skipped else added

-- the test behind the loops
abbrev pub is_plain : List Bytes → Bool
is_plain [] = true
is_plain (p ∷ []) = beq p (codes "geofeed")
is_plain (p ∷ q ∷ ps) = false

-- `countryChainOrder`
unfoldable pub country_chain_order : List AnnotateSpec → Bool → Bool → List Bytes
unfolding order_from geo_providers local_country_provider beq
country_chain_order annotate have_dbip have_registry =
    let buf =
      order_from (local_country_provider have_dbip have_registry) [] (geo_providers annotate) in
    if is_plain buf then [] else buf

abbrev pub is_placed : CountryCode → Bool
is_placed c = not (c.hi == 0 && c.lo == 0)

-- `chainLookup.LookupCountry`
unfoldable pub chain_lookup : List (Addr → CountryCode) → Addr → CountryCode
chain_lookup [] ip = record { hi = 0; lo = 0 }
chain_lookup (l ∷ ls) ip = let rest = chain_lookup ls ip in if is_placed (l ip) then l ip else rest

-- the lookups of a processor
pub record Lookups : Type 0 where
  pub geofeed : Addr → CountryCode
  pub dbip : Addr → CountryCode
  pub registry : Addr → CountryCode

-- the switch of `countryChain`
unfoldable pub lookup_named : Lookups → Bytes → Addr → CountryCode
unfolding beq
lookup_named ls name =
    if beq name (codes "dbip")
    then ls.dbip
    else if beq name (codes "registry")
    then ls.registry
    else ls.geofeed

-- `countryChain`
unfoldable pub country_chain : List Bytes → Lookups → Addr → CountryCode
unfolding chain_lookup lookup_named
country_chain [] ls ip = ls.geofeed ip
country_chain (name ∷ order) ls ip = chain_lookup (map (lookup_named ls) (name ∷ order)) ip
