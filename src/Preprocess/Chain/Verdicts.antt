-- ===== src/Preprocess/Chain/Verdicts.antt =====
-- internal/preprocess/processor.go: which country the annotate entries give an address.
use sub_preprocessor.Base.{
  Option, none, some, ◌&&◌, ◌≡◌, refl, sym, ap, ◌∙◌, inl, inr, Bool, List, [], ◌∷◌, ◌++◌, map,
  arith, if◌then◌else◌, Bool-cases, Bytes, codes, beq, beq_iff, keep,
}
use mathlib.Core.Path.{subst}
use sub_preprocessor.Netip.{Addr}
use sub_preprocessor.Filter.{CountryCode}
use sub_preprocessor.Preprocess.Chain.Order.{first_placed, placed_or_geofeed, chain_of_written}
use sub_preprocessor.Preprocess.Chain.{
  AnnotateSpec, local_country_provider, geo_providers, country_chain_order, is_placed, chain_lookup,
  Lookups, lookup_named, country_chain,
}

-- The written chain, told without the loops of the code.
-- what a provider answers for an address, if the filter can ask it
abbrev pub answer_of : Bool → Bool → Lookups → Addr → Bytes → Option CountryCode
answer_of have_dbip have_registry ls ip p =
    if beq p (codes "geofeed")
    then some (ls.geofeed ip)
    else if beq p (codes "dbip") && have_dbip
    then some (ls.dbip ip)
    else if beq p (codes "registry") && have_registry
    then some (ls.registry ip)
    else none

abbrev pub list_of : {A : Type 0} → Option A → List A
list_of none = []
list_of (some a) = a ∷ []

-- the answers of the providers of one entry, in their order
abbrev pub answers_of : (Bytes → Option CountryCode) → List Bytes → List CountryCode
answers_of answer [] = []
answers_of answer (p ∷ ps) = list_of (answer p) ++ answers_of answer ps

-- the answers of all entries with the tag GEO, in the order of the entries
abbrev pub written_answers : (Bytes → Option CountryCode) → List AnnotateSpec → List CountryCode
written_answers answer [] = []
written_answers answer (a ∷ annotate) =
    (if beq a.tag (codes "GEO") then answers_of answer a.providers else [])
    ++ written_answers answer annotate

abbrev pub no_country : CountryCode
no_country = record { hi = 0; lo = 0 }

-- the first code among the answers, and no country if there is none
abbrev pub first_code : List CountryCode → CountryCode
first_code [] = no_country
first_code (c ∷ cs) = if is_placed c then c else first_code cs

abbrev pub code_or : CountryCode → List CountryCode → CountryCode
code_or default [] = default
code_or default (c ∷ cs) = first_code (c ∷ cs)

-- the geofeed if no written provider answers, else the first code
abbrev pub written_verdict : List AnnotateSpec → Bool → Bool → Lookups → Addr → CountryCode
written_verdict annotate have_dbip have_registry ls ip =
    code_or (ls.geofeed ip) (written_answers (answer_of have_dbip have_registry ls ip) annotate)

module _ (have_dbip have_registry : Bool) (ls : Lookups) (ip : Addr) where
  -- the local providers are those that answer
  answer_of_lem :
      (p : Bytes)
      → answer_of have_dbip have_registry ls ip p ≡ (
          if local_country_provider have_dbip have_registry p
          then some (lookup_named ls p ip)
          else none)
  unfolding local_country_provider lookup_named beq
  answer_of_lem p = elim (Bool-cases (beq p (codes "geofeed"))) [
    | inl y ↦ subst Agrees (sym ((beq_iff p (codes "geofeed")).0 y)) refl
    | inr n ↦ elim (Bool-cases (beq p (codes "dbip"))) [
      | inl y ↦ subst Agrees (sym ((beq_iff p (codes "dbip")).0 y)) (by_flag have_dbip)
      | inr m ↦ ground (arith, n, m)
    ]
  ]
    where
      Agrees : Bytes → Type 0
      Agrees q = answer_of have_dbip have_registry ls ip q ≡ (
          if local_country_provider have_dbip have_registry q
          then some (lookup_named ls q ip)
          else none)

      by_flag : (b : Bool) → Agrees (codes "dbip")
      by_flag b = ground arith

  codes_of : List Bytes → List CountryCode
  codes_of ps =
      map (λ p. lookup_named ls p ip) (keep (local_country_provider have_dbip have_registry) ps)

  answers_of-keep :
      (ps : List Bytes) → answers_of (answer_of have_dbip have_registry ls ip) ps ≡ codes_of ps
  unfolding keep codes_of
  answers_of-keep [] = refl
  answers_of-keep (p ∷ ps) =
      let ih = answers_of-keep ps in
      elim (Bool-cases (local_country_provider have_dbip have_registry p)) [
        | inl y ↦ rw (answer_of_lem p, y) (ap (λ l. lookup_named ls p ip ∷ l) ih)
        | inr n ↦ rw (answer_of_lem p, n) ih
      ]

  codes_of-append : (xs ys : List Bytes) → codes_of (xs ++ ys) ≡ codes_of xs ++ codes_of ys
  unfolding keep codes_of
  codes_of-append [] ys = refl
  codes_of-append (x ∷ xs) ys =
      let ih = codes_of-append xs ys in
      elim (Bool-cases (local_country_provider have_dbip have_registry x)) [
        | inl y ↦ rw y (ap (λ l. lookup_named ls x ip ∷ l) ih)
        | inr n ↦ rw n ih
      ]

  written_answers-codes_of :
      (annotate : List AnnotateSpec)
      → written_answers (answer_of have_dbip have_registry ls ip) annotate
        ≡ codes_of (geo_providers annotate)
  unfolding geo_providers
  written_answers-codes_of [] = unfold codes_of keep in refl
  written_answers-codes_of (a ∷ annotate) =
      let ih = written_answers-codes_of annotate in
      elim (Bool-cases (beq a.tag (codes "GEO"))) [
        | inr n ↦ rw n ih
        | inl y ↦
            rw (y, answers_of-keep a.providers, ih)
              (sym (codes_of-append a.providers (geo_providers annotate)))
      ]

first_code-map :
    (ls : Lookups) (names : List Bytes) (ip : Addr)
    → first_code (map (λ p. lookup_named ls p ip) names) ≡ first_placed ls names ip
unfolding first_placed chain_lookup
first_code-map ls [] ip = refl
first_code-map ls (p ∷ names) ip =
    let ih = first_code-map ls names ip in
    elim (Bool-cases (is_placed (lookup_named ls p ip))) [ inl y ↦ rw y refl | inr n ↦ rw n ih ]

-- the codes of a list of providers are read as the chain of these providers
code_or-map :
    (ls : Lookups) (names : List Bytes) (ip : Addr)
    → code_or (ls.geofeed ip) (map (λ p. lookup_named ls p ip) names)
      ≡ placed_or_geofeed ls names ip
unfolding placed_or_geofeed
code_or-map ls [] ip = refl
code_or-map ls (p ∷ names) ip = first_code-map ls (p ∷ names) ip

-- The country that the filter sees is the first that an answering provider places the address
-- in, or none if no such provider does: the providers of each entry with the tag GEO are asked
-- in their order, entry after entry, dbip and registry only where they are loaded. Without any
-- such provider it is that of the geofeed.
pub country_chain-country_chain_order :
    (annotate : List AnnotateSpec) (have_dbip have_registry : Bool) (ls : Lookups) (ip : Addr)
    → country_chain (country_chain_order annotate have_dbip have_registry) ls ip
      ≡ written_verdict annotate have_dbip have_registry ls ip
unfolding codes_of
country_chain-country_chain_order annotate have_dbip have_registry ls ip =
    let provs = keep (local_country_provider have_dbip have_registry) (geo_providers annotate) in
    chain_of_written annotate have_dbip have_registry ls ip
    ∙ (sym (code_or-map ls provs ip)
        ∙ sym (
            ap (λ l. code_or (ls.geofeed ip) l)
              (written_answers-codes_of have_dbip have_registry ls ip annotate)))
