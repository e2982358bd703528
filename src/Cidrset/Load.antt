-- ===== src/Cidrset/Load.antt =====
-- internal/cidrset/cidrset.go: what a loaded set admits, and what loading reports of the sources that
-- failed.
use sub_preprocessor.Base.{
  true, some-inj, ℕ, ◌+◌, ◌^◌, ◌≤◌, ◌<◌, ◌≡◌, refl, sym, ap, ◌∙◌, ◌↔◌, inl, inr, Option, none, some,
  List, [], ◌∷◌, arith, ◌==◌, if◌then◌else◌, Bool-cases, Bytes, length, length-append, any,
}
use sub_preprocessor.Netip.{v4}
use sub_preprocessor.Cidrset.{
  add_source, AllowSet, parse_ranges, parse, gather, load, new_set, contains,
}
use sub_preprocessor.Cidrset.Union.{in_range}
use sub_preprocessor.Cidrset.{add_source}
use sub_preprocessor.Cidrset.Admitted.{IsAdmitted, gather-IsAdmitted}
use sub_preprocessor.Cidrset.Contains.{contains-new_set}
use sub_preprocessor.Cidrset.Lines.{gather-IsRange, parse_ranges-IsRange}

-- The lookup in a parsed body is that some line of it gave a range that holds the address.
pub contains-parse :
    (v : ℕ) (body : Bytes)
    → v < 2 ^ 32
    → contains (parse body).0 (v4 v) ≡ any (in_range v) (parse_ranges body).0
unfolding parse
contains-parse v body h = contains-new_set v (parse_ranges body).0 h (parse_ranges-IsRange body)

-- Where loading has a set, an IPv4 address is in it exactly when a line of the body of some
-- source with a URL that could be fetched is this address, or a prefix whose first bits it
-- shares.
pub contains-load :
    (v : ℕ) (sources : List (Bytes × Option Bytes)) {s : AllowSet}
    → v < 2 ^ 32
    → (load sources).0 ≡ some s
    → (contains s (v4 v) ≡ true) ↔ IsAdmitted v sources
unfolding load
contains-load v sources {s} h e = elim (Bool-cases (length (gather sources).0 == 0)) [
  | inl z ↦ let bad : none ≡ some s = rw z at e in absurd (cc)
  | inr z ↦
      let made : some (new_set (gather sources).0) ≡ some s = rw z at e in
      let same =
        ap (λ t. contains t (v4 v)) (sym (some-inj made))
        ∙ contains-new_set v (gather sources).0 h (gather-IsRange sources) in
      let (reads, admits) = gather-IsAdmitted v sources in
      (λ t. reads (sym same ∙ t), λ a. same ∙ admits a)
]

-- how many sources with a URL gave no range
pub failures : List (Bytes × Option Bytes) → ℕ
failures [] = 0
failures (([], fetched) ∷ rest) = failures rest
failures ((c ∷ url, none) ∷ rest) = failures rest + 1
failures ((c ∷ url, some body) ∷ rest) =
    failures rest + (if length (parse_ranges body).0 == 0 then 1 else 0)

-- how many sources have a URL
pub named : List (Bytes × Option Bytes) → ℕ
named [] = 0
named (([], fetched) ∷ rest) = named rest
named ((c ∷ url, fetched) ∷ rest) = named rest + 1

gather-failures :
    (l : List (Bytes × Option Bytes))
    → ((gather l).1 ≡ failures l)
      × (failures l ≤ named l)
      × ((length (gather l).0 ≡ 0) ↔ (failures l ≡ named l))
unfolding gather failures named add_source
gather-failures [] = (refl, omega arith, (λ e. refl, λ e. refl))
gather-failures (([], fetched) ∷ rest) = gather-failures rest
gather-failures ((c ∷ url, none) ∷ rest) = ground (arith, gather-failures rest)
gather-failures ((c ∷ url, some body) ∷ rest) =
    ground (arith, gather-failures rest, length-append (parse_ranges body).0 (gather rest).0)

-- Loading reports as failures the sources with a URL that gave no range, and has no set exactly
-- when these are all the sources with a URL.
pub load-failures :
    (sources : List (Bytes × Option Bytes))
    → ((load sources).1 ≡ failures sources)
      × (((load sources).0 ≡ none) ↔ (failures sources ≡ named sources))
unfolding load
load-failures sources = ground (arith, gather-failures sources)
