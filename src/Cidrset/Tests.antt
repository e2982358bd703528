-- ===== src/Cidrset/Tests.antt =====
-- internal/cidrset: runs of the definitions and instances of the theorems.
use sub_preprocessor.Base.{
  ◌↔◌, cut, cut_last, has_byte, ℕ, ◌+◌, ◌*◌, ◌^◌, ◌≡◌, refl, true, false, Option, none, some, List,
  [], ◌∷◌, arith, Bytes, codes, any, All,
}
use sub_preprocessor.Base.Sort.{sort}
use sub_preprocessor.Base.Search.{binary_search}
use sub_preprocessor.Base.Decimal.{all_digits, value_from}
use sub_preprocessor.Ioutil.{lines}
use sub_preprocessor.Netip.{parse_prefix, parse_addr, unmap, v4, v6, host_mask, mask_from}
use sub_preprocessor.Cidrset.{IpRange, AllowSet, new_set, contains, parse, load, parse_ranges}
use sub_preprocessor.Cidrset.Union.{IsRange, in_range}
use sub_preprocessor.Cidrset.Contains.{contains-new_set}
use sub_preprocessor.Cidrset.Load.{contains-load}
use sub_preprocessor.Cidrset.Admitted.{IsAdmitted}

abbrev range : ℕ → ℕ → IpRange
range lo hi = record { lo = lo; hi = hi }

abbrev mixed : List IpRange
mixed = range 20 30 ∷ range 5 9 ∷ range 10 12 ∷ range 25 40 ∷ range 22 23 ∷ []

mixed-IsRange : All IsRange mixed
mixed-IsRange = omega arith

new_set_run : (new_set mixed).ranges ≡ range 5 12 ∷ range 20 40 ∷ []
unfolding new_set sort
new_set_run = refl

top_run :
    new_set (range 7 4294967295 ∷ range 9 10 ∷ [])
    ≡ record { ranges = range 7 4294967295 ∷ []; covered = 4294967289 }
unfolding new_set sort
top_run = refl

abbrev body : Bytes
body = codes "# list\n10.0.0.1/24\n\n1.2.3.4\n::1\n300.1.1.1\n10.0.0.0/33"

parse_run : parse body ≡ (
  record { ranges = range 16909060 16909060 ∷ range 167772160 167772415 ∷ []; covered = 257 },
  3,
)
unfolding parse sort lines cut parse_addr parse_prefix host_mask mask_from all_digits value_from
    has_byte cut_last
parse_run = refl

contains_run :
    (contains (parse body).0 (v4 167772200) ≡ true)
    × (contains (parse body).0 (v4 167772416) ≡ false)
    × (contains (parse body).0 (v6 (0xffff * 2 ^ 32 + 16909060)) ≡ true)
    × (contains (parse body).0 (v6 1) ≡ false)
unfolding parse contains unmap sort lines cut parse_addr parse_prefix host_mask mask_from all_digits
    value_from has_byte cut_last binary_search
contains_run = (refl, refl, refl, refl)

contains-new_set_example : contains (new_set mixed) (v4 11) ≡ any (in_range 11) mixed
contains-new_set_example = contains-new_set 11 mixed (omega arith) mixed-IsRange

abbrev fetched : List (Bytes × Option Bytes)
fetched = (codes "https://a", none) ∷ ([], none) ∷ (codes "https://b", some body) ∷ []

abbrev loaded : AllowSet
loaded = new_set (parse_ranges body).0

loaded_run : (load fetched).0 ≡ some loaded
unfolding load lines cut parse_addr parse_prefix host_mask mask_from all_digits value_from has_byte
    cut_last sort
loaded_run = refl

contains-load_example : (contains loaded (v4 16909060) ≡ true) ↔ IsAdmitted 16909060 fetched
contains-load_example = contains-load 16909060 fetched (omega arith) loaded_run
