-- ===== src/Filter/Tests.antt =====
-- internal/filter/filter.go: runs of the definitions and instances of the theorems.
use sub_preprocessor.Base.{◌≡◌, refl, true, false, List, [], ◌∷◌, Bytes, codes}
use sub_preprocessor.Filter.{CountryCode, has, parse_allowed}
use sub_preprocessor.Filter.Bits.{test_bit, set_bit}

abbrev de : CountryCode
de = record { hi = b'D'; lo = b'E' }

abbrev ru : CountryCode
ru = record { hi = b'R'; lo = b'U' }

abbrev texts : List Bytes
texts = codes "de, us" ∷ codes "FRA" ∷ []

parse_allowed_run : (has (parse_allowed texts) de ≡ true) × (has (parse_allowed texts) ru ≡ false)
unfolding parse_allowed has test_bit set_bit
parse_allowed_run = (refl, refl)
