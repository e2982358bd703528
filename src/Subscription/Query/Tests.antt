-- ===== src/Subscription/Query/Tests.antt =====
-- internal/subscription/query.go: runs of the definitions and instances of the theorems.
use sub_preprocessor.Base.{◌≡◌, refl, some, [], ◌∷◌, arith, Bytes, codes, beq, All}
use sub_preprocessor.Subscription.Query.{QueryPair, QueryList, set, get, parse, encode, sort_by_key}
use sub_preprocessor.Base.Sort.{sort}
use sub_preprocessor.Subscription.Query.RoundTrip.{IsBytePair, parse-encode}

abbrev pair : Bytes → Bytes → QueryPair
pair key value = record { key = key; value = value }

abbrev params : QueryList
params =
    pair (codes "sni") (codes "a b")
    ∷ pair (codes "alpn") (codes "h2,x&y")
    ∷ pair (codes "sni") (codes "%")
    ∷ []

encode_run : encode params ≡ codes "alpn=h2%2Cx%26y&sni=a+b&sni=%25"
unfolding encode sort
encode_run = refl

get_run : get (set params (codes "sni") (codes "c")) (codes "sni") ≡ codes "c"
unfolding get set beq
get_run = refl

params-IsBytePair : All IsBytePair params
params-IsBytePair = omega arith

parse-encode_example : parse [] (encode params) ≡ some (sort_by_key params)
parse-encode_example = parse-encode params params-IsBytePair (omega arith)
