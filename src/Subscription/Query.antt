-- ===== src/Subscription/Query.antt =====
-- internal/subscription/query.go: the query of a share link as a list of pairs, in the order of the
-- link, and the escapes of net/url.
pub mod Pairs
pub mod Escape
pub mod RoundTrip
pub mod Tests
use sub_preprocessor.Base.{
  ℕ, zero, suc, ◌+◌, ◌-◌, ◌*◌, ◌/◌, ◌%◌, ◌^◌, ◌≤◌, ◌<◌, max, min, ◌≡◌, refl, sym, ap, ◌∙◌, ◌≢◌, ◌↔◌,
  ◌⊎◌, inl, inr, Bool, true, false, not, ◌&&◌, ◌||◌, Option, none, some, List, [], ◌∷◌, ◌++◌, map,
  arith, ◌>>=◌, ltb, leb, ◌==◌, if◌then◌else◌, leb→le, le→leb, ltb→lt, lt→ltb, ==_iff, tests,
  Bool-cases, Option-cases, AllSome, AllSome-bind, bind-eq-some, some-inj, Bytes, codes, beq,
  beq_iff, beq_refl, has_byte, cut, cut_last, split, is_space, trim_left, trim_right, trim_space,
  starts_with, is_digit, is_upper, is_lower, lower_byte, lower_byte_idem, is_ascii, to_lower,
  length, get_elem?, take, drop, length-append, keep, any, every, All, All-append, All-map,
}
use sub_preprocessor.Base.Sort.{sort}

pub record QueryPair : Type 0 where
  pub key : Bytes
  pub value : Bytes

abbrev pub QueryList : Type 0
QueryList = List QueryPair

unfoldable pub add : QueryList → Bytes → Bytes → QueryList
add q key value = q ++ record { key = key; value = value } ∷ []

-- the loop of `set` over the pairs left, with its flag `found`
unfoldable pub set_rest : Bytes → Bytes → Bool → QueryList → QueryList
set_rest key value found [] = if found then [] else record { key = key; value = value } ∷ []
set_rest key value found (p ∷ ps) =
    let same = set_rest key value found ps in
    let first = record p { value = value } ∷ set_rest key value true ps in
    if not (beq p.key key) then p ∷ same else if not found then first else same

unfoldable pub set : QueryList → Bytes → Bytes → QueryList
unfolding set_rest
set q key value = set_rest key value false q

unfoldable pub get : QueryList → Bytes → Bytes
get [] key = []
get (p ∷ ps) key = if beq p.key key then p.value else get ps key

abbrev pub max_query_params : ℕ
max_query_params = 10000

abbrev pub is_upper_hex : ℕ → Bool
is_upper_hex c = leb b'A' c && leb c b'F'

abbrev pub is_lower_hex : ℕ → Bool
is_lower_hex c = leb b'a' c && leb c b'f'

abbrev pub is_hex : ℕ → Bool
is_hex c = is_digit c || is_upper_hex c || is_lower_hex c

-- the value of a hexadecimal digit
abbrev pub unhex : ℕ → ℕ
unhex c = if is_digit c then c - b'0' else if is_upper_hex c then c - b'A' + 10 else c - b'a' + 10

abbrev pub cons? : ℕ → Option Bytes → Option Bytes
cons? c none = none
cons? c (some s) = some (c ∷ s)

abbrev pub plain : ℕ → ℕ
plain c = if c == b'+' then b' ' else c

-- `url.QueryUnescape`: `none` on a '%' without two hexadecimal digits
unfoldable pub unescape : Bytes → Option Bytes
unescape [] = some []
unescape (c ∷ []) = if c == b'%' then none else some (plain c ∷ [])
unescape (c ∷ a ∷ []) =
    let rest = unescape (a ∷ []) in if c == b'%' then none else cons? (plain c) rest
unescape (c ∷ a ∷ b ∷ s) =
    let rest = unescape (a ∷ b ∷ s) in
    let coded = unescape s in
    if c == b'%'
    then (if is_hex a && is_hex b then cons? (unhex a * 16 + unhex b) coded else none)
    else cons? (plain c) rest

-- `unescapeQuery`: the call is skipped where there is nothing to unescape
unfoldable pub unescape_query : Bytes → Option Bytes
unfolding unescape has_byte
unescape_query s = if not (has_byte b'%' s) && not (has_byte b'+' s) then some s else unescape s

-- `key, value, _ := strings.Cut(segment, "=")`
unfoldable pub cut_pair : Bytes → Bytes × Bytes
unfolding cut
cut_pair segment = elim (cut b'=' segment) [ none ↦ (segment, []) | some (k, v) ↦ (k, v) ]

unfoldable pub parse_pair : Bytes → Option QueryPair
unfolding unescape_query cut_pair
parse_pair segment = do
  k ← unescape_query (cut_pair segment).0
  v ← unescape_query (cut_pair segment).1
  some (record { key = k; value = v })

-- The loop of `parse` over the segments. Where it fails the source also hands back the pairs read
-- so far, which no caller looks at.
unfoldable pub parse_segments : QueryList → List Bytes → Option QueryList
unfolding parse_pair has_byte add
parse_segments q [] = some q
parse_segments q ([] ∷ rest) = parse_segments q rest
parse_segments q ((c ∷ cs) ∷ rest) =
    if has_byte b';' (c ∷ cs)
    then none
    else (parse_pair (c ∷ cs) >>= λ p. parse_segments (add q p.key p.value) rest)

-- `strings.Count(raw, "&")+1` is the number of segments.
unfoldable pub parse : QueryList → Bytes → Option QueryList
unfolding parse_segments split
parse q raw =
    let segments = split b'&' raw in
    if ltb max_query_params (length segments) then none else parse_segments q segments

abbrev pub hex_digit : ℕ → ℕ
hex_digit n = if ltb n 10 then b'0' + n else b'A' + (n - 10)

unfoldable pub unreserved : ℕ → Bool
unreserved c =
    is_lower c || is_upper c || is_digit c || c == b'-' || c == b'_' || c == b'.' || c == b'~'

-- what `append(dst, '%', upperhex[c>>4], upperhex[c&0xf])` writes
abbrev pub percent : ℕ → Bytes
percent c = b'%' ∷ hex_digit (c / 16) ∷ hex_digit (c % 16) ∷ []

unfoldable pub escape_byte : ℕ → Bytes
unfolding unreserved
escape_byte c = if unreserved c then c ∷ [] else if c == b' ' then b'+' ∷ [] else percent c

-- `appendQueryEscape(nil, s)`
unfoldable pub escape : Bytes → Bytes
unfolding escape_byte
escape [] = []
escape (c ∷ cs) = escape_byte c ++ escape cs

unfoldable pub userinfo_safe : ℕ → Bool
unfolding unreserved
userinfo_safe c =
    unreserved c
    || c == b':'
    || c == b'$'
    || c == b'&'
    || c == b'+'
    || c == b','
    || c == b';'
    || c == b'='

-- `appendUserinfoEscape(nil, s)`
unfoldable pub escape_userinfo : Bytes → Bytes
unfolding userinfo_safe
escape_userinfo [] = []
escape_userinfo (c ∷ cs) = (if userinfo_safe c then c ∷ [] else percent c) ++ escape_userinfo cs

unfoldable pub path_segment_safe : ℕ → Bool
path_segment_safe c = c == b'$' || c == b'&' || c == b'+' || c == b':' || c == b'=' || c == b'@'

-- `appendPathEscape(nil, s)`
unfoldable pub escape_path : Bytes → Bytes
unfolding unreserved path_segment_safe
escape_path [] = []
escape_path (c ∷ cs) =
    (if unreserved c || path_segment_safe c then c ∷ [] else percent c) ++ escape_path cs

-- `strings.Compare(a, b) <= 0`
unfoldable pub bytes_leq : Bytes → Bytes → Bool
bytes_leq [] b = true
bytes_leq (x ∷ a) [] = false
bytes_leq (x ∷ a) (y ∷ b) =
    let rest = bytes_leq a b in if ltb x y then true else if ltb y x then false else rest

abbrev pub key_leq : QueryPair → QueryPair → Bool
key_leq p q = bytes_leq p.key q.key

unfoldable pub sort_by_key : QueryList → QueryList
unfolding bytes_leq
sort_by_key = sort key_leq

unfoldable pub encode_pair : QueryPair → Bytes
unfolding escape
encode_pair p = escape p.key ++ b'=' ∷ escape p.value

unfoldable pub encode_pairs : QueryList → Bytes
unfolding encode_pair
encode_pairs [] = []
encode_pairs (p ∷ []) = encode_pair p
encode_pairs (p ∷ q ∷ rest) = encode_pair p ++ b'&' ∷ encode_pairs (q ∷ rest)

-- `appendEncoded(nil)`
unfoldable pub encode : QueryList → Bytes
unfolding sort_by_key encode_pairs
encode q = encode_pairs (sort_by_key q)

sum_len : QueryList → ℕ
sum_len [] = 0
sum_len (p ∷ ps) = length p.key + length p.value + 2 + sum_len ps

-- `rawLen`
unfoldable pub raw_len : QueryList → ℕ
unfolding sum_len
raw_len q = let n = sum_len q in if ltb 0 n then n - 1 else n
