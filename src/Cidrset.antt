-- ===== src/Cidrset.antt =====
-- internal/cidrset/cidrset.go: the IPv4 allow-list, its text form and its lookup. A `uint32` is a
-- number with its wrap-around written out; the ranges of a set are a list.

pub mod Union
pub mod Contains
pub mod Covered
pub mod Lines
pub mod Admitted
pub mod Load
pub mod Tests
use sub_preprocessor.Base.{
  ◌>>=◌, ℕ, zero, suc, ◌+◌, ◌-◌, ◌%◌, ◌^◌, ◌≤◌, ◌<◌, max, Bool, true, false, not, ◌&&◌, ◌||◌, List,
  [], ◌∷◌, ◌++◌, Option, none, some, leb, ltb, ◌==◌, if◌then◌else◌, Bytes, has_byte, length,
  get_elem?,
}
use sub_preprocessor.Base.Sort.{sort}
use sub_preprocessor.Base.Search.{binary_search}
use sub_preprocessor.Ioutil.{lines}
use sub_preprocessor.Netip.{Addr, v4, v6, unmap, parse_addr, parse_prefix, mask_from, host_mask}

abbrev pub max_uint32 : ℕ
max_uint32 = 2 ^ 32 - 1

-- an inclusive range
pub record IpRange : Type 0 where
  pub lo : ℕ
  pub hi : ℕ

pub record AllowSet : Type 0 where
  pub ranges : List IpRange
  pub covered : ℕ

abbrev pub empty : AllowSet
empty = record { ranges = []; covered = 0 }

-- the comparison of `slices.SortFunc`
abbrev pub starts_before : IpRange → IpRange → Bool
starts_before a b = leb a.lo b.lo

abbrev pub inc32 : ℕ → ℕ
inc32 n = (n + 1) % 2 ^ 32

-- the loop over `ranges[1:]`; the first argument is `ranges[last]`
unfoldable pub coalesce : IpRange → List IpRange → List IpRange
coalesce last [] = last ∷ []
coalesce last (next ∷ rest) =
    let joined = coalesce (record last { hi = max last.hi next.hi }) rest in
    let apart = coalesce next rest in
    if last.hi == max_uint32
    then last ∷ []
    else if leb next.lo (inc32 last.hi)
    then joined
    else last ∷ apart

-- `covered += uint64(r.hi-r.lo) + 1`
unfoldable pub count_covered : List IpRange → ℕ
count_covered [] = 0
count_covered (r ∷ rs) = ((r.hi + 2 ^ 32 - r.lo) % 2 ^ 32 + 1 + count_covered rs) % 2 ^ 64

merged : List IpRange → List IpRange
merged [] = []
merged (first ∷ rest) = coalesce first rest

unfoldable pub new_set : List IpRange → AllowSet
unfolding coalesce count_covered merged
new_set rs =
    let ranges = merged (sort starts_before rs) in
    record { ranges = ranges; covered = count_covered ranges }

-- `value <= s.ranges[i].hi`; an index out of range does not occur (Cidrset/Contains)
unfoldable pub ends_after : List IpRange → ℕ → ℕ → Bool
ends_after ranges i value = elim (get_elem? ranges i) [ none ↦ false | some r ↦ leb value r.hi ]

-- `s.ranges[i].lo > value`
unfoldable pub starts_above : List IpRange → ℕ → ℕ → Bool
starts_above ranges value i = elim (get_elem? ranges i) [ none ↦ true | some r ↦ ltb value r.lo ]

unfoldable pub contains_value : AllowSet → ℕ → Bool
unfolding ends_after starts_above
contains_value s value =
    let idx = binary_search (length s.ranges) (starts_above s.ranges value) in
    if idx == 0 then false else ends_after s.ranges (idx - 1) value

contains_addr : AllowSet → Addr → Bool
contains_addr s (v4 value) = contains_value s value
contains_addr s (v6 n) = false

unfoldable pub contains : AllowSet → Addr → Bool
unfolding contains_addr contains_value
contains s ip = if length s.ranges == 0 then false else contains_addr s (unmap ip)

-- the bare address of a line, or its prefix after `Masked`
single : Addr → Option IpRange
single (v4 value) = some (record { lo = value; hi = value })
single (v6 n) = none

-- `lo | hostMask(bits)`: the host bits of a masked address are clear, so they are added
prefix_range : Addr → ℕ → Option IpRange
prefix_range (v4 value) bits =
    let lo = mask_from value bits in some (record { lo = lo; hi = lo + host_mask bits })
prefix_range (v6 n) bits = none

unfoldable pub parse_line : Bytes → Option IpRange
unfolding single prefix_range
parse_line line =
    if has_byte b'/' line
    then parse_prefix line >>= (λ p. prefix_range p.0 p.1)
    else parse_addr line >>= single

-- one round of the loop of `parseRanges`, in front of the later rounds
unfoldable pub add_line : Option IpRange → List IpRange × ℕ → List IpRange × ℕ
add_line none (ranges, skipped) = (ranges, skipped + 1)
add_line (some r) (ranges, skipped) = (r ∷ ranges, skipped)

-- the ranges of the lines, and how many lines were skipped
unfoldable pub collect : List Bytes → List IpRange × ℕ
unfolding parse_line add_line
collect [] = ([], 0)
collect (line ∷ rest) = add_line (parse_line line) (collect rest)

unfoldable pub parse_ranges : Bytes → List IpRange × ℕ
unfolding collect
parse_ranges body = collect (lines body)

unfoldable pub parse : Bytes → AllowSet × ℕ
unfolding parse_ranges new_set
parse body = let (ranges, skipped) = parse_ranges body in (new_set ranges, skipped)

-- one round of the loop of `Load`, on what `parseRanges` made of the body
unfoldable pub add_source : List IpRange → List IpRange × ℕ → List IpRange × ℕ
add_source [] (ranges, failed) = (ranges, failed + 1)
add_source (r ∷ part) (ranges, failed) = (r ∷ (part ++ ranges), failed)

-- What `Load` makes of its URLs and their bodies: `none` is a fetch that failed, and an empty URL is
-- passed over. It returns the ranges of every source that gave some, and how many gave none.
unfoldable pub gather : List (Bytes × Option Bytes) → List IpRange × ℕ
unfolding parse_ranges add_source
gather [] = ([], 0)
gather (([], fetched) ∷ rest) = gather rest
gather ((c ∷ url, none) ∷ rest) = add_source [] (gather rest)
gather ((c ∷ url, some body) ∷ rest) = add_source (parse_ranges body).0 (gather rest)

-- `Load`: its error is `none`, beside the count of failed sources
unfoldable pub load : List (Bytes × Option Bytes) → Option AllowSet × ℕ
unfolding gather new_set
load sources =
    let (ranges, failed) = gather sources in
    (if length ranges == 0 then none else some (new_set ranges), failed)
