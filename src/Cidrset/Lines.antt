-- ===== src/Cidrset/Lines.antt =====
-- What the lines of a body contribute: well-formed ranges, a prefix the addresses that share its
-- first bits, and a body whose lines are all refused nothing.
use sub_preprocessor.Base.{
  ℕ, zero, suc, ◌+◌, ◌-◌, ◌*◌, ◌/◌, ◌^◌, ◌≤◌, ◌<◌, ◌≡◌, refl, inl, inr, Bool, true, ◌&&◌, Option,
  none, some, List, [], ◌∷◌, arith, ◌>>=◌, leb, ◌==◌, Bool-cases, AllSome, AllSome-bind, Bytes,
  has_byte, cut, cut_last, All, All-append,
}
use sub_preprocessor.Netip.{
  parse_prefix, v6, v4, parse_addr, Addr, parse_octets, parse_field, host_mask, mask_from,
}
use sub_preprocessor.Cidrset.{
  add_line, add_source, IpRange, single, prefix_range, parse_line, collect, parse_ranges, gather,
}
use sub_preprocessor.Cidrset.Union.{in_range, IsRange}
use native.Mathlib.Nat.{div-lt_iff_lt-mul, le-div_iff_mul-le}
use sub_preprocessor.Cidrset.{add_line, add_source, IpRange, collect, parse_line}
use sub_preprocessor.Ioutil.{lines}

all_upto : ℕ → (ℕ → Bool) → Bool
all_upto zero p = true
all_upto (suc n) p = p n && all_upto n p

all_upto_sound : (n : ℕ) (p : ℕ → Bool) (x : ℕ) → all_upto n p ≡ true → x < n → p x ≡ true
unfolding all_upto
all_upto_sound zero p x h lt = absurd (omega arith)
all_upto_sound (suc n) p x h lt = ground (arith, all_upto_sound n p x)

-- Both masks of every prefix length, by evaluation.
mask_table :
    all_upto 33 (λ b. (host_mask b + 1 == 2 ^ (32 - b)) && (2 ^ (32 - b) * 2 ^ b == 2 ^ 32)) ≡ true
unfolding all_upto host_mask
mask_table = refl

host_mask_lem :
    (b : ℕ) → b ≤ 32 → (host_mask b + 1 ≡ 2 ^ (32 - b)) × (2 ^ (32 - b) * 2 ^ b ≡ 2 ^ 32)
host_mask_lem b h = ground (
  arith,
  all_upto_sound 33 (λ b. (host_mask b + 1 == 2 ^ (32 - b)) && (2 ^ (32 - b) * 2 ^ b == 2 ^ 32)) b
      mask_table,
)

-- with `p` addresses to a block and `q` blocks
masked_fits :
    (value p q m : ℕ) → m + 1 ≡ p → p * q ≡ 2 ^ 32 → value < 2 ^ 32 → value / p * p + m < 2 ^ 32
masked_fits value p q m e f h = grind arith

same_block :
    (value v p m : ℕ)
    → m + 1 ≡ p
    → (leb (value / p * p) v && leb v (value / p * p + m)) ≡ (v / p == value / p)
same_block value v p m e =
    let low = le-div_iff_mul-le {k = p} {x = value / p} {y = v} (omega arith) in
    let high = div-lt_iff_lt-mul {k = p} {x = v} {y = value / p + 1} (omega arith) in
    let row : (value / p + 1) * p ≡ value / p * p + p = omega arith in
    ground (arith, low.0, low.1, high.0, high.1, row)

masked_IsRange :
    (value bits : ℕ)
    → value < 2 ^ 32
    → bits ≤ 32
    → IsRange (record { lo = mask_from value bits; hi = mask_from value bits + host_mask bits })
unfolding mask_from
masked_IsRange value bits h k = record {
  ordered = omega arith;
  fits =
      masked_fits value (2 ^ (32 - bits)) (2 ^ bits) (host_mask bits) (host_mask_lem bits k).0
        (host_mask_lem bits k).1 h;
}

-- A prefix admits exactly the addresses that share its first bits.
pub in_range-prefix :
    (v value bits : ℕ)
    → bits ≤ 32
    → in_range v (record { lo = mask_from value bits; hi = mask_from value bits + host_mask bits })
      ≡ (v / 2 ^ (32 - bits) == value / 2 ^ (32 - bits))
unfolding mask_from
in_range-prefix v value bits k =
    same_block value v (2 ^ (32 - bits)) (host_mask bits) (host_mask_lem bits k).0

-- an address that fits its width
abbrev pub FitsWidth : Addr → Type 0
FitsWidth (v4 n) = n < 2 ^ 32
FitsWidth (v6 n) = Unit

parse_field-le : (s : Bytes) (limit : ℕ) → AllSome (λ n. n ≤ limit) (parse_field s limit)
unfolding parse_field
parse_field-le [] limit = tt
parse_field-le (c ∷ cs) limit = ground arith

parse_octets-FitsWidth : (a b c d : Bytes) → AllSome FitsWidth (parse_octets a b c d)
unfolding parse_octets
parse_octets-FitsWidth a b c d =
    ground (
      arith,
      parse_field-le a 255,
      parse_field-le b 255,
      parse_field-le c 255,
      parse_field-le d 255,
    )

parse_addr-FitsWidth : (s : Bytes) → AllSome FitsWidth (parse_addr s)
unfolding parse_addr
parse_addr-FitsWidth s = AllSome-bind FitsWidth (cut b'.' s) _ λ (a, s1).
    AllSome-bind FitsWidth (cut b'.' s1) _
      λ (b, s2). AllSome-bind FitsWidth (cut b'.' s2) _ λ (c, d). parse_octets-FitsWidth a b c d

single-IsRange : (a : Addr) → FitsWidth a → AllSome IsRange (single a)
unfolding single
single-IsRange (v4 n) h = record { ordered = omega arith; fits = h }
single-IsRange (v6 n) h = tt

prefix_range-IsRange :
    (a : Addr) (bits : ℕ) → FitsWidth a → bits ≤ 32 → AllSome IsRange (prefix_range a bits)
unfolding prefix_range
prefix_range-IsRange (v4 n) bits h k = masked_IsRange n bits h k
prefix_range-IsRange (v6 n) bits h k = tt

pub parse_prefix-FitsWidth :
    (s : Bytes) → AllSome (λ p. FitsWidth p.0 × (p.1 ≤ 32)) (parse_prefix s)
unfolding parse_prefix
parse_prefix-FitsWidth s =
    AllSome-bind _ (cut_last b'/' s) _
      λ (a, bits). prefix_of (parse_addr a) bits (parse_addr-FitsWidth a)
  where
    prefix_of :
        (o : Option Addr) (bits : Bytes)
        → AllSome FitsWidth o
        → AllSome
            (λ (p : Addr × ℕ). FitsWidth p.0 × (p.1 ≤ 32))
            (o >>= λ a. parse_field bits 32 >>= λ n. some (a, n))
    prefix_of none bits h = tt
    prefix_of (some a) bits h = with_bits (parse_field bits 32) (parse_field-le bits 32)
      where
        with_bits :
            (m : Option ℕ)
            → AllSome (λ n. n ≤ 32) m
            → AllSome (λ (p : Addr × ℕ). FitsWidth p.0 × (p.1 ≤ 32)) (m >>= λ n. some (a, n))
        with_bits none k = tt
        with_bits (some n) k = (h, k)

parse_line-IsRange : (line : Bytes) → AllSome IsRange (parse_line line)
unfolding parse_line
parse_line-IsRange line = elim (Bool-cases (has_byte b'/' line)) [
  | inl e ↦ rw e (of_prefix (parse_prefix line) (parse_prefix-FitsWidth line))
  | inr e ↦ rw e (of_addr (parse_addr line) (parse_addr-FitsWidth line))
]
  where
    of_prefix :
        (o : Option (Addr × ℕ))
        → AllSome (λ (p : Addr × ℕ). FitsWidth p.0 × (p.1 ≤ 32)) o
        → AllSome IsRange (o >>= λ p. prefix_range p.0 p.1)
    of_prefix none h = tt
    of_prefix (some (a, n)) h = prefix_range-IsRange a n h.0 h.1

    of_addr : (o : Option Addr) → AllSome FitsWidth o → AllSome IsRange (o >>= single)
    of_addr none h = tt
    of_addr (some a) h = single-IsRange a h

collect-IsRange : (l : List Bytes) → All IsRange (collect l).0
unfolding collect
collect-IsRange [] = tt
collect-IsRange (line ∷ rest) =
    with_line (parse_line line) (parse_line-IsRange line) (collect-IsRange rest)
  where
    with_line :
        (o : Option IpRange)
        → AllSome IsRange o
        → All IsRange (collect rest).0
        → All IsRange (add_line o (collect rest)).0
    with_line none h k = k
    with_line (some r) h k = (h, k)

pub parse_ranges-IsRange : (body : Bytes) → All IsRange (parse_ranges body).0
unfolding parse_ranges
parse_ranges-IsRange body = collect-IsRange (lines body)

add_source-IsRange :
    (part : List IpRange) (later : List IpRange × ℕ)
    → All IsRange part
    → All IsRange later.0
    → All IsRange (add_source part later).0
unfolding add_source
add_source-IsRange [] (ranges, n) h k = k
add_source-IsRange (r ∷ part) (ranges, n) h k = (h.0, All-append IsRange part ranges h.1 k)

pub gather-IsRange : (l : List (Bytes × Option Bytes)) → All IsRange (gather l).0
unfolding gather
gather-IsRange [] = tt
gather-IsRange (([], fetched) ∷ rest) = gather-IsRange rest
gather-IsRange ((c ∷ url, none) ∷ rest) =
    add_source-IsRange [] (gather rest) tt (gather-IsRange rest)
gather-IsRange ((c ∷ url, some body) ∷ rest) =
    add_source-IsRange (parse_ranges body).0 (gather rest) (parse_ranges-IsRange body)
      (gather-IsRange rest)
