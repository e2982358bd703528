-- ===== src/Cidrset/Admitted.antt =====
-- internal/cidrset/cidrset.go: which addresses the lines of the sources admit.
use sub_preprocessor.Base.{
  AllSome, ℕ, ◌-◌, ◌/◌, ◌^◌, ◌≤◌, ◌≡◌, ◌≢◌, refl, sym, ap, ◌∙◌, ◌↔◌, ◌⊎◌, inl, inr, Bool, true,
  false, ◌||◌, Option, none, some, List, [], ◌∷◌, ◌++◌, arith, ◌>>=◌, ==_iff, Bool-cases, some-inj,
  Bytes, has_byte, any, Among,
}
use mathlib.Core.Path.{subst}
use sub_preprocessor.Ioutil.{lines}
use sub_preprocessor.Netip.{Addr, v4, v6, parse_addr, parse_prefix}
use sub_preprocessor.Cidrset.{
  IpRange, single, prefix_range, parse_line, add_line, collect, parse_ranges, add_source, gather,
}
use sub_preprocessor.Cidrset.Union.{in_range}
use sub_preprocessor.Cidrset.Lines.{FitsWidth, parse_prefix-FitsWidth, in_range-prefix}

-- a line admits the address that it is, or those that share the first bits of its prefix
abbrev pub Admits : ℕ → Bytes → Type 0
Admits v line =
    ((has_byte b'/' line ≡ false) × (parse_addr line ≡ some (v4 v)))
    ⊎ ((a : ℕ) × (bits : ℕ) × (has_byte b'/' line ≡ true)
        × (parse_prefix line ≡ some (v4 a, bits))
        × (v / 2 ^ (32 - bits) ≡ a / 2 ^ (32 - bits)))

-- some line of a fetched body admits the address
abbrev pub IsAdmitted : ℕ → List (Bytes × Option Bytes) → Type 0
IsAdmitted v sources =
    (url : Bytes) × (body : Bytes) × (line : Bytes) × (url ≢ [])
    × Among (url, some body) sources
    × Among line (lines body)
    × Admits v line

-- the line gives a range that holds the address
abbrev Gives : ℕ → Option IpRange → Type 0
Gives v o = (r : IpRange) × (o ≡ some r) × (in_range v r ≡ true)

address-Gives : (v : ℕ) (o : Option Addr) → Gives v (o >>= single) ↔ (o ≡ some (v4 v))
unfolding single
address-Gives v none = (λ (r, e, t). absurd (cc), λ e. absurd (cc))
address-Gives v (some (v6 n)) = (λ (r, e, t). absurd (cc), λ e. absurd (cc))
address-Gives v (some (v4 n)) = (
  λ (r, e, t).
      let same = some-inj e in
      let t' : in_range v (record { lo = n; hi = n }) ≡ true =
        subst (λ (x : IpRange). in_range v x ≡ true) (sym same) t in
      let at : n ≡ v = ground (arith, t') in ap (λ x. some (v4 x)) at,
  λ e.
      let at : v4 n ≡ v4 v = some-inj e in
      let same : n ≡ v = cc in (record { lo = n; hi = n }, refl, ground (arith, same)),
)

-- the prefix holds the address
abbrev Covers : ℕ → Option (Addr × ℕ) → Type 0
Covers v o =
    (a : ℕ) × (bits : ℕ) × (o ≡ some (v4 a, bits)) × (v / 2 ^ (32 - bits) ≡ a / 2 ^ (32 - bits))

prefix-Gives :
    (v : ℕ) (o : Option (Addr × ℕ))
    → AllSome (λ (p : Addr × ℕ). FitsWidth p.0 × (p.1 ≤ 32)) o
    → Gives v (o >>= λ p. prefix_range p.0 p.1) ↔ Covers v o
unfolding prefix_range
prefix-Gives v none fits = (λ (r, e, t). absurd (cc), λ (a, bits, e, t). absurd (cc))
prefix-Gives v (some (v6 n, k)) fits = (
  λ (r, e, t). absurd (cc),
  λ (a, bits, e, t). let bad : v6 n ≡ v4 a = ap (λ (p : Addr × ℕ). p.0) (some-inj e) in absurd (cc),
)
prefix-Gives v (some (v4 n, k)) fits =
    let holds = in_range-prefix v n k fits.1 in
    let is_same = ==_iff (v / 2 ^ (32 - k)) (n / 2 ^ (32 - k)) in
    (
      λ (r, e, t).
          let y = subst (λ (x : IpRange). in_range v x ≡ true) (sym (some-inj e)) t in
          (n, k, refl, is_same.0 (sym holds ∙ y)),
      λ (a, bits, e, t).
          let p = some-inj e in
          let at : n ≡ a = v4_inj (ap (λ (p : Addr × ℕ). p.0) p) in
          let same : k ≡ bits = ap (λ (p : Addr × ℕ). p.1) p in
          let q : v / 2 ^ (32 - k) ≡ n / 2 ^ (32 - k) = rw (at, same) t in
          (_, refl, holds ∙ is_same.1 q),
    )
  where
    v4_inj : {x y : ℕ} → v4 x ≡ v4 y → x ≡ y
    v4_inj e = cc

parse_line-Gives : (v : ℕ) (line : Bytes) → Gives v (parse_line line) ↔ Admits v line
unfolding parse_line
parse_line-Gives v line =
    let (to_addr, of_addr) = address-Gives v (parse_addr line) in
    let (to_prefix, of_prefix) = prefix-Gives v (parse_prefix line) (parse_prefix-FitsWidth line) in
    elim (Bool-cases (has_byte b'/' line)) [
      | inr n ↦ (
        λ g. inl (n, to_addr (rw n at g)),
        λ a. elim a [ inl (m, e) ↦ rw n (of_addr e) | inr (a, bits, y, e, t) ↦ absurd (cc) ],
      )
      | inl y ↦ (
        λ g. let (a, bits, e, t) = to_prefix (rw y at g) in inr (a, bits, y, e, t),
        λ a. elim a [
          | inl (m, e) ↦ absurd (cc)
          | inr (a, bits, m, e, t) ↦ rw y (of_prefix (a, bits, e, t))
        ],
      )
    ]

add_line-Gives :
    (v : ℕ) (o : Option IpRange) (later : List IpRange × ℕ)
    → (any (in_range v) (add_line o later).0 ≡ true)
      ↔ (Gives v o ⊎ (any (in_range v) later.0 ≡ true))
unfolding any add_line
add_line-Gives v none (ranges, n) =
    (λ e. inr e, λ s. elim s [ inl (r, e, t) ↦ absurd (cc) | inr t ↦ t ])
add_line-Gives v (some r) (ranges, n) = (
  λ e. elim (Bool-cases (in_range v r)) [ inl y ↦ inl (r, refl, y) | inr o ↦ inr (rw o at e) ],
  λ s. elim s [
    | inl (q, e, t) ↦
        let y : in_range v r ≡ true = ap (λ x. in_range v x) (some-inj e) ∙ t in rw y refl
    | inr t ↦ rw t (or_true (in_range v r))
  ],
)
  where
    or_true : (b : Bool) → (b || true) ≡ true
    or_true b = ground arith

collect-Admits :
    (v : ℕ) (ls : List Bytes)
    → (any (in_range v) (collect ls).0 ≡ true) ↔ ((line : Bytes) × Among line ls × Admits v line)
unfolding collect
collect-Admits v [] = (λ e. unfold any in absurd (cc), λ (l, m, a). absurd m)
collect-Admits v (line ∷ ls) =
    let ih = collect-Admits v ls in
    let one = parse_line-Gives v line in
    let both = add_line-Gives v (parse_line line) (collect ls) in
    (
      λ e. elim (both.0 e) [
        | inl g ↦ (line, inl refl, one.0 g)
        | inr later ↦ let (l, m, a) = ih.0 later in (l, inr m, a)
      ],
      λ (l, m, a). both.1 (elim m [
        | inl same ↦ inl (one.1 (subst (Admits v) same a))
        | inr n ↦ inr (ih.1 (l, n, a))
      ]),
    )

any-append :
    (v : ℕ) (xs ys : List IpRange)
    → any (in_range v) (xs ++ ys) ≡ (any (in_range v) xs || any (in_range v) ys)
unfolding any
any-append v [] ys = refl
any-append v (x ∷ xs) ys = ground (arith, any-append v xs ys)

any-add_source :
    (v : ℕ) (part : List IpRange) (later : List IpRange × ℕ)
    → any (in_range v) (add_source part later).0
      ≡ (any (in_range v) part || any (in_range v) later.0)
unfolding add_source
any-add_source v [] (ranges, n) = unfold any in refl
any-add_source v (r ∷ part) (ranges, n) = any-append v (r ∷ part) ranges

or_iff : (a b : Bool) → ((a || b) ≡ true) ↔ ((a ≡ true) ⊎ (b ≡ true))
or_iff a b = (λ e. ground (arith, e), λ s. ground (arith, s))

-- an admitted address of the later sources is one of all
later-IsAdmitted :
    (v : ℕ) (s : Bytes × Option Bytes) (rest : List (Bytes × Option Bytes))
    → IsAdmitted v rest
    → IsAdmitted v (s ∷ rest)
later-IsAdmitted v s rest (url, body, line, named, among, read, a) =
    (url, body, line, named, inr among, read, a)

pub gather-IsAdmitted :
    (v : ℕ) (l : List (Bytes × Option Bytes))
    → (any (in_range v) (gather l).0 ≡ true) ↔ IsAdmitted v l
unfolding gather
gather-IsAdmitted v [] =
    (λ e. unfold any in absurd (cc), λ (url, body, line, named, among, read, a). absurd among)
gather-IsAdmitted v (([], fetched) ∷ rest) =
    let ih = gather-IsAdmitted v rest in
    (
      λ e. later-IsAdmitted v ([], fetched) rest (ih.0 e),
      λ (url, body, line, named, among, read, a). elim among [
        | inl same ↦ absurd (named (ap (λ (p : Bytes × Option Bytes). p.0) same))
        | inr m ↦ ih.1 (url, body, line, named, m, read, a)
      ],
    )
gather-IsAdmitted v ((c ∷ url', none) ∷ rest) =
    let ih = gather-IsAdmitted v rest in
    let split = any-add_source v [] (gather rest) in
    let none_first : any (in_range v) [] ≡ false = unfold any in refl in
    (
      λ e. later-IsAdmitted v (c ∷ url', none) rest (ih.0 (ground (arith, e, split, none_first))),
      λ (url, body, line, named, among, read, a). elim among [
        | inl same ↦
            let bad : some body ≡ none = ap (λ (p : Bytes × Option Bytes). p.1) same in absurd (cc)
        | inr m ↦ let k = ih.1 (url, body, line, named, m, read, a) in ground (arith, k, split)
      ],
    )
gather-IsAdmitted v ((c ∷ url', some body') ∷ rest) =
    let ih = gather-IsAdmitted v rest in
    let part = (parse_ranges body').0 in
    let split = any-add_source v part (gather rest) in
    let either = or_iff (any (in_range v) part) (any (in_range v) (gather rest).0) in
    let here : (any (in_range v) part ≡ true)
        ↔ ((line : Bytes) × Among line (lines body') × Admits v line) =
      unfold parse_ranges in collect-Admits v (lines body') in
    (
      λ e. elim (either.0 (sym split ∙ e)) [
        | inl t ↦
            let (line, m, a) = here.0 t in (c ∷ url', body', line, λ e. absurd (cc), inl refl, m, a)
        | inr t ↦ later-IsAdmitted v (c ∷ url', some body') rest (ih.0 t)
      ],
      λ (url, body, line, named, among, read, a).
          split
          ∙ either.1 (elim among [
            | inl same ↦
                let is_body : body ≡ body' =
                  some-inj (ap (λ (p : Bytes × Option Bytes). p.1) same) in
                inl (here.1 (line, subst (λ (b : Bytes). Among line (lines b)) is_body read, a))
            | inr m ↦ inr (ih.1 (url, body, line, named, m, read, a))
          ]),
    )
