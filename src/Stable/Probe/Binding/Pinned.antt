-- ===== src/Stable/Probe/Binding/Pinned.antt =====
-- `newBinding` of internal/stable/prober.go: what a table of pins holds under a key.
use sub_preprocessor.Base.{
  ◌≡◌, refl, sym, ap, ◌∙◌, ◌⊎◌, inl, inr, Bool, true, false, Option, none, some, List, [], ◌∷◌,
  arith, if◌then◌else◌, Bool-cases, Bytes, beq, beq_iff, beq_refl, every,
}
use mathlib.Core.Path.{subst}
use sub_preprocessor.Base.Dict.{find, put, find-put}
use sub_preprocessor.Netip.{Addr}
use sub_preprocessor.Stable.Dead.{same_addr}
use sub_preprocessor.Stable.Merge.{seen_key}
use sub_preprocessor.Stable.Probe.Binding.{Pins, no_pins, without, pin_over, pin}

-- what is known of a key
data Pinned : Type 0 where
  fresh conflicted : Pinned
  pinned : Addr → Pinned

abbrev view_of : Bool → Option Addr → Pinned
view_of true o = conflicted
view_of false none = fresh
view_of false (some ip) = pinned ip

view : Bytes → Pins → Pinned
view key p = view_of (seen_key key p.conflicts) (find beq key p.table)

-- no key in conflict has an address
abbrev IsClean : Pins → Type 0
IsClean p = (key : Bytes) → seen_key key p.conflicts ≡ true → find beq key p.table ≡ none

join : Addr → Pinned → Pinned
join ip fresh = pinned ip
join ip conflicted = conflicted
join ip (pinned prev) = if same_addr prev ip then pinned prev else conflicted

find-without :
    (key k : Bytes) (m : List (Bytes × Addr))
    → find beq k (without key m) ≡ (if beq key k then none else find beq k m)
unfolding find without
find-without key k [] = ground arith
find-without key k (e ∷ m) =
    let ih = find-without key k m in
    let a = beq_iff key e.0 in
    let b = beq_iff key k in let c = beq_iff k e.0 in ground (arith, ih, a, b, c)

seen_first : (key : Bytes) (ks : List Bytes) → seen_key key (key ∷ ks) ≡ true
unfolding seen_key
seen_first key ks = rw (beq_refl key)

-- the key itself
view-pin_same :
    (key : Bytes) (ip : Addr) (p : Pins) (o : Option Addr)
    → find beq key p.table ≡ o
    → (seen_key key p.conflicts ≡ false) ⊎ (o ≡ none)
    → view key (pin_over o key ip p) ≡ join ip (view_of (seen_key key p.conflicts) o)
unfolding view join
view-pin_same key ip p none e clean =
    let f = find-put beq beq_iff key key ip p.table in
    let r = beq_refl key in
    elim (Bool-cases (seen_key key p.conflicts)) [
      | inl c ↦ rw c (ap (λ x. view_of x (find beq key p.table)) c)
      | inr c ↦ rw c (
          ap (λ x. view_of x (find beq key (put beq key ip p.table))) c
          ∙ ap (view_of false) (f ∙ ap (λ t. if t then some ip else find beq key p.table) r))
    ]
view-pin_same key ip p (some prev) e (inr n) = absurd (cc)
view-pin_same key ip p (some prev) e (inl c) = elim (Bool-cases (same_addr prev ip)) [
  | inl y ↦ rw (c, y) (ap (λ x. view_of x (find beq key p.table)) c ∙ ap (view_of false) e)
  | inr n ↦
      rw (c, n)
        (ap (λ x. view_of x (find beq key (without key p.table))) (seen_first key p.conflicts))
]

-- another key
view-pin_other :
    (key k : Bytes) (ip : Addr) (p : Pins) (o : Option Addr)
    → beq key k ≡ false
    → beq k key ≡ false
    → view k (pin_over o key ip p) ≡ view k p
unfolding view seen_key
view-pin_other key k ip p none n m =
    let f = find-put beq beq_iff key k ip p.table in
    elim (Bool-cases (seen_key key p.conflicts)) [
      | inl c ↦ rw c
      | inr c ↦ rw c (
          ap (view_of (seen_key k p.conflicts))
            (f ∙ ap (λ t. if t then some ip else find beq k p.table) m))
    ]
view-pin_other key k ip p (some prev) n m =
    let f = find-without key k p.table in
    elim (Bool-cases (same_addr prev ip)) [
      | inl y ↦ rw y
      | inr y ↦
          rw (y, n)
            (ap (view_of (seen_key k p.conflicts))
              (f ∙ ap (λ t. if t then none else find beq k p.table) n))
    ]

pin_over-IsClean :
    (key : Bytes) (ip : Addr) (p : Pins) (o : Option Addr)
    → IsClean p
    → IsClean (pin_over o key ip p)
unfolding seen_key
pin_over-IsClean key ip p none clean = elim (Bool-cases (seen_key key p.conflicts)) [
  | inl c ↦ rw c clean
  | inr c ↦ rw c (λ k h.
      let f = find-put beq beq_iff key k ip p.table in
      elim (Bool-cases (beq k key)) [
        | inl same ↦
            let bad : seen_key key p.conflicts ≡ true =
              ap (λ x. seen_key x p.conflicts) (sym ((beq_iff k key).0 same)) ∙ h in
            absurd (clash (seen_key key p.conflicts) bad c)
        | inr other ↦ f ∙ (ap (λ t. if t then some ip else find beq k p.table) other ∙ clean k h)
      ])
]
  where
    clash : (b : Bool) → b ≡ true → b ≡ false → ⊥
    clash b h k = let x : true ≡ false = sym h ∙ k in absurd (cc)
pin_over-IsClean key ip p (some prev) clean = elim (Bool-cases (same_addr prev ip)) [
  | inl y ↦ rw y clean
  | inr y ↦ rw y (λ k h. elim (Bool-cases (beq key k)) [
    | inl same ↦ find-without key k p.table ∙ ap (λ t. if t then none else find beq k p.table) same
    | inr other ↦
        find-without key k p.table
        ∙ (ap (λ t. if t then none else find beq k p.table) other ∙ clean k (rw other at h))
  ])
]

-- the pins of a sequence of keys with addresses
unfoldable pub pin_all : List (Bytes × Addr) → Pins → Pins
pin_all [] p = p
pin_all (x ∷ xs) p = pin_all xs (pin x.0 x.1 p)

-- the addresses of one key, in order
abbrev pub ips_for : Bytes → List (Bytes × Addr) → List Addr
ips_for key [] = []
ips_for key (x ∷ xs) = if beq x.0 key then x.1 ∷ ips_for key xs else ips_for key xs

join_all : List Addr → Pinned → Pinned
join_all [] v = v
join_all (ip ∷ ips) v = join_all ips (join ip v)

pin-IsClean : (key : Bytes) (ip : Addr) (p : Pins) → IsClean p → IsClean (pin key ip p)
unfolding pin
pin-IsClean key ip p clean = pin_over-IsClean key ip p (find beq key p.table) clean

view-pin :
    (key k : Bytes) (ip : Addr) (p : Pins)
    → IsClean p
    → view k (pin key ip p) ≡ (if beq key k then join ip (view k p) else view k p)
unfolding pin view
view-pin key k ip p clean = elim (Bool-cases (beq key k)) [
  | inl same ↦ rw same (
      subst (λ (x : Bytes). view x (pin key ip p) ≡ join ip (view x p)) ((beq_iff key k).0 same)
        (view_self key ip p clean))
  | inr other ↦
      rw other (view-pin_other key k ip p (find beq key p.table) other (unlike_keys key k other))
]
  where
    unlike_keys : (a b : Bytes) → beq a b ≡ false → beq b a ≡ false
    unlike_keys a b h = let r = beq_iff a b in let s = beq_iff b a in ground (arith, h, r, s)

    undecided : (b : Bool) (o : Option Addr) → (b ≡ true → o ≡ none) → (b ≡ false) ⊎ (o ≡ none)
    undecided true o h = inr (h refl)
    undecided false o h = inl refl

    view_self :
        (key : Bytes) (ip : Addr) (p : Pins)
        → IsClean p
        → view key (pin key ip p) ≡ join ip (view key p)
    view_self key ip p clean =
        view-pin_same key ip p (find beq key p.table) refl
          (undecided (seen_key key p.conflicts) (find beq key p.table) (clean key))

pin_all-IsClean : (xs : List (Bytes × Addr)) (p : Pins) → IsClean p → IsClean (pin_all xs p)
unfolding pin_all
pin_all-IsClean [] p clean = clean
pin_all-IsClean (x ∷ xs) p clean = pin_all-IsClean xs (pin x.0 x.1 p) (pin-IsClean x.0 x.1 p clean)

view-pin_all :
    (k : Bytes) (xs : List (Bytes × Addr)) (p : Pins)
    → IsClean p
    → view k (pin_all xs p) ≡ join_all (ips_for k xs) (view k p)
unfolding pin_all join_all
view-pin_all k [] p clean = refl
view-pin_all k (x ∷ xs) p clean =
    let ih = view-pin_all k xs (pin x.0 x.1 p) (pin-IsClean x.0 x.1 p clean) in
    let v = view-pin x.0 k x.1 p clean in
    elim (Bool-cases (beq x.0 k)) [
      | inl same ↦ rw same (ih ∙ ap (join_all (ips_for k xs)) (rw same at v))
      | inr other ↦ rw other (ih ∙ ap (join_all (ips_for k xs)) (rw other at v))
    ]

-- the address on which all agree, if there is one
unfoldable pub agreed : List Addr → Option Addr
unfolding every same_addr
agreed [] = none
agreed (ip ∷ ips) = if every (same_addr ip) ips then some ip else none

address_of : Pinned → Option Addr
address_of fresh = none
address_of conflicted = none
address_of (pinned ip) = some ip

join_all_conflicted : (ips : List Addr) → join_all ips conflicted ≡ conflicted
unfolding join_all join
join_all_conflicted [] = refl
join_all_conflicted (ip ∷ ips) = join_all_conflicted ips

join_all_pinned :
    (a : Addr) (ips : List Addr)
    → join_all ips (pinned a) ≡ (if every (same_addr a) ips then pinned a else conflicted)
unfolding join_all join every
join_all_pinned a [] = refl
join_all_pinned a (ip ∷ ips) = elim (Bool-cases (same_addr a ip)) [
  | inl y ↦ rw y (join_all_pinned a ips)
  | inr n ↦ rw n (join_all_conflicted ips)
]

join_all-agreed : (ips : List Addr) → address_of (join_all ips fresh) ≡ agreed ips
unfolding agreed address_of
join_all-agreed [] = unfold join_all in refl
join_all-agreed (ip ∷ ips) =
    let p = join_all_pinned ip ips in
    elim (Bool-cases (every (same_addr ip) ips)) [
      | inl y ↦ rw y (unfold join_all join in ap address_of (rw y at p))
      | inr n ↦ rw n (unfold join_all join in ap address_of (rw n at p))
    ]

address_of-view_of : (o : Option Addr) → address_of (view_of false o) ≡ o
unfolding address_of
address_of-view_of none = refl
address_of-view_of (some ip) = refl

address_of-view :
    (key : Bytes) (p : Pins)
    → address_of (view key p) ≡ (if seen_key key p.conflicts then none else find beq key p.table)
unfolding view address_of
address_of-view key p = elim (Bool-cases (seen_key key p.conflicts)) [
  | inl c ↦ rw c refl
  | inr c ↦ rw c (address_of-view_of (find beq key p.table))
]

no_pins-IsClean : IsClean no_pins
unfolding find
no_pins-IsClean key h = refl

pub pinned_agreed :
    (key : Bytes) (xs : List (Bytes × Addr)) (p : Pins)
    → p ≡ pin_all xs no_pins
    → (if seen_key key p.conflicts then none else find beq key p.table) ≡ agreed (ips_for key xs)
pinned_agreed key xs p e =
    sym (address_of-view key p)
    ∙ (ap (λ q. address_of (view key q)) e
        ∙ (ap address_of (view-pin_all key xs no_pins no_pins-IsClean)
            ∙ (ap (λ v. address_of (join_all (ips_for key xs) v)) (view-no_pins key)
                ∙ join_all-agreed (ips_for key xs))))
  where
    view-no_pins : (key : Bytes) → view key no_pins ≡ fresh
    view-no_pins key = unfold view seen_key find in refl

pub find-agreed :
    (key : Bytes) (xs : List (Bytes × Addr))
    → find beq key (pin_all xs no_pins).table ≡ agreed (ips_for key xs)
find-agreed key xs =
    let p = pin_all xs no_pins in
    let a = pinned_agreed key xs p refl in
    elim (Bool-cases (seen_key key p.conflicts)) [
      | inl c ↦ pin_all-IsClean xs no_pins no_pins-IsClean key c ∙ (rw c at a)
      | inr c ↦ rw c at a
    ]
