-- ===== src/Stable/Probe/Precheck/Places.antt =====
-- internal/stable/prober.go: the positions that the pre-check lists, each once and in their order.
use sub_preprocessor.Base.{
  ℕ, zero, suc, ◌+◌, ◌≤◌, ◌<◌, ◌≡◌, refl, sym, ap, ◌∙◌, ◌↔◌, inl, inr, Bool, true, not, some, List,
  [], ◌∷◌, arith, if◌then◌else◌, Bool-cases, some-inj, Bytes, length, get_elem?, All, All-map,
  Among,
}
use mathlib.Core.Path.{subst}
use sub_preprocessor.Stable.Probe.{ProbeNode}
use sub_preprocessor.Stable.Probe.Precheck.{Verdict, positions_from, is_condemned, split_positions}

abbrev pub IsAscending : List ℕ → Type 0
IsAscending [] = Unit
IsAscending (x ∷ xs) = All (λ (y : ℕ). x < y) xs × IsAscending xs

-- the list holds exactly the positions with a property, in their order
abbrev pub IsListed : (ℕ → Type 0) → List ℕ → Type 0
IsListed P xs = IsAscending xs × ((j : ℕ) → Among j xs ↔ P j)

-- the node at a position passes a test
abbrev pub Passes : (ProbeNode → Bool) → List ProbeNode → ℕ → Type 0
Passes p nodes j = (n : ProbeNode) × (get_elem? nodes j ≡ some n) × (p n ≡ true)

-- the positions of the nodes that pass a test, the first being the `i`-th
unfoldable pub places : (ProbeNode → Bool) → ℕ → List ProbeNode → List ℕ
places p i [] = []
places p i (n ∷ nodes) = let rest = places p (i + 1) nodes in if p n then i ∷ rest else rest

places_le :
    (p : ProbeNode → Bool) (i : ℕ) (nodes : List ProbeNode)
    → All (λ (j : ℕ). i ≤ j) (places p i nodes)
unfolding places
places_le p i [] = tt
places_le p i (n ∷ nodes) =
    let later =
      All-map {P = λ (j : ℕ). i + 1 ≤ j} {Q = λ (j : ℕ). i ≤ j} (λ j h. omega (arith, h))
        (places p (i + 1) nodes) (places_le p (i + 1) nodes) in
    elim (Bool-cases (p n)) [ inl y ↦ rw y (omega arith, later) | inr o ↦ rw o later ]

places-IsAscending :
    (p : ProbeNode → Bool) (i : ℕ) (nodes : List ProbeNode) → IsAscending (places p i nodes)
unfolding places
places-IsAscending p i [] = tt
places-IsAscending p i (n ∷ nodes) =
    let ih = places-IsAscending p (i + 1) nodes in
    let above =
      All-map {P = λ (j : ℕ). i + 1 ≤ j} {Q = λ (j : ℕ). i < j} (λ j h. omega (arith, h))
        (places p (i + 1) nodes) (places_le p (i + 1) nodes) in
    elim (Bool-cases (p n)) [ inl y ↦ rw y (above, ih) | inr o ↦ rw o ih ]

places-Passes :
    (p : ProbeNode → Bool) (i j : ℕ) (nodes : List ProbeNode)
    → Among j (places p i nodes)
    → (k : ℕ) × (j ≡ i + k) × Passes p nodes k
unfolding places
places-Passes p i j [] m = absurd m
places-Passes p i j (n ∷ nodes) m = elim (Bool-cases (p n)) [
  | inl y ↦ elim (rw y at m) [
    | inl e ↦ (0, omega (arith, e), (n, refl, y))
    | inr r ↦ let (k, e, h) = places-Passes p (i + 1) j nodes r in (suc k, omega (arith, e), h)
  ]
  | inr o ↦
      let (k, e, h) = places-Passes p (i + 1) j nodes (rw o at m) in (suc k, omega (arith, e), h)
]

Passes-places :
    (p : ProbeNode → Bool) (i j k : ℕ) (nodes : List ProbeNode)
    → j ≡ i + k
    → Passes p nodes k
    → Among j (places p i nodes)
unfolding places
Passes-places p i j k [] e (n, h, t) = absurd (cc)
Passes-places p i j zero (m ∷ nodes) e (n, h, t) =
    let y : p m ≡ true = ap p (some-inj h) ∙ t in let at : j ≡ i = omega (arith, e) in rw y (inl at)
Passes-places p i j (suc k) (m ∷ nodes) e (n, h, t) =
    let ih = Passes-places p (i + 1) j k nodes (omega (arith, e)) (n, h, t) in
    elim (Bool-cases (p m)) [ inl y ↦ rw y (inr ih) | inr o ↦ rw o ih ]

pub places-IsListed :
    (p : ProbeNode → Bool) (nodes : List ProbeNode) → IsListed (Passes p nodes) (places p 0 nodes)
places-IsListed p nodes = (
  places-IsAscending p 0 nodes,
  λ j. (
    λ m.
        let (k, e, h) = places-Passes p 0 j nodes m in
        let same : j ≡ k = omega (arith, e) in subst (Passes p nodes) (sym same) h,
    λ h. Passes-places p 0 j j nodes (omega arith) h,
  ),
)

pub split_positions-places :
    (verdict : Bytes → Verdict) (i : ℕ) (nodes : List ProbeNode)
    → ((split_positions verdict i nodes).0 ≡ places (λ n. not (is_condemned verdict n)) i nodes)
      × ((split_positions verdict i nodes).1 ≡ places (is_condemned verdict) i nodes)
unfolding split_positions places
split_positions-places verdict i [] = (refl, refl)
split_positions-places verdict i (n ∷ nodes) =
    let (x, y) = split_positions-places verdict (i + 1) nodes in
    elim (Bool-cases (is_condemned verdict n)) [
      | inl c ↦ rw c (x, ap (λ l. i ∷ l) y)
      | inr c ↦ rw c (ap (λ l. i ∷ l) x, y)
    ]

pub positions_from-places :
    (i : ℕ) (nodes : List ProbeNode) → positions_from i nodes ≡ places (λ n. true) i nodes
unfolding positions_from places
positions_from-places i [] = refl
positions_from-places i (n ∷ nodes) = ap (λ l. i ∷ l) (positions_from-places (i + 1) nodes)

pub IsListed-iff :
    (P Q : ℕ → Type 0) (xs : List ℕ) → ((j : ℕ) → P j ↔ Q j) → IsListed P xs → IsListed Q xs
IsListed-iff P Q xs h l = (l.0, λ j. (λ m. (h j).0 ((l.1 j).0 m), λ q. (l.1 j).1 ((h j).1 q)))

pub get_some :
    (nodes : List ProbeNode) (j : ℕ)
    → j < length nodes
    → (n : ProbeNode) × (get_elem? nodes j ≡ some n)
get_some [] j h = absurd (omega (arith, h))
get_some (n ∷ nodes) zero h = (n, refl)
get_some (n ∷ nodes) (suc j) h = get_some nodes j (omega (arith, h))

pub get_bound :
    (nodes : List ProbeNode) (j : ℕ) {n : ProbeNode} → get_elem? nodes j ≡ some n → j < length nodes
get_bound [] j e = absurd (cc)
get_bound (n ∷ nodes) zero e = omega arith
get_bound (n ∷ nodes) (suc j) e = let ih = get_bound nodes j e in omega (arith, ih)

pub none_listed : (xs : List ℕ) (P : ℕ → Type 0) → ((j : ℕ) → P j → ⊥) → IsListed P xs → xs ≡ []
none_listed [] P h l = refl
none_listed (x ∷ xs) P h l = absurd (h x ((l.1 x).0 (inl refl)))

pub get-Among :
    (nodes : List ProbeNode) (j : ℕ) {n : ProbeNode} → get_elem? nodes j ≡ some n → Among n nodes
get-Among [] j e = absurd (cc)
get-Among (m ∷ nodes) zero e = inl (sym (some-inj e))
get-Among (m ∷ nodes) (suc j) e = inr (get-Among nodes j e)

pub nil-IsListed : (P : ℕ → Type 0) → ((j : ℕ) → P j → ⊥) → IsListed P []
nil-IsListed P h = (tt, λ j. (λ m. absurd m, λ p. h j p))
