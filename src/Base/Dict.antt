-- ===== src/Base/Dict.antt =====
-- Go's maps, as lists of entries with one entry to a key.
use sub_preprocessor.Base.{
  ◌≡◌, refl, sym, ◌↔◌, inl, inr, Bool, true, false, Option, none, some, List, [], ◌∷◌, arith,
  if◌then◌else◌, Bool-cases, keep, All,
}
use mathlib.Core.Path.{subst}

module _ {ℓ} {K : Type ℓ} (same : K → K → Bool)
    (same_iff : (a b : K) → (same a b ≡ true) ↔ (a ≡ b)) where
  unlike : {a b : K} → same a b ≡ false → same b a ≡ false
  unlike {a} {b} n = elim (Bool-cases (same b a)) [
    | inl y ↦ ground (arith, n, (same_iff a b).1 (sym ((same_iff b a).0 y)))
    | inr h ↦ h
  ]

module _ {ℓ ℓ'} {K : Type ℓ} {V : Type ℓ'} (same : K → K → Bool) where
  unfoldable pub find : K → List (K × V) → Option V
  find k [] = none
  find k (e ∷ m) = let rest = find k m in if same k e.0 then some e.1 else rest

  unfoldable pub put : K → V → List (K × V) → List (K × V)
  put k v [] = (k, v) ∷ []
  put k v (e ∷ m) = let rest = put k v m in if same k e.0 then (k, v) ∷ m else e ∷ rest

  abbrev pub Lacks : K → List (K × V) → Type 0
  Lacks k m = All (λ (e : K × V). same k e.0 ≡ false) m

  -- no key has two entries
  abbrev pub IsDict : List (K × V) → Type 0
  IsDict [] = Unit
  IsDict (e ∷ m) = Lacks e.0 m × IsDict m

  pub find-Lacks : (k : K) (m : List (K × V)) → Lacks k m → find k m ≡ none
  unfolding find
  find-Lacks k [] h = refl
  find-Lacks k (e ∷ m) h = let ih = find-Lacks k m h.1 in ground (arith, h.0, ih)

  pub keep-Lacks : (p : K × V → Bool) (k : K) (m : List (K × V)) → Lacks k m → Lacks k (keep p m)
  unfolding keep
  keep-Lacks p k [] h = h
  keep-Lacks p k (e ∷ m) h = let ih = keep-Lacks p k m h.1 in ground (arith, h.0, ih)

  pub keep-IsDict : (p : K × V → Bool) (m : List (K × V)) → IsDict m → IsDict (keep p m)
  unfolding keep
  keep-IsDict p [] h = h
  keep-IsDict p (e ∷ m) h =
      let ih = keep-IsDict p m h.1 in let l = keep-Lacks p e.0 m h.0 in ground (arith, l, ih)

  module _ (same_iff : (a b : K) → (same a b ≡ true) ↔ (a ≡ b)) where
    pub find-put :
        (k k' : K) (v : V) (m : List (K × V))
        → find k' (put k v m) ≡ (if same k' k then some v else find k' m)
    unfolding find put
    find-put k k' v [] = refl
    find-put k k' v (e ∷ m) =
        let ih = find-put k k' v m in
        let a = same_iff k e.0 in
        let b = same_iff k' k in let c = same_iff k' e.0 in ground (arith, ih, a, b, c)

    put-Lacks :
        (k k' : K) (v : V) (m : List (K × V))
        → same k' k ≡ false
        → Lacks k' m
        → Lacks k' (put k v m)
    unfolding put
    put-Lacks k k' v [] n h = (n, h)
    put-Lacks k k' v (e ∷ m) n h =
        let ih = put-Lacks k k' v m n h.1 in ground (arith, n, h.0, h.1, ih)

    pub put-IsDict : (k : K) (v : V) (m : List (K × V)) → IsDict m → IsDict (put k v m)
    unfolding put
    put-IsDict k v [] h = (tt, tt)
    put-IsDict k v (e ∷ m) h = elim (Bool-cases (same k e.0)) [
      | inl y ↦ rw y (subst (λ x. Lacks x m) (sym ((same_iff k e.0).0 y)) h.0, h.1)
      | inr n ↦ rw n (put-Lacks k e.0 v m (unlike same same_iff n) h.0, put-IsDict k v m h.1)
    ]
