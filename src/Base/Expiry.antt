-- ===== src/Base/Expiry.antt =====
-- Maps from keys to expiry times: what is present and not expired.
use sub_preprocessor.Base.{
  ℕ, ◌≤◌, ◌≡◌, refl, sym, ◌↔◌, inl, inr, Bool, true, false, not, none, some, List, [], ◌∷◌, arith,
  ltb, leb, if◌then◌else◌, Bool-cases, keep,
}
use sub_preprocessor.Base.Dict.{find, put, IsDict, Lacks, find-put, find-Lacks, keep-Lacks}
use mathlib.Core.Path.{subst}

-- the entries left when those expired at `now` are deleted
unfoldable pub unexpired {ℓ} : {K : Type ℓ} → ℕ → List (K × ℕ) → List (K × ℕ)
unfolding keep
unexpired now m = keep (λ e. not (leb e.1 now)) m

module _ {ℓ} {K : Type ℓ} (same : K → K → Bool) where
  -- present, and to expire after `now`
  unfoldable pub is_live : ℕ → K → List (K × ℕ) → Bool
  unfolding find
  is_live now k m = elim (find same k m) [ none ↦ false | some expiry ↦ ltb now expiry ]

  pub is_live-Lacks :
      (now : ℕ) (k : K) (m : List (K × ℕ)) → Lacks same k m → is_live now k m ≡ false
  unfolding is_live
  is_live-Lacks now k m h = rw (is_live, find-Lacks same k m h)

  module _ (same_iff : (a b : K) → (same a b ≡ true) ↔ (a ≡ b)) where
    pub is_live-put :
        (t : ℕ) (k k' : K) (v : ℕ) (m : List (K × ℕ))
        → is_live t k' (put same k v m) ≡ (if same k' k then ltb t v else is_live t k' m)
    unfolding is_live
    is_live-put t k k' v m = let h = find-put same same_iff k k' v m in ground (arith, h)

    pub is_live-unexpired :
        (now t : ℕ) (k : K) (m : List (K × ℕ))
        → now ≤ t
        → IsDict same m
        → is_live t k (unexpired now m) ≡ is_live t k m
    unfolding is_live unexpired find keep
    is_live-unexpired now t k [] le d = refl
    is_live-unexpired now t k (e ∷ m) le d =
        let ih = is_live-unexpired now t k m le d.1 in
        elim (Bool-cases (same k e.0)) [
          | inr n ↦ ground (arith, ih, n)
          | inl y ↦
              let lacks = subst (λ x. Lacks same x m) (sym ((same_iff k e.0).0 y)) d.0 in
              let dead = is_live-Lacks t k (unexpired now m) (keep-Lacks same _ k m lacks) in
              ground (arith, dead, y)
        ]
