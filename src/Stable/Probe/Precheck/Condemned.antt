-- ===== src/Stable/Probe/Precheck/Condemned.antt =====
-- internal/stable/prober.go: which positions the pre-check condemns, and which it leaves live.
use sub_preprocessor.Base.{
  ◌↔◌, length, ℕ, ◌<◌, ◌≡◌, refl, sym, ap, ◌∙◌, inl, inr, Bool, true, not, some, List, [], arith,
  Bool-cases, some-inj, Bytes, get_elem?, Among,
}
use sub_preprocessor.Stable.Probe.{ProbeNode}
use sub_preprocessor.Stable.Probe.Precheck.{
  verdict_refused, Verdict, verdict_refused, verdict_unresolved, verdict_reachable, is_refused,
  positions_from, is_condemned, split_positions,
}
use mathlib.Core.Path.{subst}
use sub_preprocessor.Stable.Probe.Precheck.Places.{
  get_some, get_bound, IsListed-iff, IsListed, Passes, places-IsListed, split_positions-places,
  positions_from-places,
}
use sub_preprocessor.Stable.Probe.Precheck.Places.{
  places-IsListed, split_positions-places, positions_from-places, Passes, IsListed,
}

-- the position holds a node that is dialled over TCP and whose endpoint was refused
abbrev pub IsRefused : (Bytes → Verdict) → List ProbeNode → ℕ → Type 0
IsRefused verdict nodes i =
    (n : ProbeNode) × (get_elem? nodes i ≡ some n)
    × (n.tcp_server ≡ true)
    × (verdict n.addr ≡ verdict_refused)

-- a position that is not condemned
abbrev pub IsSpared : List ProbeNode → List ℕ → ℕ → Type 0
IsSpared nodes condemned j = (j < length nodes) × (Among j condemned → ⊥)

pub refused_is : (v : Verdict) → (is_refused v ≡ true) ↔ (v ≡ verdict_refused)
refused_is verdict_refused = (λ e. refl, λ e. refl)
refused_is verdict_unresolved = (λ e. cc, λ e. cc)
refused_is verdict_reachable = (λ e. cc, λ e. cc)

module _ (verdict : Bytes → Verdict) (nodes : List ProbeNode) where
  Passes-IsRefused : (j : ℕ) → Passes (is_condemned verdict) nodes j ↔ IsRefused verdict nodes j
  Passes-IsRefused j = (
    λ p.
        let t : p.0.tcp_server ≡ true = ground (arith, p.2) in
        let r : is_refused (verdict p.0.addr) ≡ true = ground (arith, p.2) in
        (p.0, p.1, t, (refused_is (verdict p.0.addr)).0 r),
    λ h. let r = (refused_is (verdict h.0.addr)).1 h.3 in (h.0, h.1, ground (arith, h.2, r)),
  )

  pub condemned-IsListed : IsListed (IsRefused verdict nodes) (split_positions verdict 0 nodes).1
  condemned-IsListed =
      let (x, y) = split_positions-places verdict 0 nodes in
      subst (IsListed (IsRefused verdict nodes)) (sym y) (
        IsListed-iff (Passes (is_condemned verdict) nodes) (IsRefused verdict nodes) _
          Passes-IsRefused (places-IsListed (is_condemned verdict) nodes))

  -- no position is condemned, or it is not one of the condemned
  Passes-IsSpared :
      (condemned : List ℕ) (p : ProbeNode → Bool)
      → ((j : ℕ) → Among j condemned ↔ Passes (λ n. not (p n)) nodes j)
      → (j : ℕ) → Passes p nodes j ↔ IsSpared nodes condemned j
  Passes-IsSpared condemned p c j = (
    λ h. (
      get_bound nodes j h.1,
      λ m.
          let (k, e, t) = (c j).0 m in
          let same : k ≡ h.0 = some-inj (sym e ∙ h.1) in
          let y : p k ≡ true = ap p same ∙ h.2 in ground (arith, y, t),
    ),
    λ s.
        let (n, e) = get_some nodes j s.0 in
        elim (Bool-cases (p n)) [
          | inl y ↦ (n, e, y)
          | inr o ↦ absurd (s.1 ((c j).1 (n, e, ground (arith, o))))
        ],
  )

  pub live-IsListed :
      IsListed
        (IsSpared nodes (split_positions verdict 0 nodes).1)
        (split_positions verdict 0 nodes).0
  live-IsListed =
      let (x, y) = split_positions-places verdict 0 nodes in
      subst (IsListed (IsSpared nodes (split_positions verdict 0 nodes).1)) (sym x) (
        IsListed-iff _ _ _
          (Passes-IsSpared (split_positions verdict 0 nodes).1 (λ n. not (is_condemned verdict n))
            both)
          (places-IsListed (λ n. not (is_condemned verdict n)) nodes))
    where
      both :
          (j : ℕ)
          → Among j (split_positions verdict 0 nodes).1
            ↔ Passes (λ n. not (not (is_condemned verdict n))) nodes j
      both j =
          let l = condemned-IsListed.1 j in
          let r = Passes-IsRefused j in
          (
            λ m. let (n, e, t) = r.1 (l.0 m) in (n, e, ground (arith, t)),
            λ p. l.1 (r.0 (p.0, p.1, ground (arith, p.2))),
          )

  pub all-IsListed : IsListed (IsSpared nodes []) (positions_from 0 nodes)
  all-IsListed = subst (IsListed (IsSpared nodes [])) (sym (positions_from-places 0 nodes)) (
      IsListed-iff _ _ _
        (Passes-IsSpared [] (λ n. true) (λ j. (λ m. absurd m, λ p. absurd (nobody p.2))))
        (places-IsListed (λ n. true) nodes))
    where
      nobody : not true ≡ true → ⊥
      nobody e = cc
