-- ===== src/Stable/Probe/Precheck/Verdicts.antt =====
-- internal/stable/prober.go: whom the pre-check condemns.
use sub_preprocessor.Base.{
  keep, if_both, length, ℕ, ◌+◌, ◌-◌, ◌*◌, ◌≤◌, ◌<◌, ◌≡◌, refl, sym, ap, ◌∙◌, ◌⊎◌, inl, inr, Bool,
  true, false, not, ◌&&◌, List, [], ◌∷◌, arith, ◌==◌, Bytes, Among,
}
use sub_preprocessor.Stable.Gate.{breaker_trips}
use sub_preprocessor.Stable.Probe.{ProbeNode}
use sub_preprocessor.Stable.Cycle.Death.{precheck_tripped, PrecheckReport, precheck_ran}
use sub_preprocessor.Stable.Probe.Precheck.{
  Verdict, Dial, is_connected, is_dial_error, dial_loop, reachable_tcp, endpoints_from, is_refused,
  count_verdicts, Prechecked, filter_reachable,
}
use sub_preprocessor.Stable.Probe.Precheck.Condemned.{
  IsRefused, IsSpared, refused_is, condemned-IsListed, live-IsListed, all-IsListed,
}
use sub_preprocessor.Stable.Probe.Precheck.Endpoints.{IsCounted, endpoints-IsCounted}
use sub_preprocessor.Stable.Probe.Precheck.Places.{none_listed, nil-IsListed, get-Among, IsListed}
use sub_preprocessor.Stable.Probe.Precheck.Endpoints.{endpoints-IsCounted, IsCounted}
use sub_preprocessor.Stable.Probe.Precheck.Places.{IsListed}

-- An endpoint is refused exactly when neither attempt connects or runs into the end of the cycle and
-- the second fails after its name became an address.
pub reachable_tcp_refused :
    (dial : ℕ → Dial) (done : ℕ → Bool)
    → is_refused (reachable_tcp dial done)
      ≡ (not (is_connected (dial 0)) && (not (done 0) && (is_dial_error (dial 1) && not (done 1))))
unfolding reachable_tcp dial_loop
reachable_tcp_refused dial done = ground arith

count_verdicts_le :
    (verdict : Bytes → Verdict) (addrs : List Bytes)
    → (count_verdicts verdict addrs).0 + (count_verdicts verdict addrs).1 ≤ length addrs
unfolding count_verdicts
count_verdicts_le verdict [] = omega arith
count_verdicts_le verdict (a ∷ addrs) =
    let ih = count_verdicts_le verdict addrs in ground (arith, ih)

-- what the report says of the judged endpoints: some was reached, and of a hundred or more of them
-- less than 95 in a hundred were refused
abbrev pub IsPlausible : PrecheckReport → Type 0
IsPlausible r =
    (r.refused_endpoints + r.unresolved < r.dialled)
    × ((r.dialled < 100 + r.unresolved)
        ⊎ (r.refused_endpoints * 100 + r.unresolved * 95 < r.dialled * 95))

abbrev pub IsSplit : (Bytes → Verdict) → List ProbeNode → Prechecked → Type 0
IsSplit verdict nodes p =
    IsCounted verdict nodes p.report
    × IsListed (IsSpared nodes p.condemned) p.live
    × (((p.report.precheck_state ≡ precheck_tripped)
          × (p.condemned ≡ [])
          × (IsPlausible p.report → ⊥))
        ⊎ ((p.report.precheck_state ≡ precheck_ran)
            × IsListed (IsRefused verdict nodes) p.condemned
            × ((p.condemned ≡ []) ⊎ IsPlausible p.report)))

plausible :
    (refused unresolved dialled : ℕ)
    → refused + unresolved ≤ dialled
    → (dialled == 0) ≡ false
    → breaker_trips refused (dialled - unresolved) ≡ false
    → (unresolved ≡ dialled)
      ⊎ ((refused + unresolved < dialled)
          × ((dialled < 100 + unresolved) ⊎ (refused * 100 + unresolved * 95 < dialled * 95)))
unfolding breaker_trips
plausible refused unresolved dialled c nz nb = ground (arith, c, nz, nb)

tripped_implausible :
    (refused unresolved dialled : ℕ)
    → refused + unresolved ≤ dialled
    → breaker_trips refused (dialled - unresolved) ≡ true
    → (refused + unresolved < dialled)
      × ((dialled < 100 + unresolved) ⊎ (refused * 100 + unresolved * 95 < dialled * 95))
    → ⊥
unfolding breaker_trips
tripped_implausible refused unresolved dialled c b p = ground (arith, c, b, p)

Among-keep :
    (p : Bytes → Bool) (a : Bytes) (xs : List Bytes)
    → Among a xs
    → p a ≡ true
    → 0 < length (keep p xs)
unfolding keep
Among-keep p a [] m t = absurd m
Among-keep p a (x ∷ xs) (inl e) t = let y : p x ≡ true = ap p (sym e) ∙ t in ground (arith, y)
Among-keep p a (x ∷ xs) (inr m) t = let ih = Among-keep p a xs m t in ground (arith, ih)

-- without a refused endpoint no position is refused
unrefused :
    (verdict : Bytes → Verdict) (nodes : List ProbeNode) (r : PrecheckReport)
    → IsCounted verdict nodes r
    → r.refused_endpoints ≡ 0
    → (j : ℕ) → IsRefused verdict nodes j
    → ⊥
unrefused verdict nodes r c z j (n, e, t, v) =
    let a = (c.covers n.addr).1 (n, get-Among nodes j e, t, refl) in
    let k =
      Among-keep (λ a. is_refused (verdict a)) n.addr c.endpoints a
        ((refused_is (verdict n.addr)).1 v) in
    omega (arith, k, c.all_refused, z)

-- the report of a pre-check whose verdicts are believed
abbrev ran_report : (Bytes → Verdict) → List ProbeNode → PrecheckReport
ran_report verdict nodes = record {
  precheck_state = precheck_ran;
  dialled = length (endpoints_from [] nodes);
  refused_endpoints = (count_verdicts verdict (endpoints_from [] nodes)).0;
  unresolved = (count_verdicts verdict (endpoints_from [] nodes)).1;
}

-- The live positions and the condemned ones are listed in order, and a position is live exactly
-- when it is one of the nodes and not condemned. The report counts the distinct endpoints of the
-- nodes that are dialled over TCP, and how many of them were refused or not resolved. Either the
-- breaker tripped on counts that are not plausible and nobody is condemned, or the condemned
-- positions are exactly those of the nodes that are dialled over TCP and whose endpoint was
-- refused, none or on counts that are plausible.
pub filter_reachable-IsSplit :
    (verdict : Bytes → Verdict) (nodes : List ProbeNode)
    → IsSplit verdict nodes (filter_reachable verdict nodes)
unfolding filter_reachable
filter_reachable-IsSplit verdict nodes =
    let addrs = endpoints_from [] nodes in
    let counts = count_verdicts verdict addrs in
    let c = count_verdicts_le verdict addrs in
    let listed = condemned-IsListed verdict nodes in
    let counted = endpoints-IsCounted verdict nodes (ran_report verdict nodes) refl refl refl in
    let unharmed =
      λ (z : counts.0 ≡ 0). unrefused verdict nodes (ran_report verdict nodes) counted z in
    if_both (IsSplit verdict nodes) (length addrs == 0) _ _
      (λ z.
        let none_refused : counts.0 ≡ 0 = ground (arith, z, c) in
        (
          counted,
          all-IsListed verdict nodes,
          inr (refl, nil-IsListed _ (unharmed none_refused), inl refl),
        ))
      λ nz.
        if_both (IsSplit verdict nodes) (breaker_trips counts.0 (length addrs - counts.1)) _ _
          (λ b. (
            endpoints-IsCounted verdict nodes
                (record (ran_report verdict nodes) { precheck_state = precheck_tripped }) refl refl
                refl,
            all-IsListed verdict nodes,
            inl (refl, refl, tripped_implausible counts.0 counts.1 (length addrs) c b),
          ))
          λ nb. (
            counted,
            live-IsListed verdict nodes,
            inr (
              refl,
              listed,
              (elim (plausible counts.0 counts.1 (length addrs) c nz nb) [
                | inr fine ↦ inr fine
                | inl none_judged ↦ inl (
                    none_listed _ (IsRefused verdict nodes)
                      (unharmed (omega (arith, none_judged, c))) listed)
              ]),
            ),
          )
