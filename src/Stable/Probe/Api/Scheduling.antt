-- ===== src/Stable/Probe/Api/Scheduling.antt =====
-- internal/stable: that the outcome of a check does not depend on which worker finishes first.
use sub_preprocessor.Base.{
  ℕ, ◌≡◌, sym, ap, ◌∙◌, inl, inr, Bool, false, Option, List, [], ◌∷◌, map, arith, Bytes, beq,
  beq_iff, All, Among,
}
use mathlib.Core.Path.{subst}
use mathlib.Core.List.{Permᴰ}
use sub_preprocessor.Base.Dict.{find}
use sub_preprocessor.Stable.Best.{IsPreference, outcomes_for, open_first, kept-Permᴰ}
use sub_preprocessor.Stable.Gate.{ApiOutcome}
use sub_preprocessor.Stable.Gate.Speed.{BandwidthOutcome}
use sub_preprocessor.Stable.Probe.Api.{
  ApiVerdict, api_outcome_rank, better_api_outcome, Classifier, outcome_of, Finished, classified,
  api_check, better_bandwidth_outcome, Transfer, bandwidth_of, transferred, bandwidth_check,
}

Permᴰ-map : {A B : Type 0} (f : A → B) {xs ys : List A} → Permᴰ xs ys → Permᴰ (map f xs) (map f ys)
Permᴰ-map f Permᴰ.nil = Permᴰ.nil
Permᴰ-map f (Permᴰ.cons e p) = Permᴰ.cons (ap f e) (Permᴰ-map f p)
Permᴰ-map f (Permᴰ.swap e d) = Permᴰ.swap (ap f e) (ap f d)
Permᴰ-map f (Permᴰ.trans p q) = Permᴰ.trans (Permᴰ-map f p) (Permᴰ-map f q)

better_api_outcome-IsPreference : IsPreference better_api_outcome
unfolding better_api_outcome
better_api_outcome-IsPreference = record {
  asymm = λ a b h. ground arith;
  trans = λ a b c h k. ground arith;
}

-- the outcome was made of an answer of this host
abbrev IsMade : Bytes → ApiOutcome → Type 0
IsMade host o = (r : Bool) × (v : ApiVerdict) × (o ≡ outcome_of host r v)

same_rank :
    (host : Bytes) (r s : Bool) (v w : ApiVerdict)
    → api_outcome_rank (outcome_of host r v) ≡ api_outcome_rank (outcome_of host s w)
    → outcome_of host r v ≡ outcome_of host s w
unfolding api_outcome_rank
same_rank host r s v w e = ground (arith, e)

level :
    (a b : ApiOutcome)
    → better_api_outcome a b ≡ false
    → better_api_outcome b a ≡ false
    → api_outcome_rank a ≡ api_outcome_rank b
unfolding better_api_outcome
level a b h k = ground (arith, h, k)

module _ (classify : Classifier) (hosts : Bytes → Bytes) where
  -- the proxies of one label share one host
  abbrev pub HasHosts : List Finished → Type 0
  HasHosts = All (λ (f : Finished). f.host ≡ hosts f.label)

  outcomes_for-IsMade :
      (label : Bytes) (fs : List Finished) (o : ApiOutcome)
      → HasHosts fs
      → Among o (outcomes_for better_api_outcome label (map (classified classify) fs))
      → IsMade (hosts label) o
  unfolding classified
  outcomes_for-IsMade label [] o h m = absurd (unfold outcomes_for in m)
  outcomes_for-IsMade label (f ∷ fs) o h m =
      let r = f.response in
      elim (open_first better_api_outcome label o (classified classify f)
        (map (classified classify) fs) m) [
          | inl (y, e) ↦ (
            r.reachable,
            classify r.status r.body r.complete,
            e
                ∙ ap (λ host. outcome_of host r.reachable (classify r.status r.body r.complete))
                    (h.0 ∙ ap hosts (sym ((beq_iff label f.label).0 y))),
          )
          | inr k ↦ outcomes_for-IsMade label fs o h.1 k
        ]

  -- If the proxies of each label share a host, the outcome that a check keeps for a label does
  -- not depend on the order in which its workers finish.
  pub api_check-Permᴰ :
      (label : Bytes) (fs gs : List Finished)
      → Permᴰ fs gs
      → HasHosts fs
      → find beq label (api_check classify fs) ≡ find beq label (api_check classify gs)
  unfolding api_check
  api_check-Permᴰ label fs gs p h =
      kept-Permᴰ better_api_outcome better_api_outcome-IsPreference label
        (map (classified classify) fs) (map (classified classify) gs)
        (Permᴰ-map (classified classify) p)
        (λ a b ma mb ab ba.
          ties a b (outcomes_for-IsMade label fs a h ma) (outcomes_for-IsMade label fs b h mb) ab
            ba)
    where
      ties :
          (a b : ApiOutcome)
          → IsMade (hosts label) a
          → IsMade (hosts label) b
          → better_api_outcome a b ≡ false
          → better_api_outcome b a ≡ false
          → a ≡ b
      ties a b (r, v, e) (s, w, d) ab ba =
          e
          ∙ (same_rank (hosts label) r s v w
                (sym (ap api_outcome_rank e) ∙ level a b ab ba ∙ ap api_outcome_rank d)
              ∙ sym d)

better_bandwidth_outcome-IsPreference : IsPreference better_bandwidth_outcome
unfolding better_bandwidth_outcome
better_bandwidth_outcome-IsPreference = record {
  asymm = λ a b h. ground arith;
  trans = λ a b c h k. ground arith;
}

abbrev IsMeasured : Bytes → BandwidthOutcome → Type 0
IsMeasured host o = (speed : Option ℕ) × (o ≡ bandwidth_of host speed)

same_speed :
    (host : Bytes) (s t : Option ℕ)
    → better_bandwidth_outcome (bandwidth_of host s) (bandwidth_of host t) ≡ false
    → better_bandwidth_outcome (bandwidth_of host t) (bandwidth_of host s) ≡ false
    → bandwidth_of host s ≡ bandwidth_of host t
unfolding better_bandwidth_outcome
same_speed host s t h k = ground (arith, h, k)

module _ (hosts : Bytes → Bytes) where
  abbrev pub HasSpeedHosts : List Transfer → Type 0
  HasSpeedHosts = All (λ (t : Transfer). t.host ≡ hosts t.label)

  outcomes_for-IsMeasured :
      (label : Bytes) (ts : List Transfer) (o : BandwidthOutcome)
      → HasSpeedHosts ts
      → Among o (outcomes_for better_bandwidth_outcome label (map transferred ts))
      → IsMeasured (hosts label) o
  unfolding transferred
  outcomes_for-IsMeasured label [] o h m = absurd (unfold outcomes_for in m)
  outcomes_for-IsMeasured label (t ∷ ts) o h m =
      elim (open_first better_bandwidth_outcome label o (transferred t) (map transferred ts) m) [
        | inl (y, e) ↦ (
          t.speed,
          e
              ∙ ap (λ host. bandwidth_of host t.speed)
                  (h.0 ∙ ap hosts (sym ((beq_iff label t.label).0 y))),
        )
        | inr k ↦ outcomes_for-IsMeasured label ts o h.1 k
      ]

  -- The same of the bandwidth check.
  pub bandwidth_check-Permᴰ :
      (label : Bytes) (ts us : List Transfer)
      → Permᴰ ts us
      → HasSpeedHosts ts
      → find beq label (bandwidth_check ts) ≡ find beq label (bandwidth_check us)
  unfolding bandwidth_check
  bandwidth_check-Permᴰ label ts us p h =
      kept-Permᴰ better_bandwidth_outcome better_bandwidth_outcome-IsPreference label
        (map transferred ts) (map transferred us) (Permᴰ-map transferred p)
        (λ a b ma mb ab ba.
          ties a b (outcomes_for-IsMeasured label ts a h ma)
            (outcomes_for-IsMeasured label ts b h mb) ab ba)
    where
      ties :
          (a b : BandwidthOutcome)
          → IsMeasured (hosts label) a
          → IsMeasured (hosts label) b
          → better_bandwidth_outcome a b ≡ false
          → better_bandwidth_outcome b a ≡ false
          → a ≡ b
      ties a b (s, e) (t, d) ab ba =
          let x = subst (λ (z : BandwidthOutcome). better_bandwidth_outcome z b ≡ false) e ab in
          let y = subst (λ (z : BandwidthOutcome). better_bandwidth_outcome b z ≡ false) e ba in
          e
          ∙ (same_speed (hosts label) s t
                (subst
                  (λ (z : BandwidthOutcome).
                    better_bandwidth_outcome (bandwidth_of (hosts label) s) z ≡ false)
                  d x)
                (subst
                  (λ (z : BandwidthOutcome).
                    better_bandwidth_outcome z (bandwidth_of (hosts label) s) ≡ false)
                  d y)
              ∙ sym d)
