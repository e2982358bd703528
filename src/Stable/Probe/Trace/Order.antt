-- ===== src/Stable/Probe/Trace/Order.antt =====
-- internal/stable/prober_trace.go: that the measured exit of a node does not depend on the order in
-- which its proxies finish, and what a measured exit is.
use sub_preprocessor.Base.{
  ◌≡◌, refl, sym, ap, ◌∙◌, inl, inr, true, false, not, Option, none, some, List, [], ◌∷◌, arith,
  Bool-cases, Option-cases, if_either, AllSome, some-inj, Bytes, beq, beq_iff, All, Among,
}
use mathlib.Core.List.{Permᴰ}
use mathlib.Core.List.Permᴰ
use sub_preprocessor.Base.Dict.{find}
use sub_preprocessor.Netip.{Addr}
use sub_preprocessor.Stable.Best.{IsPreference, outcomes_for, kept-Permᴰ, outcomes_for_each}
use sub_preprocessor.Stable.Probe.Trace.{
  TraceOutcome, Traced, text_less, better_trace_outcome, trace_of, prepend, answered_traces,
  trace_check, parse_trace, is_answer,
}

text_less_asymm : (a b : Bytes) → text_less a b ≡ true → text_less b a ≡ false
unfolding text_less
text_less_asymm [] [] h = refl
text_less_asymm [] (y ∷ ys) h = refl
text_less_asymm (x ∷ xs) [] h = absurd (cc)
text_less_asymm (x ∷ xs) (y ∷ ys) h = let ih = text_less_asymm xs ys in ground (arith, h, ih)

text_less_total : (a b : Bytes) → text_less a b ≡ false → text_less b a ≡ false → a ≡ b
unfolding text_less
text_less_total [] [] h k = refl
text_less_total [] (y ∷ ys) h k = absurd (cc)
text_less_total (x ∷ xs) [] h k = absurd (cc)
text_less_total (x ∷ xs) (y ∷ ys) h k =
    let same : x ≡ y = ground (arith, h, k) in
    let left : text_less xs ys ≡ false = ground (arith, h, same) in
    let right : text_less ys xs ≡ false = ground (arith, k, same) in
    let e = text_less_total xs ys left right in cc

text_less_trans :
    (a b c : Bytes) → text_less a b ≡ false → text_less b c ≡ false → text_less a c ≡ false
unfolding text_less
text_less_trans [] [] c h k = k
text_less_trans [] (y ∷ ys) c h k = absurd (cc)
text_less_trans (x ∷ xs) b [] h k = refl
text_less_trans (x ∷ xs) [] (z ∷ zs) h k = absurd (cc)
text_less_trans (x ∷ xs) (y ∷ ys) (z ∷ zs) h k =
    let ih = text_less_trans xs ys zs in ground (arith, h, k, ih)

beq_comm : (a b : Bytes) → beq a b ≡ beq b a
beq_comm a b = elim (Bool-cases (beq a b)) [
  | inl y ↦ y ∙ sym ((beq_iff b a).1 (sym ((beq_iff a b).0 y)))
  | inr n ↦ elim (Bool-cases (beq b a)) [
    | inl y ↦ let z = (beq_iff a b).1 (sym ((beq_iff b a).0 y)) in absurd (cc)
    | inr m ↦ n ∙ sym m
  ]
]

better_trace_outcome_total :
    (a b : TraceOutcome)
    → better_trace_outcome a b ≡ false
    → better_trace_outcome b a ≡ false
    → (a.addr ≡ b.addr) × (a.name ≡ b.name)
unfolding better_trace_outcome
better_trace_outcome_total a b h k =
    let c = beq_comm b.addr a.addr in
    elim (Bool-cases (beq a.addr b.addr)) [
      | inl y ↦
          ((beq_iff a.addr b.addr).0 y, text_less_total a.name b.name (rw y at h) (rw (c ∙ y) at k))
      | inr n ↦
          let e = text_less_total a.addr b.addr (rw n at h) (rw (c ∙ n) at k) in
          let z = (beq_iff a.addr b.addr).1 e in absurd (cc)
    ]

better_trace_outcome-IsPreference : IsPreference better_trace_outcome
unfolding better_trace_outcome
better_trace_outcome-IsPreference = record {
  asymm = λ a b h.
      let c = beq_comm b.addr a.addr in
      elim (Bool-cases (beq a.addr b.addr)) [
        | inl y ↦ rw (c ∙ y) (text_less_asymm a.name b.name (rw y at h))
        | inr n ↦ rw (c ∙ n) (text_less_asymm a.addr b.addr (rw n at h))
      ];
  trans = λ a b c h k. not_better a b c h k;
}
  where
    not_better :
        (a b c : TraceOutcome)
        → better_trace_outcome a b ≡ false
        → better_trace_outcome b c ≡ false
        → better_trace_outcome a c ≡ false
    not_better a b c h k = elim (Bool-cases (beq a.addr b.addr)) [
      | inl ab ↦
          let e = (beq_iff a.addr b.addr).0 ab in
          let names = rw ab at h in
          elim (Bool-cases (beq b.addr c.addr)) [
            | inl bc ↦
                rw (ap (λ s. beq s c.addr) e ∙ bc)
                  (text_less_trans a.name b.name c.name names (rw bc at k))
            | inr bc ↦
                rw (ap (λ s. beq s c.addr) e ∙ bc) (ap (λ s. text_less s c.addr) e ∙ (rw bc at k))
          ]
      | inr ab ↦
          let less = rw ab at h in
          elim (Bool-cases (beq b.addr c.addr)) [
            | inl bc ↦
                let e = (beq_iff b.addr c.addr).0 bc in
                rw (ap (λ s. beq a.addr s) (sym e) ∙ ab)
                  (ap (λ s. text_less a.addr s) (sym e) ∙ less)
            | inr bc ↦ elim (Bool-cases (beq a.addr c.addr)) [
              | inr ac ↦ rw ac (text_less_trans a.addr b.addr c.addr less (rw bc at k))
              | inl ac ↦
                  let e = (beq_iff a.addr c.addr).0 ac in
                  let back : text_less b.addr a.addr ≡ false =
                    ap (λ s. text_less b.addr s) e ∙ (rw bc at k) in
                  let q = text_less_total a.addr b.addr less back in
                  let z = (beq_iff a.addr b.addr).1 q in absurd (cc)
            ]
          ]
    ]

Permᴰ-prepend :
    (o q : Option (Bytes × TraceOutcome)) {xs ys : List (Bytes × TraceOutcome)}
    → o ≡ q
    → Permᴰ xs ys
    → Permᴰ (prepend o xs) (prepend q ys)
Permᴰ-prepend none none e p = p
Permᴰ-prepend none (some b) e p = absurd (cc)
Permᴰ-prepend (some a) none e p = absurd (cc)
Permᴰ-prepend (some a) (some b) e p = Permᴰ.cons (some-inj e) p

prepend_swap :
    (o q : Option (Bytes × TraceOutcome)) (xs : List (Bytes × TraceOutcome))
    → Permᴰ (prepend o (prepend q xs)) (prepend q (prepend o xs))
prepend_swap none q xs = Permᴰ.refl (prepend q xs)
prepend_swap (some a) none xs = Permᴰ.refl (a ∷ xs)
prepend_swap (some a) (some b) xs = Permᴰ.swap refl refl

module _ (parse_addr : Bytes → Option Addr) where
  Permᴰ-answered_traces :
      {ts us : List Traced}
      → Permᴰ ts us
      → Permᴰ (answered_traces parse_addr ts) (answered_traces parse_addr us)
  unfolding answered_traces
  Permᴰ-answered_traces Permᴰ.nil = Permᴰ.nil
  Permᴰ-answered_traces (Permᴰ.cons {a} {b} e p) =
      Permᴰ-prepend (trace_of parse_addr a) (trace_of parse_addr b) (ap (trace_of parse_addr) e)
        (Permᴰ-answered_traces p)
  Permᴰ-answered_traces (Permᴰ.swap {a} {b} {a'} {b'} {l} e d) =
      let o = trace_of parse_addr in
      Permᴰ.trans (prepend_swap (o a) (o b) (answered_traces parse_addr l)) (
        Permᴰ-prepend (o b) (o a') (ap o d)
          (Permᴰ-prepend (o a) (o b') (ap o e) (Permᴰ.refl (answered_traces parse_addr l))))
  Permᴰ-answered_traces (Permᴰ.trans p q) =
      Permᴰ.trans (Permᴰ-answered_traces p) (Permᴰ-answered_traces q)

  -- what a proxy answered is told by its address and its name: the names of the proxies of a label
  -- do not repeat
  module _ (measured : Bytes → Bytes → Bytes) where
    abbrev pub HasNames : List Traced → Type 0
    HasNames = All (λ (t : Traced). t.response.body ≡ measured t.addr t.name)

    -- the outcome was read out of what its proxy answered
    IsRead : TraceOutcome → Type 0
    IsRead o = parse_trace parse_addr (measured o.addr o.name) ≡ some o.res

    trace_of-IsRead :
        (t : Traced)
        → t.response.body ≡ measured t.addr t.name
        → AllSome (λ (o : Bytes × TraceOutcome). IsRead o.1) (trace_of parse_addr t)
    unfolding trace_of IsRead
    trace_of-IsRead t h = elim (Option-cases (parse_trace parse_addr t.response.body)) [
      | inl e ↦ rw e tt
      | inr (res, e) ↦ rw e (
          if_either (AllSome (λ (o : Bytes × TraceOutcome). IsRead o.1))
            (not (is_answer t.response)) none
            (some (t.label, (record { addr = t.addr; name = t.name; res = res }))) tt
            λ answer. ap (parse_trace parse_addr) (sym h) ∙ e)
    ]

    prepend-All :
        (o : Option (Bytes × TraceOutcome)) (xs : List (Bytes × TraceOutcome))
        → AllSome (λ (o : Bytes × TraceOutcome). IsRead o.1) o
        → All (λ (o : Bytes × TraceOutcome). IsRead o.1) xs
        → All (λ (o : Bytes × TraceOutcome). IsRead o.1) (prepend o xs)
    prepend-All none xs h k = k
    prepend-All (some x) xs h k = (h, k)

    answered_traces-IsRead :
        (ts : List Traced)
        → HasNames ts
        → All (λ (o : Bytes × TraceOutcome). IsRead o.1) (answered_traces parse_addr ts)
    unfolding answered_traces
    answered_traces-IsRead [] h = tt
    answered_traces-IsRead (t ∷ ts) h =
        prepend-All (trace_of parse_addr t) (answered_traces parse_addr ts) (trace_of-IsRead t h.0)
          (answered_traces-IsRead ts h.1)

    -- If what a proxy answers is told by its address and its name, the measured exit of a node
    -- does not depend on the order in which its proxies finish.
    pub trace_check-Permᴰ :
        (label : Bytes) {ts us : List Traced}
        → Permᴰ ts us
        → HasNames ts
        → find beq label (trace_check parse_addr ts) ≡ find beq label (trace_check parse_addr us)
    unfolding trace_check IsRead
    trace_check-Permᴰ label {ts} {us} p h =
        kept-Permᴰ better_trace_outcome better_trace_outcome-IsPreference label
          (answered_traces parse_addr ts) (answered_traces parse_addr us) (Permᴰ-answered_traces p)
          (λ a b ma mb ab ba.
            ties a b (read a ma) (read b mb) (better_trace_outcome_total a b ab ba))
      where
        read :
            (o : TraceOutcome)
            → Among o (outcomes_for better_trace_outcome label (answered_traces parse_addr ts))
            → IsRead o
        read o m =
            outcomes_for_each better_trace_outcome IsRead label (answered_traces parse_addr ts) o
              (answered_traces-IsRead ts h) m

        ties :
            (a b : TraceOutcome)
            → IsRead a
            → IsRead b
            → (a.addr ≡ b.addr) × (a.name ≡ b.name)
            → a ≡ b
        ties a b ra rb (e, f) =
            let same : parse_trace parse_addr (measured a.addr a.name)
                ≡ parse_trace parse_addr (measured b.addr b.name) =
              ap (λ x. parse_trace parse_addr (measured x a.name)) e
              ∙ ap (λ x. parse_trace parse_addr (measured b.addr x)) f in
            let g : a.res ≡ b.res = some-inj (sym ra ∙ (same ∙ rb)) in cc
