-- ===== src/Stable/Probe/Precheck/Endpoints.antt =====
-- internal/stable/prober.go: which endpoints the pre-check dials, and how it counts their verdicts.
use sub_preprocessor.Base.{
  ◌≡◌, refl, sym, ap, ◌∙◌, ◌↔◌, ◌⊎◌, inl, inr, true, false, not, List, [], ◌∷◌, ◌++◌, arith,
  Bool-cases, if_either, if_passed, Bytes, beq, beq_iff, length, keep, Among,
}
use mathlib.Core.Path.{subst}
use sub_preprocessor.Stable.Merge.{seen_key}
use sub_preprocessor.Stable.Probe.{ProbeNode}
use sub_preprocessor.Stable.Cycle.Death.{PrecheckReport}
use sub_preprocessor.Stable.Probe.Precheck.{
  Verdict, is_refused, is_unresolved, add_endpoint, endpoints_from, count_verdicts,
}

abbrev pub IsDistinct : List Bytes → Type 0
IsDistinct [] = Unit
IsDistinct (a ∷ addrs) = (Among a addrs → ⊥) × IsDistinct addrs

-- some node is dialled over TCP at the address
abbrev pub HasEndpoint : List ProbeNode → Bytes → Type 0
HasEndpoint nodes a = (n : ProbeNode) × Among n nodes × (n.tcp_server ≡ true) × (n.addr ≡ a)

-- the report counts the distinct endpoints, and those of them with either bad verdict
pub record IsCounted (verdict : Bytes → Verdict) (nodes : List ProbeNode) (r : PrecheckReport)
    : Type 0 where
  pub endpoints : List Bytes
  pub distinct : IsDistinct endpoints
  pub covers : (a : Bytes) → Among a endpoints ↔ HasEndpoint nodes a
  pub all_dialled : r.dialled ≡ length endpoints
  pub all_refused : r.refused_endpoints ≡ length (keep (λ a. is_refused (verdict a)) endpoints)
  pub all_unresolved : r.unresolved ≡ length (keep (λ a. is_unresolved (verdict a)) endpoints)

seen-Among : (a : Bytes) (addrs : List Bytes) → seen_key a addrs ≡ true → Among a addrs
unfolding seen_key
seen-Among a [] h = absurd (cc)
seen-Among a (b ∷ addrs) h = elim (Bool-cases (beq b a)) [
  | inl y ↦ inl (sym ((beq_iff b a).0 y))
  | inr n ↦ inr (seen-Among a addrs (rw n at h))
]

unseen : (a : Bytes) (addrs : List Bytes) → seen_key a addrs ≡ false → Among a addrs → ⊥
unfolding seen_key
unseen a [] h m = absurd m
unseen a (b ∷ addrs) h (inl e) = let y = (beq_iff b a).1 (sym e) in ground (arith, y)
unseen a (b ∷ addrs) h (inr m) = elim (Bool-cases (beq b a)) [
  | inl y ↦ ground (arith, y)
  | inr n ↦ unseen a addrs (rw n at h) m
]

Among-append : (a : Bytes) (xs ys : List Bytes) → Among a xs ⊎ Among a ys → Among a (xs ++ ys)
Among-append a [] ys (inl m) = absurd m
Among-append a [] ys (inr m) = m
Among-append a (x ∷ xs) ys (inl (inl e)) = inl e
Among-append a (x ∷ xs) ys (inl (inr m)) = inr (Among-append a xs ys (inl m))
Among-append a (x ∷ xs) ys (inr m) = inr (Among-append a xs ys (inr m))

append-Among : (a b : Bytes) (xs : List Bytes) → Among a (xs ++ b ∷ []) → Among a xs ⊎ (a ≡ b)
append-Among a b [] (inl e) = inr e
append-Among a b [] (inr m) = absurd m
append-Among a b (x ∷ xs) (inl e) = inl (inl e)
append-Among a b (x ∷ xs) (inr m) = elim (append-Among a b xs m) [
  | inl k ↦ inl (inr k)
  | inr e ↦ inr e
]

append-IsDistinct :
    (a : Bytes) (xs : List Bytes) → (Among a xs → ⊥) → IsDistinct xs → IsDistinct (xs ++ a ∷ [])
append-IsDistinct a [] h d = (λ m. m, tt)
append-IsDistinct a (x ∷ xs) h d = (
  λ m. elim (append-Among x a xs m) [ inl k ↦ d.0 k | inr e ↦ h (inl (sym e)) ],
  append-IsDistinct a xs (λ m. h (inr m)) d.1,
)

add_endpoint-IsDistinct :
    (n : ProbeNode) (addrs : List Bytes) → IsDistinct addrs → IsDistinct (add_endpoint n addrs)
unfolding add_endpoint
add_endpoint-IsDistinct n addrs d = if_either IsDistinct (not n.tcp_server) _ _ d λ tcp.
    if_either IsDistinct (seen_key n.addr addrs) _ _ d
      λ new. append-IsDistinct n.addr addrs (unseen n.addr addrs new) d

endpoints_from-IsDistinct :
    (addrs : List Bytes) (nodes : List ProbeNode)
    → IsDistinct addrs
    → IsDistinct (endpoints_from addrs nodes)
unfolding endpoints_from
endpoints_from-IsDistinct addrs [] d = d
endpoints_from-IsDistinct addrs (n ∷ nodes) d =
    endpoints_from-IsDistinct (add_endpoint n addrs) nodes (add_endpoint-IsDistinct n addrs d)

add_endpoint-Among :
    (a : Bytes) (n : ProbeNode) (addrs : List Bytes)
    → Among a addrs
    → Among a (add_endpoint n addrs)
unfolding add_endpoint
add_endpoint-Among a n addrs m = if_either (Among a) (not n.tcp_server) _ _ m λ tcp.
    if_either (Among a) (seen_key n.addr addrs) _ _ m
      λ new. Among-append a addrs (n.addr ∷ []) (inl m)

add_endpoint_first :
    (n : ProbeNode) (addrs : List Bytes) → n.tcp_server ≡ true → Among n.addr (add_endpoint n addrs)
unfolding add_endpoint
add_endpoint_first n addrs tcp =
    if_passed (Among n.addr) (not n.tcp_server) _ _ (ground (arith, tcp))
      (elim (Bool-cases (seen_key n.addr addrs)) [
        | inl y ↦ rw y (seen-Among n.addr addrs y)
        | inr new ↦ rw new (Among-append n.addr addrs (n.addr ∷ []) (inr (inl refl)))
      ])

add_endpoint_origin :
    (a : Bytes) (n : ProbeNode) (addrs : List Bytes)
    → Among a (add_endpoint n addrs)
    → Among a addrs ⊎ ((n.tcp_server ≡ true) × (n.addr ≡ a))
unfolding add_endpoint
add_endpoint_origin a n addrs m = elim (Bool-cases n.tcp_server) [
  | inr off ↦ inl (rw off at m)
  | inl on ↦ elim (Bool-cases (seen_key n.addr addrs)) [
    | inl y ↦ inl (rw (on, y) at m)
    | inr new ↦ elim (append-Among a n.addr addrs (rw (on, new) at m)) [
      | inl k ↦ inl k
      | inr e ↦ inr (on, sym e)
    ]
  ]
]

endpoints_from-Among :
    (a : Bytes) (addrs : List Bytes) (nodes : List ProbeNode)
    → Among a addrs ⊎ HasEndpoint nodes a
    → Among a (endpoints_from addrs nodes)
unfolding endpoints_from
endpoints_from-Among a addrs [] (inl m) = m
endpoints_from-Among a addrs [] (inr (n, m, t, e)) = absurd m
endpoints_from-Among a addrs (n ∷ nodes) (inl m) =
    endpoints_from-Among a (add_endpoint n addrs) nodes (inl (add_endpoint-Among a n addrs m))
endpoints_from-Among a addrs (n ∷ nodes) (inr (k, inr m, t, e)) =
    endpoints_from-Among a (add_endpoint n addrs) nodes (inr (k, m, t, e))
endpoints_from-Among a addrs (n ∷ nodes) (inr (k, inl same, t, e)) =
    let tcp : n.tcp_server ≡ true = ap (λ (x : ProbeNode). x.tcp_server) (sym same) ∙ t in
    let at : n.addr ≡ a = ap (λ (x : ProbeNode). x.addr) (sym same) ∙ e in
    endpoints_from-Among a (add_endpoint n addrs) nodes (
      inl
        (subst (λ (x : Bytes). Among x (add_endpoint n addrs)) at (add_endpoint_first n addrs tcp)))

endpoints_from_origin :
    (a : Bytes) (addrs : List Bytes) (nodes : List ProbeNode)
    → Among a (endpoints_from addrs nodes)
    → Among a addrs ⊎ HasEndpoint nodes a
unfolding endpoints_from
endpoints_from_origin a addrs [] m = inl m
endpoints_from_origin a addrs (n ∷ nodes) m =
    elim (endpoints_from_origin a (add_endpoint n addrs) nodes m) [
      | inr (k, among, t, e) ↦ inr (k, inr among, t, e)
      | inl early ↦ elim (add_endpoint_origin a n addrs early) [
        | inl k ↦ inl k
        | inr (t, e) ↦ inr (n, inl refl, t, e)
      ]
    ]

pub endpoints_iff :
    (a : Bytes) (nodes : List ProbeNode) → Among a (endpoints_from [] nodes) ↔ HasEndpoint nodes a
endpoints_iff a nodes = (
  λ m. elim (endpoints_from_origin a [] nodes m) [ inl k ↦ absurd k | inr h ↦ h ],
  λ h. endpoints_from-Among a [] nodes (inr h),
)

count_verdicts_lem :
    (verdict : Bytes → Verdict) (addrs : List Bytes)
    → ((count_verdicts verdict addrs).0 ≡ length (keep (λ a. is_refused (verdict a)) addrs))
      × ((count_verdicts verdict addrs).1 ≡ length (keep (λ a. is_unresolved (verdict a)) addrs))
unfolding count_verdicts keep
count_verdicts_lem verdict [] = (refl, refl)
count_verdicts_lem verdict (a ∷ addrs) =
    let ih = count_verdicts_lem verdict addrs in ground (arith, ih)

pub endpoints-IsCounted :
    (verdict : Bytes → Verdict) (nodes : List ProbeNode) (r : PrecheckReport)
    → r.dialled ≡ length (endpoints_from [] nodes)
    → r.refused_endpoints ≡ (count_verdicts verdict (endpoints_from [] nodes)).0
    → r.unresolved ≡ (count_verdicts verdict (endpoints_from [] nodes)).1
    → IsCounted verdict nodes r
endpoints-IsCounted verdict nodes r d f u =
    let (x, y) = count_verdicts_lem verdict (endpoints_from [] nodes) in
    record {
      endpoints = endpoints_from [] nodes;
      distinct = endpoints_from-IsDistinct [] nodes tt;
      covers = λ a. endpoints_iff a nodes;
      all_dialled = d;
      all_refused = f ∙ x;
      all_unresolved = u ∙ y;
    }
