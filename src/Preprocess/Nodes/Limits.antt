-- ===== src/Preprocess/Nodes/Limits.antt =====
-- internal/preprocess/processor.go: that the check before the first lookup bounds the nodes.
use sub_preprocessor.Base.{
  ℕ, ◌+◌, ◌≤◌, ◌<◌, ◌≡◌, refl, ◌∙◌, ◌⊎◌, inl, inr, Bool, false, not, Option, none, some, List, [],
  ◌∷◌, arith, ltb, leb, ◌==◌, Bool-cases, Option-cases, if_either, AllSome, Bytes, beq, length,
}
use sub_preprocessor.Netip.{Addr}
use sub_preprocessor.Ioutil.{lines}
use sub_preprocessor.Filter.{CountrySet}
use sub_preprocessor.Subscription.Node.{Node}
use sub_preprocessor.Subscription.Endpoint.{Decoders}
use sub_preprocessor.Subscription.Parser.{parse_node, cut_sep}
use sub_preprocessor.Preprocess.{NodeResult, FilterRequest, DropStats}
use sub_preprocessor.Preprocess.Filters.{run_filters}
use sub_preprocessor.Preprocess.Filters.Booked.{run_filters-IsBooked}
use sub_preprocessor.Preprocess.Nodes.{
  parse_into, Pipeline, Surroundings, Literal, no_literal, not_ipv4, ipv4, resolve_as, resolve_node,
  literal_of, emit, judge, admit, tested, process_node, yield_node, new_pipeline, processed,
  count_breaks, count_nodes, is_too_long, max_subscription_nodes, filter_nodes,
}
use sub_preprocessor.Preprocess.Nodes.Breaks.{length-lines}
use sub_preprocessor.Preprocess.Nodes.Accounts.{filter_nodes_reached}
use sub_preprocessor.Base.Dict.{find}

-- the nodes of the lines
abbrev of_line : Option Node → ℕ → ℕ
of_line none n = n
of_line (some node) n = n + 1

node_count : Decoders → List Bytes → ℕ
unfolding parse_node
node_count decoders [] = 0
node_count decoders (line ∷ ls) =
    let rest = node_count decoders ls in
    elim (cut_sep line) [ none ↦ rest | some p ↦ of_line (parse_node decoders line) rest ]

node_count_le : (decoders : Decoders) (ls : List Bytes) → node_count decoders ls ≤ length ls
unfolding node_count
node_count_le decoders [] = omega arith
node_count_le decoders (line ∷ ls) = let ih = node_count_le decoders ls in ground (arith, ih)

-- a yield that adds at most one to a measure adds at most as many as there are nodes
parse_into_le :
    {S : Type 0}
    → (m : S → ℕ) (decoders : Decoders) (yield : Node → S → S × Bool)
      (grows : (node : Node) (s : S) → m (yield node s).0 ≤ m s + 1) (ls : List Bytes) (s : S)
      (rejected : ℕ)
    → m (parse_into decoders yield ls s rejected).0 ≤ m s + node_count decoders ls
unfolding parse_into node_count
parse_into_le m decoders yield grows [] s rejected = omega arith
parse_into_le m decoders yield grows (line ∷ ls) s rejected = elim (Option-cases (cut_sep line)) [
  | inl e ↦ rw (e, parse_into, node_count) (parse_into_le m decoders yield grows ls s rejected)
  | inr (p, e) ↦ elim (Option-cases (parse_node decoders line)) [
    | inl f ↦
        rw (e, f, parse_into, node_count) (parse_into_le m decoders yield grows ls s (rejected + 1))
    | inr (node, f) ↦
        let s' = (yield node s).0 in
        let g = grows node s in
        let ih = parse_into_le m decoders yield grows ls s' rejected in
        rw (e, f, parse_into, node_count)
          (elim (Bool-cases (yield node s).1) [
            | inl y ↦ rw y (omega (arith, g, ih))
            | inr n ↦ rw n (omega (arith, g))
          ])
  ]
]

-- a count that does not pass the limit never stopped
count_below :
    (decoders : Decoders) (limit : ℕ) (ls : List Bytes) (c rejected : ℕ)
    → (parse_into decoders (λ node count. (count + 1, leb (count + 1) limit)) ls c rejected).0
      ≤ limit
    → c + node_count decoders ls ≤ limit ⊎ (limit < c)
unfolding parse_into node_count
count_below decoders limit [] c rejected h = inl (omega (arith, h))
count_below decoders limit (line ∷ ls) c rejected h = elim (Option-cases (cut_sep line)) [
  | inl e ↦ rw (e, node_count) (count_below decoders limit ls c rejected (rw (e, parse_into) at h))
  | inr (p, e) ↦ elim (Option-cases (parse_node decoders line)) [
    | inl f ↦
        rw (e, f, node_count)
          (count_below decoders limit ls c (rejected + 1) (rw (e, f, parse_into) at h))
    | inr (node, f) ↦
        let k = rw (e, f, parse_into) at h in
        rw (e, f, node_count)
          (elim (Bool-cases (leb (c + 1) limit)) [
            | inl y ↦
                let ih = count_below decoders limit ls (c + 1) rejected (rw y at k) in
                let le : c + 1 ≤ limit = ground (arith, y) in ground (arith, ih, le)
            | inr n ↦ absurd (ground (arith, n, (rw n at k)))
          ])
  ]
]

emit_total :
    (node : Node) (r : List Addr × DropStats) (p : Pipeline)
    → (emit node r p).stats.total ≡ r.1.total
emit_total node ([], st) p = refl
emit_total node (ip ∷ ips, st) p = refl

module _ (env : Surroundings) (allowed denied : CountrySet) where
  judge_total :
      (node : Node) (answer : List Addr × Bool) (p : Pipeline)
      → (judge env allowed denied node answer p).stats.total ≡ p.stats.total
  unfolding judge
  judge_total node (ips, supported) p =
      let P = λ (q : Pipeline). q.stats.total ≡ p.stats.total in
      if_either P (not supported) _ _ refl λ can. if_either P (length ips == 0) _ _ refl λ some_ip.
        emit_total node (run_filters (env.sight allowed denied p.checked) env.filters ips p.stats) p
        ∙ (run_filters-IsBooked (env.sight allowed denied p.checked) env.filters ips p.stats
            (ground (arith, some_ip))).same_total

  resolve_as_total :
      (l : Literal) (server : Bytes) (p : Pipeline)
      → (resolve_as env l server p).0.stats.total ≡ p.stats.total
  resolve_as_total not_ipv4 server p = refl
  resolve_as_total (ipv4 addr) server p = refl
  resolve_as_total no_literal server p = refl

  resolve_node_total :
      (server : Bytes) (p : Pipeline) → (resolve_node env server p).0.stats.total ≡ p.stats.total
  unfolding resolve_node
  resolve_node_total server p = elim (Option-cases (find beq server p.resolved)) [
    | inr (ips, e) ↦ rw (e, resolve_node) refl
    | inl e ↦ rw (e, resolve_node) (resolve_as_total (literal_of env server) server p)
  ]

  admit_total :
      (node : Node) (p : Pipeline)
      → (admit env allowed denied node p).stats.total ≡ p.stats.total + 1
  unfolding admit
  admit_total node p =
      let counted : Pipeline = record p { stats = record p.stats { total = p.stats.total + 1 } } in
      if_either (λ (q : Pipeline). q.stats.total ≡ p.stats.total + 1)
        (env.blocked p.checked node.server) _ _ refl
        λ free.
          judge_total node (resolve_node env node.server counted).1
            (resolve_node env node.server counted).0
          ∙ resolve_node_total node.server counted

  yield_node_total :
      (node : Node) (p : Pipeline)
      → (yield_node env allowed denied node p).0.stats.total ≤ p.stats.total + 1
  unfolding yield_node process_node
  yield_node_total node p =
      if_either (λ (x : Pipeline × Bool). x.0.stats.total ≤ p.stats.total + 1) (env.done p.checked)
        _ _ (omega arith)
        λ on.
          if_either (λ (q : Pipeline). q.stats.total ≤ p.stats.total + 1)
            (env.done (tested p).checked) _ _ (omega arith)
            λ still. omega (arith, admit_total node (tested (tested p)))

  processed_total :
      (body : Bytes)
      → (processed env allowed denied body).stats.total ≤ node_count env.decoders (lines body)
  unfolding processed
  processed_total body =
      let le : (processed env allowed denied body).stats.total
          ≤ 0 + node_count env.decoders (lines body) =
        parse_into_le (λ (p : Pipeline). p.stats.total) env.decoders (yield_node env allowed denied)
          yield_node_total (lines body) new_pipeline 0 in
      omega (arith, le)

short_count :
    (env : Surroundings) (body : Bytes)
    → is_too_long env body ≡ false
    → node_count env.decoders (lines body) ≤ max_subscription_nodes
unfolding is_too_long count_nodes
short_count env body short =
    let le = node_count_le env.decoders (lines body) in
    let few = length-lines body in
    elim (Bool-cases (ltb max_subscription_nodes (count_breaks body + 1))) [
      | inr n ↦
          let many : count_breaks body + 1 ≤ max_subscription_nodes = ground (arith, n) in
          omega (arith, le, few, many)
      | inl y ↦
          let counted : (parse_into env.decoders
                (λ node count. (count + 1, leb (count + 1) max_subscription_nodes)) (lines body) 0
                0).0
              ≤ max_subscription_nodes =
            ground (arith, short, y) in
          omega (arith, count_below env.decoders max_subscription_nodes (lines body) 0 0 counted)
    ]

-- What the filtering of a source returns counts at most 50000 nodes, though the exact count is
-- only made of a body with more line ends.
pub filter_nodes_bounds :
    (env : Surroundings) (req : FilterRequest)
    → AllSome
        (λ (r : List NodeResult × DropStats). r.1.total ≤ max_subscription_nodes)
        (filter_nodes env req)
filter_nodes_bounds env req =
    filter_nodes_reached env req.allowed_countries req.denied_countries
      (λ (r : List NodeResult × DropStats). r.1.total ≤ max_subscription_nodes) req refl refl
      λ body is_body short some_node. omega (
        arith,
        short_count env body short,
        processed_total env req.allowed_countries req.denied_countries body,
      )
