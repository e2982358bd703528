-- ===== src/Preprocess/Nodes/Accounts.antt =====
-- internal/preprocess/processor.go: that the nodes of a body are the kept ones and the booked drops.
use sub_preprocessor.Base.{
  AllSome-bind_some, Among, ℕ, ◌+◌, ◌<◌, ◌≡◌, refl, sym, ◌∙◌, inl, inr, Bool, false, not, Option,
  none, some, List, [], ◌∷◌, arith, ◌>>=◌, ◌==◌, if◌then◌else◌, Bool-cases, Option-cases, if_either,
  AllSome, Bytes, beq, length, length-append,
}
use mathlib.Core.Path.{subst}
use sub_preprocessor.Base.Dict.{find}
use sub_preprocessor.Ioutil.{lines}
use sub_preprocessor.Netip.{Addr}
use sub_preprocessor.Filter.{CountrySet, is_empty}
use sub_preprocessor.Subscription.Node.{Node}
use sub_preprocessor.Subscription.Endpoint.{Decoders}
use sub_preprocessor.Subscription.Parser.{parse_node, cut_sep}
use sub_preprocessor.Preprocess.{NodeResult, FilterRequest, DropStats}
use sub_preprocessor.Preprocess.Filters.{run_filters}
use sub_preprocessor.Preprocess.Filters.Booked.{accounted, IsBooked, lost, run_filters-IsBooked}
use sub_preprocessor.Preprocess.Nodes.{
  parse_into, Pipeline, Surroundings, literal_of, Literal, no_literal, not_ipv4, ipv4, resolve_as,
  resolve_node, emit, judge, admit, tested, process_node, yield_node, new_pipeline, processed,
  process_body, is_too_long, filter_nodes, body_for,
}

-- what holds of the state before a body holds after it, if the yield keeps it for the node of each
-- of its lines
pub parse_into_reads :
    {S : Type 0}
    → (P : S → Type 0) (decoders : Decoders) (yield : Node → S → S × Bool) (ls : List Bytes)
      (keeps : (line : Bytes) (node : Node) (s : S)
        → Among line ls
        → parse_node decoders line ≡ some node
        → P s
        → P (yield node s).0)
      (s : S) (rejected : ℕ)
    → P s
    → P (parse_into decoders yield ls s rejected).0
unfolding parse_into
parse_into_reads P decoders yield [] keeps s rejected h = h
parse_into_reads P decoders yield (line ∷ ls) keeps s rejected h =
    elim (Option-cases (cut_sep line)) [
      | inl e ↦
          rw (e, parse_into)
            (parse_into_reads P decoders yield ls (λ l n t m. keeps l n t (inr m)) s rejected h)
      | inr (p, e) ↦ elim (Option-cases (parse_node decoders line)) [
        | inl f ↦
            rw (e, f, parse_into)
              (parse_into_reads P decoders yield ls (λ l n t m. keeps l n t (inr m)) s
                (rejected + 1) h)
        | inr (node, f) ↦
            let s' = (yield node s).0 in
            let kept = keeps line node s (inl refl) f h in
            let ih =
              parse_into_reads P decoders yield ls (λ l n t m. keeps l n t (inr m)) s' rejected
                kept in
            rw (e, f, parse_into)
              (elim (Bool-cases (yield node s).1) [ inl y ↦ rw y ih | inr n ↦ rw n kept ])
      ]
    ]

-- the same, of a yield that keeps it for every node
pub parse_into_keeps :
    {S : Type 0}
    → (P : S → Type 0) (decoders : Decoders) (yield : Node → S → S × Bool)
      (keeps : (node : Node) (s : S) → P s → P (yield node s).0) (ls : List Bytes) (s : S)
      (rejected : ℕ)
    → P s
    → P (parse_into decoders yield ls s rejected).0
parse_into_keeps P decoders yield keeps ls =
    parse_into_reads P decoders yield ls (λ line node s m e. keeps node s)

-- `n` nodes are counted that are neither kept nor booked yet
pub record IsBalanced (n : ℕ) (p : Pipeline) : Type 0 where
  pub balance : p.stats.total ≡ accounted p.stats + n
  pub in_sink : length p.sink ≡ p.stats.valid

emit-IsBalanced :
    (node : Node) (r : List Addr × DropStats) (p : Pipeline)
    → IsBalanced 1 p
    → IsBooked (lost r.0) p.stats r.1
    → IsBalanced 0 (emit node r p)
emit-IsBalanced node ([], st) p h b = record {
  balance = omega (arith, h.balance, b.drops, b.same_total);
  in_sink = h.in_sink ∙ sym b.same_valid;
}
emit-IsBalanced node (ip ∷ ips, st) p h b = record {
  balance = omega (arith, h.balance, b.drops, b.same_total);
  in_sink = omega (
    arith,
    h.in_sink,
    b.same_valid,
    length-append p.sink (record { raw = node.raw; ip = ip } ∷ []),
  );
}

module _ (env : Surroundings) (allowed denied : CountrySet) where
  judge-IsBalanced :
      (node : Node) (answer : List Addr × Bool) (p : Pipeline)
      → IsBalanced 1 p
      → IsBalanced 0 (judge env allowed denied node answer p)
  unfolding judge
  judge-IsBalanced node (ips, supported) p h =
      if_either (IsBalanced 0) (not supported) _ _
        (record { balance = omega (arith, h.balance); in_sink = h.in_sink })
        λ can.
          if_either (IsBalanced 0) (length ips == 0) _ _
            (record { balance = omega (arith, h.balance); in_sink = h.in_sink })
            λ some_ip.
              emit-IsBalanced node
                (run_filters (env.sight allowed denied p.checked) env.filters ips p.stats) p h
                (run_filters-IsBooked (env.sight allowed denied p.checked) env.filters ips p.stats
                  (ground (arith, some_ip)))

  resolve_as-IsBalanced :
      (n : ℕ) (l : Literal) (server : Bytes) (p : Pipeline)
      → IsBalanced n p
      → IsBalanced n (resolve_as env l server p).0
  resolve_as-IsBalanced n not_ipv4 server p h = h
  resolve_as-IsBalanced n (ipv4 addr) server p h = h
  resolve_as-IsBalanced n no_literal server p h = record {
    balance = h.balance;
    in_sink = h.in_sink;
  }

  -- a lookup changes neither the sink nor the account
  resolve_node-IsBalanced :
      (n : ℕ) (server : Bytes) (p : Pipeline)
      → IsBalanced n p
      → IsBalanced n (resolve_node env server p).0
  unfolding resolve_node
  resolve_node-IsBalanced n server p h = elim (Option-cases (find beq server p.resolved)) [
    | inr (ips, e) ↦ rw (e, resolve_node) h
    | inl e ↦ rw (e, resolve_node) (resolve_as-IsBalanced n (literal_of env server) server p h)
  ]

  admit-IsBalanced :
      (node : Node) (p : Pipeline) → IsBalanced 0 p → IsBalanced 0 (admit env allowed denied node p)
  unfolding admit
  admit-IsBalanced node p h =
      let st = record p.stats { total = p.stats.total + 1 } in
      let counted : Pipeline = record p { stats = st } in
      let open_one : IsBalanced 1 counted = record {
        balance = omega (arith, h.balance);
        in_sink = h.in_sink;
      } in
      if_either (IsBalanced 0) (env.blocked p.checked node.server) _ _
        (record { balance = omega (arith, h.balance); in_sink = h.in_sink })
        λ free.
          judge-IsBalanced node (resolve_node env node.server counted).1
            (resolve_node env node.server counted).0
            (resolve_node-IsBalanced 1 node.server counted open_one)

  tested-IsBalanced : (p : Pipeline) → IsBalanced 0 p → IsBalanced 0 (tested p)
  tested-IsBalanced p h = record { balance = h.balance; in_sink = h.in_sink }

  yield_node-IsBalanced :
      (node : Node) (p : Pipeline)
      → IsBalanced 0 p
      → IsBalanced 0 (yield_node env allowed denied node p).0
  unfolding yield_node process_node
  yield_node-IsBalanced node p h =
      let q = tested p in
      let k = tested-IsBalanced p h in
      if_either (λ (x : Pipeline × Bool). IsBalanced 0 x.0) (env.done p.checked) _ _ k
        λ on.
          if_either (IsBalanced 0) (env.done q.checked) _ _ (tested-IsBalanced q k)
            λ still. admit-IsBalanced node (tested q) (tested-IsBalanced q k)

  pub processed-IsBalanced : (body : Bytes) → IsBalanced 0 (processed env allowed denied body)
  unfolding processed
  processed-IsBalanced body =
      let k =
        parse_into_keeps (IsBalanced 0) env.decoders (yield_node env allowed denied)
          yield_node-IsBalanced (lines body) new_pipeline 0
          (record { balance = omega arith; in_sink = refl }) in
      record { balance = k.balance; in_sink = k.in_sink }

  -- what holds of every body that is neither refused nor without a node holds of what `FilterNodes`
  -- returns
  pub filter_nodes_reached :
      (Q : List NodeResult × DropStats → Type 0) (req : FilterRequest)
      → allowed ≡ req.allowed_countries
      → denied ≡ req.denied_countries
      → ((body : Bytes)
          → body_for env req ≡ some body
          → is_too_long env body ≡ false
          → 0 < (processed env allowed denied body).stats.total
          → Q ((processed env allowed denied body).sink, (processed env allowed denied body).stats))
      → AllSome Q (filter_nodes env req)
  unfolding filter_nodes process_body
  filter_nodes_reached Q req a d h =
      if_either (AllSome Q) (is_empty req.allowed_countries) _ _ tt λ some_allowed.
        AllSome-bind_some Q (body_for env req) _ λ body is_body.
          subst
            (λ (al : CountrySet). AllSome Q (
              process_body env al req.denied_countries body >>= λ p.
              if p.stats.total == 0 then none else some (p.sink, p.stats)))
            a
            (subst
              (λ (de : CountrySet). AllSome Q (
                process_body env allowed de body >>= λ p.
                if p.stats.total == 0 then none else some (p.sink, p.stats)))
              d (of_body body is_body))
    where
      of_body :
          (body : Bytes)
          → body_for env req ≡ some body
          → AllSome Q (
              process_body env allowed denied body >>= λ p.
              if p.stats.total == 0 then none else some (p.sink, p.stats))
      of_body body is_body =
          let p = processed env allowed denied body in
          let after = λ (o : Option Pipeline).
            AllSome Q (o >>= λ p. if p.stats.total == 0 then none else some (p.sink, p.stats)) in
          if_either after (is_too_long env body) none _ tt λ short.
            if_either after (env.done p.checked) none (some p) tt λ live.
              if_either (AllSome Q) (p.stats.total == 0) none (some (p.sink, p.stats)) tt
                λ some_node. h body is_body short (ground (arith, some_node))

-- What the filtering of a source returns, if it is no error, counts some node, and the nodes
-- counted are the kept ones and those dropped, each for one reason; the returned nodes are as
-- many as the kept ones.
pub filter_nodes-IsBalanced :
    (env : Surroundings) (req : FilterRequest)
    → AllSome
        (λ (r : List NodeResult × DropStats).
          (0 < r.1.total) × (r.1.total ≡ accounted r.1) × (length r.0 ≡ r.1.valid))
        (filter_nodes env req)
filter_nodes-IsBalanced env req =
    filter_nodes_reached env req.allowed_countries req.denied_countries
      (λ (r : List NodeResult × DropStats).
        (0 < r.1.total) × (r.1.total ≡ accounted r.1) × (length r.0 ≡ r.1.valid))
      req refl refl
      λ body is_body short some_node.
        let b = processed-IsBalanced env req.allowed_countries req.denied_countries body in
        (some_node, omega (arith, b.balance), b.in_sink)
