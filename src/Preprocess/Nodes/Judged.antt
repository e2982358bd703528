-- ===== src/Preprocess/Nodes/Judged.antt =====
-- internal/preprocess/processor.go: where the address of a kept node comes from, and what judged it.
use sub_preprocessor.Base.{
  some, ℕ, ◌+◌, ◌≡◌, refl, sym, ap, ◌∙◌, ◌⊎◌, inl, inr, Bool, true, false, not, List, [], ◌∷◌, ◌==◌,
  Bool-cases, Option-cases, if_either, AllSome, Bytes, beq, beq_iff, length, keep, All, All-append,
  Among,
}
use mathlib.Core.Path.{subst}
use sub_preprocessor.Base.Dict.{find, put, find-put}
use sub_preprocessor.Ioutil.{lines}
use sub_preprocessor.Netip.{Addr}
use sub_preprocessor.Filter.{CountrySet}
use sub_preprocessor.Subscription.Node.{Node}
use sub_preprocessor.Preprocess.{NodeResult, FilterRequest, DropStats}
use sub_preprocessor.Preprocess.Filters.{run_filters}
use sub_preprocessor.Preprocess.Filters.Admitted.{passes_all, run_filters-keep}
use sub_preprocessor.Preprocess.Nodes.{
  body_for, Pipeline, Surroundings, Literal, no_literal, not_ipv4, ipv4, resolve_as, resolve_node,
  literal_of, emit, judge, admit, tested, process_node, yield_node, new_pipeline, processed,
  filter_nodes,
}
use sub_preprocessor.Preprocess.Nodes.Accounts.{parse_into_reads, filter_nodes_reached}
use sub_preprocessor.Subscription.Parser.{parse_node}

kept_first :
    (f : Addr → Bool) (ips : List Addr) {ip : Addr} {rest : List Addr}
    → keep f ips ≡ ip ∷ rest
    → Among ip ips × (f ip ≡ true)
unfolding keep
kept_first f [] e = absurd (cc)
kept_first f (x ∷ ips) {ip} {rest} e = elim (Bool-cases (f x)) [
  | inl y ↦ let same : x ≡ ip = ap (first x) (rw y at e) in (inl (sym same), ap f (sym same) ∙ y)
  | inr n ↦ let (m, t) = kept_first f ips (rw n at e) in (inr m, t)
]
  where
    first : Addr → List Addr → Addr
    first d [] = d
    first d (a ∷ l) = a

module _ (env : Surroundings) where
  -- an address of a server: the literal that it is, or an answer of the resolver for it
  abbrev pub IsAddress : Bytes → Addr → Type 0
  IsAddress server ip =
      (literal_of env server ≡ ipv4 ip) ⊎ ((k : ℕ) × Among ip (env.resolve k server))

  -- the node of a line of the body, with an address of its own server that all filters passed, at a
  -- time when its server was not blocked
  pub record IsJudged (body : Bytes) (allowed denied : CountrySet) (r : NodeResult) : Type 0 where
    pub line : Bytes
    pub node : Node
    pub at : ℕ
    pub is_line : Among line (lines body)
    pub is_parsed : parse_node env.decoders line ≡ some node
    pub is_raw : r.raw ≡ node.raw
    pub is_address : IsAddress node.server r.ip
    pub is_free : env.blocked at node.server ≡ false
    pub is_admitted : passes_all (env.sight allowed denied at) env.filters r.ip ≡ true

  -- the map of the request holds answers of the resolver
  abbrev IsMemo : List (Bytes × List Addr) → Type 0
  IsMemo m =
      (server : Bytes)
      → AllSome (λ (ips : List Addr). (k : ℕ) × (ips ≡ env.resolve k server)) (find beq server m)

  put-IsMemo :
      (server : Bytes) (k : ℕ) (m : List (Bytes × List Addr))
      → IsMemo m
      → IsMemo (put beq server (env.resolve k server) m)
  put-IsMemo server k m h other =
      let e = find-put beq beq_iff server other (env.resolve k server) m in
      let P = AllSome (λ (ips : List Addr). (k : ℕ) × (ips ≡ env.resolve k other)) in
      subst P (sym e) (elim (Bool-cases (beq other server)) [
        | inl y ↦
            let same : server ≡ other = sym ((beq_iff other server).0 y) in
            rw y (k, ap (λ s. env.resolve k s) same)
        | inr n ↦ rw n (h other)
      ])

  -- the answer of a lookup is a list of addresses of the server
  abbrev IsAnswer : Bytes → List Addr × Bool → Type 0
  IsAnswer server (ips, supported) = (ip : Addr) → Among ip ips → IsAddress server ip

  record IsSound (body : Bytes) (allowed denied : CountrySet) (p : Pipeline) : Type 0 where
    memo : IsMemo p.resolved
    judged : All (IsJudged body allowed denied) p.sink

  -- a line of the body is read as the node
  abbrev IsRead : Bytes → Node → Type 0
  IsRead body node =
      (line : Bytes) × Among line (lines body) × (parse_node env.decoders line ≡ some node)

  module _ (body : Bytes) (allowed denied : CountrySet) where
    resolve_as-IsSound :
        (l : Literal) (server : Bytes) (p : Pipeline)
        → literal_of env server ≡ l
        → IsSound body allowed denied p
        → IsSound body allowed denied (resolve_as env l server p).0
          × IsAnswer server (resolve_as env l server p).1
          × ((resolve_as env l server p).0.checked ≡ p.checked)
    resolve_as-IsSound not_ipv4 server p e h = (h, (λ ip m. absurd m), refl)
    resolve_as-IsSound (ipv4 addr) server p e h = (h, one, refl)
      where
        one : (ip : Addr) → Among ip (addr ∷ []) → IsAddress server ip
        one ip (inl same) = inl (e ∙ ap (λ a. ipv4 a) (sym same))
        one ip (inr m) = absurd m
    resolve_as-IsSound no_literal server p e h = (
      record { memo = put-IsMemo server p.checked p.resolved h.memo; judged = h.judged },
      (λ ip m. inr (p.checked, m)),
      refl,
    )

    resolve_node-IsSound :
        (server : Bytes) (p : Pipeline)
        → IsSound body allowed denied p
        → IsSound body allowed denied (resolve_node env server p).0
          × IsAnswer server (resolve_node env server p).1
          × ((resolve_node env server p).0.checked ≡ p.checked)
    unfolding resolve_node
    resolve_node-IsSound server p h = elim (Option-cases (find beq server p.resolved)) [
      | inr (ips, e) ↦
          let (k, same) = rw e at (h.memo server) in
          rw (e, resolve_node)
            (h, (λ ip m. inr (k, subst (λ (l : List Addr). Among ip l) same m)), refl)
      | inl e ↦ rw (e, resolve_node) (resolve_as-IsSound (literal_of env server) server p refl h)
    ]

    emit-IsSound :
        (node : Node) (ips : List Addr) (r : List Addr × DropStats) (p : Pipeline)
        → IsSound body allowed denied p
        → IsRead body node
        → IsAnswer node.server (ips, true)
        → env.blocked p.checked node.server ≡ false
        → r.0 ≡ keep (passes_all (env.sight allowed denied p.checked) env.filters) ips
        → IsSound body allowed denied (emit node r p)
    emit-IsSound node ips ([], st) p h read a free e = record { memo = h.memo; judged = h.judged }
    emit-IsSound node ips (ip ∷ rest, st) p h read a free e =
        let (m, t) =
          kept_first (passes_all (env.sight allowed denied p.checked) env.filters) ips (sym e) in
        record {
          memo = h.memo;
          judged =
              All-append (IsJudged body allowed denied) p.sink
                (record { raw = node.raw; ip = ip } ∷ []) h.judged
                (
                  (record {
                    line = read.0;
                    node = node;
                    is_line = read.1;
                    is_parsed = read.2;
                    at = p.checked;
                    is_raw = refl;
                    is_address = a ip m;
                    is_free = free;
                    is_admitted = t;
                  }),
                  tt,
                );
        }

    judge-IsSound :
        (node : Node) (answer : List Addr × Bool) (p : Pipeline)
        → IsSound body allowed denied p
        → IsRead body node
        → IsAnswer node.server answer
        → env.blocked p.checked node.server ≡ false
        → IsSound body allowed denied (judge env allowed denied node answer p)
    unfolding judge
    judge-IsSound node (ips, supported) p h read a free =
        let s = env.sight allowed denied p.checked in
        if_either (IsSound body allowed denied) (not supported) _ _
          (record { memo = h.memo; judged = h.judged })
          λ can.
            if_either (IsSound body allowed denied) (length ips == 0) _ _
              (record { memo = h.memo; judged = h.judged })
              λ some_ip.
                emit-IsSound node ips (run_filters s env.filters ips p.stats) p h read a free
                  (run_filters-keep s env.filters ips p.stats)

    admit-IsSound :
        (node : Node) (p : Pipeline)
        → IsRead body node
        → IsSound body allowed denied p
        → IsSound body allowed denied (admit env allowed denied node p)
    unfolding admit
    admit-IsSound node p read h =
        let counted : Pipeline = record p {
          stats = record p.stats { total = p.stats.total + 1 };
        } in
        let (k, a, at) =
          resolve_node-IsSound node.server counted (record { memo = h.memo; judged = h.judged }) in
        if_either (IsSound body allowed denied) (env.blocked p.checked node.server) _ _
          (record { memo = h.memo; judged = h.judged })
          λ free.
            judge-IsSound node (resolve_node env node.server counted).1
              (resolve_node env node.server counted).0 k read a
              (ap (λ t. env.blocked t node.server) at ∙ free)

    yield_node-IsSound :
        (node : Node) (p : Pipeline)
        → IsRead body node
        → IsSound body allowed denied p
        → IsSound body allowed denied (yield_node env allowed denied node p).0
    unfolding yield_node process_node
    yield_node-IsSound node p read h =
        if_either (λ (x : Pipeline × Bool). IsSound body allowed denied x.0) (env.done p.checked) _
          _ (record { memo = h.memo; judged = h.judged })
          λ on.
            if_either (IsSound body allowed denied) (env.done (tested p).checked) _ _
              (record { memo = h.memo; judged = h.judged })
              λ still.
                admit-IsSound node (tested (tested p)) read
                  (record { memo = h.memo; judged = h.judged })

    processed-IsJudged : All (IsJudged body allowed denied) (processed env allowed denied body).sink
    unfolding processed find
    processed-IsJudged =
        (parse_into_reads (IsSound body allowed denied) env.decoders (yield_node env allowed denied)
          (lines body) (λ line node p m e. yield_node-IsSound node p (line, m, e)) new_pipeline 0
          (record { memo = λ server. tt; judged = tt })).judged

  -- Each node that the filtering of a source returns is the node that the parser reads from a
  -- line of the body of the request, with its raw text; its address is the literal that the
  -- server of this node is or an answer of the resolver for this server, every filter of the
  -- chain passed it for the country policy of the request, and the blocklist did not hold the
  -- server at that time.
  pub filter_nodes-IsJudged :
      (req : FilterRequest)
      → AllSome
          (λ (r : List NodeResult × DropStats).
            (body : Bytes) × (body_for env req ≡ some body)
            × All (IsJudged body req.allowed_countries req.denied_countries) r.0)
          (filter_nodes env req)
  filter_nodes-IsJudged req =
      filter_nodes_reached env req.allowed_countries req.denied_countries
        (λ (r : List NodeResult × DropStats).
          (body : Bytes) × (body_for env req ≡ some body)
          × All (IsJudged body req.allowed_countries req.denied_countries) r.0)
        req refl refl
        λ body is_body short some_node.
          (body, is_body, processed-IsJudged body req.allowed_countries req.denied_countries)
