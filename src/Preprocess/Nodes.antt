-- ===== src/Preprocess/Nodes.antt =====
-- internal/preprocess/processor.go: `FilterNodes` with `processBody`, `processNode` and `resolveNode`.
-- What DNS, the blocklist, the databases and the context answer is an argument, told by the count of
-- the tests of the context made so far, since it may change while a body is processed.
pub mod Accounts
pub mod Breaks
pub mod Limits
pub mod Judged
use sub_preprocessor.Base.{
  ℕ, zero, suc, ◌+◌, ◌-◌, ◌*◌, ◌/◌, ◌%◌, ◌^◌, ◌≤◌, ◌<◌, max, min, ◌≡◌, refl, sym, ap, ◌∙◌, ◌≢◌, ◌↔◌,
  ◌⊎◌, inl, inr, Bool, true, false, not, ◌&&◌, ◌||◌, Option, none, some, List, [], ◌∷◌, ◌++◌, map,
  arith, ◌>>=◌, ltb, leb, ◌==◌, if◌then◌else◌, leb→le, le→leb, ltb→lt, lt→ltb, ==_iff, tests,
  Bool-cases, Option-cases, if_either, if_passed, AllSome, AllSome-bind, bind-eq-some, some-inj,
  AllSome-all, AllSome-map, Bytes, codes, beq, beq_iff, beq_refl, has_byte, cut, cut-append,
  cut_last, split, is_space, trim_left, trim_right, trim_space, starts_with, is_digit, is_upper,
  is_lower, lower_byte, lower_byte_idem, is_ascii, to_lower, length, get_elem?, take, drop,
  length-append, keep, any, every, All, All-append, All-map, Among, length-Among,
}
use sub_preprocessor.Base.Dict.{find, put}
use sub_preprocessor.Ioutil.{lines}
use sub_preprocessor.Netip.{Addr, v4, v6, unmap}
use sub_preprocessor.Filter.{CountrySet, is_empty}
use sub_preprocessor.Subscription.Node.{Node}
use sub_preprocessor.Subscription.Endpoint.{Decoders}
use sub_preprocessor.Subscription.Parser.{parse_node, cut_sep}
use sub_preprocessor.Preprocess.{NodeResult, FilterRequest, DropStats}
use sub_preprocessor.Preprocess.Filters.{IpFilter, Sight, run_filters}

-- `subscription.Parse` with a yield that has a state of its own
module _ {S : Type 0} (decoders : Decoders) (yield : Node → S → S × Bool) where
  unfoldable pub parse_into : List Bytes → S → ℕ → S × ℕ
  unfolding parse_node cut_sep
  parse_into [] s rejected = (s, rejected)
  parse_into (line ∷ ls) s rejected = elim (cut_sep line) [
    | none ↦ parse_into ls s rejected
    | some p ↦ elim (parse_node decoders line) [
      | none ↦ parse_into ls s (rejected + 1)
      | some node ↦
          let (s', go_on) = yield node s in
          let rest = parse_into ls s' rejected in if go_on then rest else (s', rejected)
    ]
  ]

-- the part of `PipelineContext` that changes while a body is processed, with the nodes of its sink
pub record Pipeline : Type 0 where
  pub sink : List NodeResult
  pub resolved : List (Bytes × List Addr)
  pub stats : DropStats
  -- how often the context was tested
  pub checked : ℕ

-- what the world answers to a request
pub record Surroundings : Type 0 where
  pub decoders : Decoders
  pub normalize : Bytes → Bytes
  -- the body at an address with a hardware id, if it can be loaded
  pub load_subscription : Bytes → Bytes → Option Bytes
  -- `netip.ParseAddr`
  pub parse_addr : Bytes → Option Addr
  pub done : ℕ → Bool
  -- whether a host is blocked, never if there is no blocklist
  pub blocked : ℕ → Bytes → Bool
  -- the addresses of a host, none on an error
  pub resolve : ℕ → Bytes → List Addr
  pub sight : CountrySet → CountrySet → ℕ → Sight
  pub filters : List IpFilter

-- the loop of `ipLiteralShape`
unfoldable pub dotted : Bool → Bytes → Bool
dotted dot [] = dot
dotted dot (c ∷ cs) =
    let go_dot = dotted true cs in
    let go = dotted dot cs in if c == b'.' then go_dot else if not (is_digit c) then false else go

-- `ipLiteralShape`
unfoldable pub ip_literal_shape : Bytes → Bool
unfolding dotted has_byte
ip_literal_shape server = if has_byte b':' server then true else dotted false server

-- what `resolveNode` reads out of a literal: no literal, an IPv4 address, or another
pub data Literal : Type 0 where
  no_literal not_ipv4 : Literal
  ipv4 : Addr → Literal

abbrev pub family_of : Addr → Literal
family_of (v4 n) = ipv4 (v4 n)
family_of (v6 n) = not_ipv4

-- the end of `processNode`, on what the filters left
abbrev pub emit : Node → List Addr × DropStats → Pipeline → Pipeline
emit node ([], st) p = record p { stats = st }
emit node (ip ∷ ips, st) p = record p {
  sink = p.sink ++ record { raw = node.raw; ip = ip } ∷ [];
  stats = record st { valid = st.valid + 1 };
}

-- one test of the context
abbrev pub tested : Pipeline → Pipeline
tested p = record p { checked = p.checked + 1 }

abbrev pub no_drops : DropStats
no_drops = record {
  total = 0;
  valid = 0;
  dns_drop = 0;
  geo_drop = 0;
  asn_drop = 0;
  cidr_drop = 0;
  geo_block_drop = 0;
  ipv6_drop = 0;
  unsupported = 0;
}

abbrev pub new_pipeline : Pipeline
new_pipeline = record { sink = []; resolved = []; stats = no_drops; checked = 0 }

abbrev pub max_subscription_nodes : ℕ
max_subscription_nodes = 50000

-- `bytes.Count(body, "\n")`
unfoldable pub count_breaks : Bytes → ℕ
count_breaks [] = 0
count_breaks (c ∷ cs) = let rest = count_breaks cs in if c == b'\n' then rest + 1 else rest

module _ (env : Surroundings) where
  unfoldable pub literal_of : Bytes → Literal
  unfolding ip_literal_shape unmap
  literal_of server =
      if ip_literal_shape server
      then (elim (env.parse_addr server) [ none ↦ no_literal | some addr ↦ family_of (unmap addr) ])
      else no_literal

  -- the lookup at the end of `resolveNode`
  abbrev pub look_up : Bytes → Pipeline → Pipeline × (List Addr × Bool)
  look_up server p =
      let ips = env.resolve p.checked server in
      (record p { resolved = put beq server ips p.resolved }, (ips, true))

  -- `resolveNode` of a server that is not in the map yet
  abbrev pub resolve_as : Literal → Bytes → Pipeline → Pipeline × (List Addr × Bool)
  resolve_as not_ipv4 server p = (p, ([], false))
  resolve_as (ipv4 addr) server p = (p, (addr ∷ [], true))
  resolve_as no_literal server p = look_up server p

  -- `resolveNode`
  unfoldable pub resolve_node : Bytes → Pipeline → Pipeline × (List Addr × Bool)
  unfolding find put literal_of
  resolve_node server p = elim (find beq server p.resolved) [
    | some cached ↦ (p, (cached, true))
    | none ↦ resolve_as (literal_of server) server p
  ]

  -- `countNodes`
  unfoldable pub count_nodes : Bytes → ℕ → ℕ
  unfolding parse_into lines
  count_nodes body limit =
      (parse_into env.decoders (λ node count. (count + 1, leb (count + 1) limit)) (lines body) 0
        0).0

  -- whether `processBody` refuses a body before any lookup
  unfoldable pub is_too_long : Bytes → Bool
  unfolding count_breaks count_nodes
  is_too_long body =
      ltb max_subscription_nodes (count_breaks body + 1)
      && ltb max_subscription_nodes (count_nodes body max_subscription_nodes)

  module _ (allowed denied : CountrySet) where
    -- `processNode` from the addresses on
    unfoldable pub judge : Node → List Addr × Bool → Pipeline → Pipeline
    unfolding run_filters
    judge node (ips, supported) p =
        let st = p.stats in
        let dropped = record p { stats = record st { dns_drop = st.dns_drop + 1 } } in
        let refused = record p { stats = record st { ipv6_drop = st.ipv6_drop + 1 } } in
        if not supported
        then refused
        else if length ips == 0
        then dropped
        else emit node (run_filters (env.sight allowed denied p.checked) env.filters ips st) p

    -- `processNode` from the blocklist on
    unfoldable pub admit : Node → Pipeline → Pipeline
    unfolding judge resolve_node
    admit node p =
        let st = record p.stats { total = p.stats.total + 1 } in
        let counted = record p { stats = st } in
        let (resolved, answer) = resolve_node node.server counted in
        if env.blocked p.checked node.server
        then record p { stats = record st { geo_block_drop = st.geo_block_drop + 1 } }
        else judge node answer resolved

    -- `processNode`
    unfoldable pub process_node : Node → Pipeline → Pipeline
    unfolding admit
    process_node node p = if env.done p.checked then tested p else admit node (tested p)

    -- the yield of `processBody`
    unfoldable pub yield_node : Node → Pipeline → Pipeline × Bool
    unfolding process_node
    yield_node node p =
        if env.done p.checked then (tested p, false) else (process_node node (tested p), true)

    -- the pipeline after the nodes of a body
    unfoldable pub processed : Bytes → Pipeline
    unfolding parse_into yield_node lines
    processed body =
        let (p, rejected) = parse_into env.decoders yield_node (lines body) new_pipeline 0 in
        record p { stats = record p.stats { unsupported = p.stats.unsupported + rejected } }

    -- `processBody`; `none` is one of its errors
    unfoldable pub process_body : Bytes → Option Pipeline
    unfolding is_too_long processed
    process_body body =
        let p = processed body in
        if is_too_long body then none else if env.done p.checked then none else some p

  -- the body of a request: the one that it holds, or the one that is loaded
  unfoldable pub body_for : FilterRequest → Option Bytes
  unfolding beq
  body_for req =
      if not (beq req.request_body [])
      then some (env.normalize req.request_body)
      else env.load_subscription req.subscription_url req.request_hwid

  -- `FilterNodes`; `none` is one of its errors
  unfoldable pub filter_nodes : FilterRequest → Option (List NodeResult × DropStats)
  unfolding body_for process_body is_empty
  filter_nodes req =
      let answer = body_for req >>= λ body.
      process_body req.allowed_countries req.denied_countries body >>= λ p.
      if p.stats.total == 0 then none else some (p.sink, p.stats) in
      if is_empty req.allowed_countries then none else answer
