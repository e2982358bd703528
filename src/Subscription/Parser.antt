-- ===== src/Subscription/Parser.antt =====
-- internal/subscription/subscription.go: a line as a node, and a body as nodes.
pub mod Ports
pub mod Nodes
pub mod Links
pub mod Tests
use sub_preprocessor.Base.{
  ℕ, zero, suc, ◌+◌, ◌-◌, ◌*◌, ◌/◌, ◌%◌, ◌^◌, ◌≤◌, ◌<◌, max, min, ◌≡◌, refl, sym, ap, ◌∙◌, ◌≢◌, ◌↔◌,
  ◌⊎◌, inl, inr, Bool, true, false, not, ◌&&◌, ◌||◌, Option, none, some, List, [], ◌∷◌, ◌++◌, map,
  arith, ◌>>=◌, ltb, leb, ◌==◌, if◌then◌else◌, leb→le, le→leb, ltb→lt, lt→ltb, ==_iff, tests,
  Bool-cases, Option-cases, AllSome, AllSome-bind, bind-eq-some, some-inj, Bytes, codes, beq,
  beq_iff, beq_refl, has_byte, cut, cut-append, cut_last, split, is_space, trim_left, trim_right,
  trim_space, starts_with, is_digit, is_upper, is_lower, lower_byte, lower_byte_idem, is_ascii,
  to_lower, length, get_elem?, take, drop, length-append, keep, any, every, All, All-append,
  All-map, Among,
}
use sub_preprocessor.Ioutil.{lines}
use sub_preprocessor.Subscription.Node.{
  Node, scheme_ss, scheme_ssr, scheme_mieru, scheme_vmess, scheme_hysteria2, scheme_hy2,
}
use sub_preprocessor.Subscription.Query.{cut_pair}
use sub_preprocessor.Subscription.Endpoint.{default_port, endpoint, Decoders}

-- the loop of `validScheme`, and its first byte
unfoldable pub is_scheme_byte : ℕ → Bool
is_scheme_byte c = is_lower c || is_upper c || is_digit c || c == b'+' || c == b'-' || c == b'.'

unfoldable pub valid_scheme : Bytes → Bool
unfolding is_scheme_byte every
valid_scheme [] = false
valid_scheme (c ∷ cs) = (is_lower c || is_upper c) && every is_scheme_byte cs

-- the line at its first "://": what stands before it and what stands behind it
unfoldable pub cut_sep : Bytes → Option (Bytes × Bytes)
cut_sep [] = none
cut_sep (c ∷ cs) =
    let rest = cut_sep cs in
    if starts_with (codes "://") (c ∷ cs)
    then some ([], drop 3 (c ∷ cs))
    else elim rest [ none ↦ none | some (x, y) ↦ some (c ∷ x, y) ]

-- the authority, and the rest from the '/', '?' or '#' that ends it
unfoldable pub cut_authority : Bytes → Bytes × Bytes
cut_authority [] = ([], [])
cut_authority (c ∷ cs) =
    let (authority, tail) = cut_authority cs in
    if c == b'/' || c == b'?' || c == b'#' then ([], c ∷ cs) else (c ∷ authority, tail)

abbrev pub name_or : Bytes → Bytes → Bytes
name_or server name = if beq name [] then server else name

-- the end of `parseNode`: the name, from the fragment of the line
unfoldable pub with_name : Bytes → Bytes → Bytes → Bytes → Bytes → Bytes → Node
unfolding cut trim_space beq
with_name line scheme_text scheme server port rest = elim (cut b'#' rest) [
  | none ↦ record {
    raw = line;
    scheme = scheme;
    name = server;
    server = server;
    port = port;
    fragment_idx = none;
  }
  | some (before, fragment) ↦ record {
    raw = line;
    scheme = scheme;
    name = name_or server (trim_space fragment);
    server = server;
    port = port;
    fragment_idx = some (length scheme_text + 3 + length before);
  }
]

-- `parseNode` on a line of a scheme that the generic path reads
unfoldable pub parse_generic : Decoders → Bytes → Bytes → Bytes → Bytes → Option Node
unfolding endpoint default_port with_name cut_authority beq
parse_generic decoders line scheme_text scheme rest =
    let (authority, tail) = cut_authority rest in
    endpoint decoders scheme authority tail >>= λ e.
    if beq e.0 []
    then none
    else (default_port scheme e.1 >>= λ port.
        some (with_name line scheme_text scheme e.0 port rest))

-- `parseNode` behind its search for "://". A valid scheme is ASCII, so it is lowered byte by byte.
unfoldable pub parse_at : Decoders → Bytes → Bytes → Bytes → Option Node
unfolding parse_generic valid_scheme lower_byte beq
parse_at decoders line text rest =
    let scheme = map lower_byte text in
    let generic = parse_generic decoders line text scheme rest in
    if not (valid_scheme text)
    then none
    else if beq scheme scheme_vmess
    then decoders.parse_vmess line (length text)
    else if beq scheme scheme_ssr
    then decoders.parse_ssr line rest
    else generic

-- `parseNode`
unfoldable pub parse_node : Decoders → Bytes → Option Node
unfolding parse_at cut_sep
parse_node decoders line = cut_sep line >>= λ p. parse_at decoders line p.0 p.1

-- the loop of `Parse`: the nodes yielded, up to the first that `go_on` refuses, and how many lines
-- with "://" were refused
unfoldable pub parse_lines : Decoders → (Node → Bool) → List Bytes → List Node × ℕ
unfolding parse_node cut_sep
parse_lines decoders go_on [] = ([], 0)
parse_lines decoders go_on (line ∷ ls) =
    let (nodes, rejected) = parse_lines decoders go_on ls in
    elim (cut_sep line) [
      | none ↦ (nodes, rejected)
      | some p ↦ elim (parse_node decoders line) [
        | none ↦ (nodes, rejected + 1)
        | some node ↦ if go_on node then (node ∷ nodes, rejected) else (node ∷ [], 0)
      ]
    ]

-- `Parse`
unfoldable pub parse : Decoders → (Node → Bool) → Bytes → List Node × ℕ
unfolding parse_lines lines
parse decoders go_on body = parse_lines decoders go_on (lines body)
