-- ===== src/Subscription/Parser/Nodes.antt =====
-- internal/subscription/subscription.go: what every parsed node has, and what a body counts.
use sub_preprocessor.Base.{
  AllSome-all, AllSome-map, ◌+◌, ◌≡◌, refl, ◌≢◌, ◌⊎◌, inl, inr, Bool, true, false, none, some, List,
  [], ◌∷◌, map, arith, Bool-cases, Option-cases, AllSome, AllSome-bind, Bytes, beq, beq_iff, cut,
  trim_space, lower_byte, length, keep,
}
use sub_preprocessor.Subscription.Node.{Node, scheme_vmess, scheme_ssr}
use sub_preprocessor.Subscription.Parser.{
  parse_at, cut_sep, valid_scheme, parse_node, parse_generic, parse_lines, with_name, name_or,
  cut_authority,
}
use sub_preprocessor.Subscription.Endpoint.{Decoders}
use sub_preprocessor.Subscription.Endpoint.{endpoint, default_port}

-- a node with an endpoint and a name, of this line
pub record IsNode (line : Bytes) (node : Node) : Type 0 where
  pub raw : node.raw ≡ line
  pub server : node.server ≢ []
  pub port : node.port ≢ []
  pub name : node.name ≢ []

with_name-IsNode :
    (line text scheme server port rest : Bytes)
    → server ≢ []
    → port ≢ []
    → IsNode line (with_name line text scheme server port rest)
unfolding with_name
with_name-IsNode line text scheme server port rest s p = elim (Option-cases (cut b'#' rest)) [
  | inl n ↦ rw (n, with_name) (record { raw = refl; server = s; port = p; name = s })
  | inr (x, e) ↦
      rw (e, with_name) (record { raw = refl; server = s; port = p; name = named (trim_space x.1) })
]
  where
    named : (name : Bytes) → name_or server name ≢ []
    named [] = s
    named (c ∷ cs) = λ e. ground (arith, e)

default_port-some : (scheme port p : Bytes) → default_port scheme port ≡ some p → p ≢ []
unfolding default_port
default_port-some scheme port p e h = ground (arith, e, h, beq_iff port [])

-- whatever the line, a node that the generic path returns of it has the line, and no empty field.
pub parse_generic-IsNode :
    (decoders : Decoders) (line text scheme rest : Bytes)
    → AllSome (IsNode line) (parse_generic decoders line text scheme rest)
unfolding parse_generic
parse_generic-IsNode decoders line text scheme rest =
    AllSome-bind (IsNode line)
      (endpoint decoders scheme (cut_authority rest).0 (cut_authority rest).1) _
      λ e. elim (Bool-cases (beq e.0 [])) [
        | inl y ↦ rw y tt
        | inr n ↦ elim (Option-cases (default_port scheme e.1)) [
          | inl q ↦ rw (n, q) tt
          | inr (port, q) ↦
              rw (n, q)
                (with_name-IsNode line text scheme e.0 port rest
                  (λ h. ground (arith, n, beq_iff e.0 [], h)) (default_port-some scheme e.1 port q))
        ]
      ]

-- the scheme, as it is written, is read by a decoder of its own
abbrev pub IsDecoded : Bytes → Type 0
IsDecoded text = (map lower_byte text ≡ scheme_vmess) ⊎ (map lower_byte text ≡ scheme_ssr)

parse_at-IsNode :
    (decoders : Decoders) (line text rest : Bytes)
    → AllSome (λ node. IsNode line node ⊎ IsDecoded text) (parse_at decoders line text rest)
unfolding parse_at
parse_at-IsNode decoders line text rest = elim (Bool-cases (valid_scheme text)) [
  | inr n ↦ rw n tt
  | inl v ↦ elim (Bool-cases (beq (map lower_byte text) scheme_vmess)) [
    | inl y ↦
        let e = (beq_iff (map lower_byte text) scheme_vmess).0 y in
        rw (v, y) (AllSome-all _ (λ _. inr (inl e)) (decoders.parse_vmess line (length text)))
    | inr n ↦ elim (Bool-cases (beq (map lower_byte text) scheme_ssr)) [
      | inl y ↦
          let e = (beq_iff (map lower_byte text) scheme_ssr).0 y in
          rw (v, n, y) (AllSome-all _ (λ _. inr (inr e)) (decoders.parse_ssr line rest))
      | inr n' ↦
          rw (v, n, n')
            (AllSome-map _ _ (λ _ h. inl h)
              (parse_generic decoders line text (map lower_byte text) rest)
              (parse_generic-IsNode decoders line text (map lower_byte text) rest))
    ]
  ]
]

-- A node that the parser returns of a line holds the line and has a server, a port and a name,
-- unless the line is left to the decoder of vmess or ssr.
pub parse_node-IsNode :
    (decoders : Decoders) (line : Bytes)
    → AllSome
        (λ node.
          IsNode line node
          ⊎ ((text : Bytes) × (rest : Bytes) × (cut_sep line ≡ some (text, rest)) × IsDecoded text))
        (parse_node decoders line)
unfolding parse_node
parse_node-IsNode decoders line = elim (Option-cases (cut_sep line)) [
  | inl n ↦ rw (n, parse_node) tt
  | inr (p, e) ↦
      rw (parse_node, e)
        (AllSome-map _ _ (λ node. elim [ inl h ↦ inl h | inr d ↦ inr (p.0, p.1, refl, d) ])
          (parse_at decoders line p.0 p.1) (parse_at-IsNode decoders line p.0 p.1))
]

-- the line contains "://"
abbrev pub is_uri : Bytes → Bool
is_uri line = elim (cut_sep line) [ none ↦ false | some p ↦ true ]

-- With a yield that never stops it, each line that contains "://" is a yielded node or counted
-- as refused.
pub parse_lines-length :
    (decoders : Decoders) (ls : List Bytes)
    → let r = parse_lines decoders (λ _. true) ls in length r.0 + r.1 ≡ length (keep is_uri ls)
unfolding parse_lines keep
parse_lines-length decoders [] = refl
parse_lines-length decoders (line ∷ ls) =
    let ih = parse_lines-length decoders ls in
    elim (Option-cases (cut_sep line)) [
      | inl n ↦ let u : is_uri line ≡ false = rw (is_uri, n) in rw (n, u, parse_lines, keep) ih
      | inr (p, e) ↦
          let u : is_uri line ≡ true = rw (is_uri, e) in
          elim (Option-cases (parse_node decoders line)) [
            | inl n ↦ rw (e, n, u, parse_lines, keep) (omega (arith, ih))
            | inr (node, m) ↦ rw (e, m, u, parse_lines, keep) (omega (arith, ih))
          ]
    ]
