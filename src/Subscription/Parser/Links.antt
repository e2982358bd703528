-- ===== src/Subscription/Parser/Links.antt =====
-- internal/subscription/subscription.go: a link that is written with its parts is parsed into them.
use sub_preprocessor.Base.{
  ℕ, ◌+◌, ◌≡◌, refl, ap, ◌∙◌, ◌≢◌, inl, inr, Bool, true, false, ◌||◌, none, some, [], ◌∷◌, ◌++◌,
  map, arith, ◌>>=◌, ◌==◌, Bool-cases, Bytes, codes, beq, beq_iff, has_byte, cut, cut_last,
  trim_space, starts_with, lower_byte, length, any, every,
}
use sub_preprocessor.Subscription.Node.{Node, scheme_vmess, scheme_ssr, scheme_ss, scheme_mieru}
use sub_preprocessor.Subscription.Parser.{
  cut_sep, is_scheme_byte, valid_scheme, parse_at, parse_node, parse_generic, with_name, name_or,
  cut_authority,
}
use sub_preprocessor.Subscription.Endpoint.{Decoders}
use sub_preprocessor.Subscription.Endpoint.{
  endpoint, default_port, host_port, split_host_port, after_userinfo, is_web,
}

-- The parts of a link "scheme://user@server:port#name".
pub record Link : Type 0 where
  pub scheme : Bytes
  pub user : Bytes
  pub server : Bytes
  pub port : Bytes
  pub fragment : Bytes

abbrev pub ends_authority : ℕ → Bool
ends_authority c = c == b'/' || c == b'?' || c == b'#'

abbrev pub authority_of : Link → Bytes
authority_of l = l.user ++ b'@' ∷ (l.server ++ b':' ∷ l.port)

abbrev pub link_text : Link → Bytes
link_text l = l.scheme ++ codes "://" ++ (authority_of l ++ b'#' ∷ l.fragment)

pub record IsLink (l : Link) : Type 0 where
  pub scheme : valid_scheme l.scheme ≡ true
  pub lower : map lower_byte l.scheme ≡ l.scheme
  -- no scheme with a decoder of its own
  pub generic :
      any (beq l.scheme) (scheme_vmess ∷ scheme_ssr ∷ scheme_ss ∷ scheme_mieru ∷ []) ≡ false
  pub plain : any ends_authority (authority_of l) ≡ false
  pub server : has_byte b'@' (l.server ++ b':' ∷ l.port) ≡ false
  pub host : has_byte b':' l.server ≡ false
  pub named : (starts_with (codes "[") l.server ≡ false) × (l.server ≢ [])
  pub port : (has_byte b':' l.port ≡ false) × (l.port ≢ [])

no_colon : (c : ℕ) → is_scheme_byte c ≡ true → (b':' == c) ≡ false
unfolding is_scheme_byte
no_colon c h = ground (arith, h)

cut_sep-append :
    (s t : Bytes) → every is_scheme_byte s ≡ true → cut_sep (s ++ codes "://" ++ t) ≡ some (s, t)
unfolding cut_sep every starts_with
cut_sep-append [] t h = refl
cut_sep-append (c ∷ s) t h =
    let both : (is_scheme_byte c ≡ true) × (every is_scheme_byte s ≡ true) = ground (arith, h) in
    let n = no_colon c both.0 in let ih = cut_sep-append s t both.1 in rw (n, ih)

cut_authority-append :
    (a t : Bytes) → any ends_authority a ≡ false → cut_authority (a ++ b'#' ∷ t) ≡ (a, b'#' ∷ t)
unfolding cut_authority any
cut_authority-append [] t h = refl
cut_authority-append (c ∷ a) t h = let ih = cut_authority-append a t in ground (arith, ih, h)

cut-plain : (a t : Bytes) → any ends_authority a ≡ false → cut b'#' (a ++ b'#' ∷ t) ≡ some (a, t)
unfolding cut any
cut-plain [] t h = ground arith
cut-plain (c ∷ a) t h = let ih = cut-plain a t in ground (arith, ih, h)

cut_last-none : (b : ℕ) (t : Bytes) → has_byte b t ≡ false → cut_last b t ≡ none
unfolding cut_last has_byte
cut_last-none b [] h = refl
cut_last-none b (c ∷ t) h = let ih = cut_last-none b t in ground (arith, ih, h)

cut_last-append :
    (b : ℕ) (s t : Bytes) → has_byte b t ≡ false → cut_last b (s ++ b ∷ t) ≡ some (s, t)
unfolding cut_last
cut_last-append b [] t h = let n = cut_last-none b t h in ground (arith, n)
cut_last-append b (c ∷ s) t h = let ih = cut_last-append b s t h in ground (arith, ih)

host_port-append :
    (server port : Bytes)
    → has_byte b':' server ≡ false
    → (starts_with (codes "[") server ≡ false) × (server ≢ [])
    → has_byte b':' port ≡ false
    → host_port (server ++ b':' ∷ port) ≡ (server, port)
unfolding host_port starts_with
host_port-append [] port h n p = ground (arith, n.1)
host_port-append (c ∷ server) port h n p =
    let l = cut_last-append b':' (c ∷ server) port p in ground (arith, l, h, n.0)

split_host_port-authority :
    (l : Link) → IsLink l → split_host_port (authority_of l) ≡ (l.server, l.port)
unfolding split_host_port
split_host_port-authority l w =
    let c = cut_last-append b'@' l.user (l.server ++ b':' ∷ l.port) w.server in
    let u : after_userinfo (authority_of l) ≡ l.server ++ b':' ∷ l.port = rw (after_userinfo, c) in
    ap host_port u ∙ host_port-append l.server l.port w.host w.named w.port.0

-- the node of a link
abbrev pub node_of : Link → Node
node_of l = record {
  raw = link_text l;
  scheme = l.scheme;
  name = name_or l.server (trim_space l.fragment);
  server = l.server;
  port = l.port;
  fragment_idx = some (length l.scheme + 3 + length (authority_of l));
}

generic_schemes :
    (l : Link)
    → IsLink l
    → (beq l.scheme scheme_vmess ≡ false)
      × (beq l.scheme scheme_ssr ≡ false)
      × (beq l.scheme scheme_ss ≡ false)
      × (beq l.scheme scheme_mieru ≡ false)
unfolding any
generic_schemes l w = ground (arith, w.generic)

beq-filled : (s : Bytes) → s ≢ [] → beq s [] ≡ false
beq-filled s h = ground (arith, beq_iff s [], h)

endpoint-link :
    (decoders : Decoders) (l : Link) (tail : Bytes)
    → IsLink l
    → endpoint decoders l.scheme (authority_of l) tail ≡ some (l.server, l.port)
unfolding endpoint
endpoint-link decoders l tail w =
    let g = generic_schemes l w in
    let p = beq-filled l.port w.port.1 in
    elim (Bool-cases (is_web l.scheme)) [
      | inl y ↦ rw (endpoint, split_host_port-authority l w, g.2, g.3, y, p)
      | inr n ↦ rw (endpoint, split_host_port-authority l w, g.2, g.3, n)
    ]

default_port-filled : (scheme port : Bytes) → port ≢ [] → default_port scheme port ≡ some port
unfolding default_port
default_port-filled scheme port h = rw (beq-filled port h)

parse_generic-link :
    (decoders : Decoders) (l : Link)
    → IsLink l
    → parse_generic decoders (link_text l) l.scheme l.scheme (authority_of l ++ b'#' ∷ l.fragment)
      ≡ some (node_of l)
unfolding parse_generic with_name
parse_generic-link decoders l w = rw (
  parse_generic,
  cut_authority-append (authority_of l) l.fragment w.plain,
  endpoint-link decoders l (b'#' ∷ l.fragment) w,
  beq-filled l.server w.named.1,
  default_port-filled l.scheme l.port w.port.1,
  with_name,
  cut-plain (authority_of l) l.fragment w.plain,
)

scheme_bytes : (s : Bytes) → valid_scheme s ≡ true → every is_scheme_byte s ≡ true
unfolding valid_scheme is_scheme_byte every
scheme_bytes [] h = refl
scheme_bytes (c ∷ s) h = ground (arith, h)

parse_at-link :
    (decoders : Decoders) (l : Link)
    → IsLink l
    → parse_at decoders (link_text l) l.scheme (authority_of l ++ b'#' ∷ l.fragment)
      ≡ some (node_of l)
unfolding parse_at
parse_at-link decoders l w =
    let g = generic_schemes l w in
    rw (w.scheme, w.lower, g.0, g.1) (parse_generic-link decoders l w)

-- A link written with a valid lower-case scheme that has no decoder of its own, a user, a
-- server, a port and a fragment, no part of its authority holding a byte that would end or split
-- it, is parsed into a node with these parts and the place of its fragment, the name being the
-- trimmed fragment, or the server if that is empty.
pub parse_node-link_text :
    (decoders : Decoders) (l : Link)
    → IsLink l
    → parse_node decoders (link_text l) ≡ some (node_of l)
unfolding parse_node
parse_node-link_text decoders l w =
    let rest = authority_of l ++ b'#' ∷ l.fragment in
    let c = cut_sep-append l.scheme rest (scheme_bytes l.scheme w.scheme) in
    ap (λ o. o >>= λ p. parse_at decoders (link_text l) p.0 p.1) c ∙ parse_at-link decoders l w
