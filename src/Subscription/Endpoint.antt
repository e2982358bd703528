-- ===== src/Subscription/Endpoint.antt =====
-- internal/subscription: the server and the port of a link, from subscription.go, mieru.go and ss.go.
-- The decoders of vmess and ssr lines are a parameter, and base64.
use sub_preprocessor.Base.{
  ℕ, ◌+◌, ◌-◌, ◌*◌, Bool, true, false, not, ◌&&◌, ◌||◌, Option, none, some, List, [], ◌∷◌, ◌>>=◌,
  ltb, leb, ◌==◌, if◌then◌else◌, Bytes, codes, beq, has_byte, cut, cut_last, split, starts_with,
  length, any,
}
use sub_preprocessor.Subscription.Node.{Node, scheme_ss, scheme_mieru, scheme_hysteria2, scheme_hy2}
use sub_preprocessor.Subscription.Query.{cut_pair}

pub record Decoders : Type 0 where
  -- `parseVmess(line, idx)`
  pub parse_vmess : Bytes → ℕ → Option Node
  -- `parseSSR(line, rest)`
  pub parse_ssr : Bytes → Bytes → Option Node
  -- `base64.RawStdEncoding.DecodeString`
  pub raw_std_decode : Bytes → Option Bytes

abbrev pub after_colon : Bytes → Bytes
after_colon [] = []
after_colon (c ∷ cs) = if c == b':' then cs else []

unfoldable pub host_port : Bytes → Bytes × Bytes
unfolding cut cut_last has_byte
host_port [] = ([], [])
host_port (c ∷ cs) =
    if c == b'['
    then elim (cut b']' cs) [ none ↦ ([], []) | some (host, behind) ↦ (host, after_colon behind) ]
    else elim (cut_last b':' (c ∷ cs)) [
      | none ↦ (c ∷ cs, [])
      | some (host, port) ↦ if has_byte b':' host then (c ∷ cs, []) else (host, port)
    ]

abbrev pub after_userinfo : Bytes → Bytes
after_userinfo authority = elim (cut_last b'@' authority) [
  | none ↦ authority
  | some (user, host) ↦ host
]

-- `splitHostPort`
unfoldable pub split_host_port : Bytes → Bytes × Bytes
unfolding host_port cut_last
split_host_port authority = host_port (after_userinfo authority)

-- the loop of `portNumber`
unfoldable pub port_digits : ℕ → Bytes → Option ℕ
port_digits n [] = some n
port_digits n (c ∷ cs) =
    let rest = port_digits (n * 10 + (c - b'0')) cs in
    if ltb c b'0' || ltb b'9' c then none else rest

-- `portNumber`
unfoldable pub port_number : Bytes → Option ℕ
unfolding port_digits beq starts_with
port_number s =
    if beq s [] || ltb 5 (length s)
    then none
    else if ltb 1 (length s) && starts_with (codes "0") s
    then none
    else (port_digits 0 s >>= λ n. if ltb n 1 || ltb 65535 n then none else some n)

-- `mieruUsablePort`
unfoldable pub usable_port : Bytes → Bool
unfolding port_number cut
usable_port value = elim (cut b'-' value) [
  | none ↦ elim (port_number value) [ none ↦ false | some n ↦ true ]
  | some (begin, end) ↦ elim (port_number begin) [
    | none ↦ false
    | some b ↦ elim (port_number end) [ none ↦ false | some e ↦ leb b e ]
  ]
]

pub record MieruPorts : Type 0 where
  pub port : Bytes
  pub ports : ℕ
  pub protocols : ℕ

-- one pair of the query in the loop of `mieruPort`
unfoldable pub mieru_pair : MieruPorts → Bytes → MieruPorts
unfolding usable_port cut_pair beq
mieru_pair m pair =
    let (key, value) = cut_pair pair in
    if beq key (codes "port")
    then record m {
      port = if beq m.port [] && usable_port value then value else m.port;
      ports = m.ports + 1;
    }
    else if beq key (codes "protocol")
    then record m { protocols = m.protocols + 1 }
    else m

unfoldable pub mieru_pairs : MieruPorts → List Bytes → MieruPorts
unfolding mieru_pair
mieru_pairs m [] = m
mieru_pairs m (pair ∷ pairs) = mieru_pairs (mieru_pair m pair) pairs

abbrev pub before_fragment : Bytes → Bytes
before_fragment tail = elim (cut b'#' tail) [ none ↦ tail | some (t, fragment) ↦ t ]

-- `mieruPort`. The loop reads pairs while the query is not empty, so an empty query has none; the
-- empty pair behind a last '&', which it does not read, changes nothing.
unfoldable pub mieru_port : Bytes → Option Bytes
unfolding mieru_pairs cut split beq
mieru_port tail = cut b'?' (before_fragment tail) >>= λ q.
    let m = mieru_pairs (record { port = []; ports = 0; protocols = 0 }) (split b'&' q.1) in
    if m.ports == 0 || not (m.ports == m.protocols) || beq m.port [] then none else some m.port

-- `decodeSSLegacy`
unfoldable pub decode_ss_legacy : Decoders → Bytes → Option (Bytes × Bytes)
unfolding split_host_port has_byte beq
decode_ss_legacy decoders authority = decoders.raw_std_decode authority >>= λ plain.
    let (server, port) = split_host_port plain in
    if not (has_byte b'@' plain)
    then none
    else if beq server [] || beq port []
    then none
    else some (server, port)

-- `ssFields`
unfoldable pub ss_fields : Decoders → Bytes → Bytes → Bytes → Option (Bytes × Bytes)
unfolding decode_ss_legacy beq
ss_fields decoders authority server port =
    if not (beq port []) then some (server, port) else decode_ss_legacy decoders authority

abbrev pub is_web : Bytes → Bool
is_web scheme =
    any (beq scheme)
      (codes "http" ∷ codes "https" ∷ codes "socks" ∷ codes "socks5" ∷ codes "socks5h" ∷ [])

-- the switch on the scheme in `parseNode`
unfoldable pub endpoint : Decoders → Bytes → Bytes → Bytes → Option (Bytes × Bytes)
unfolding ss_fields mieru_port split_host_port beq any
endpoint decoders scheme authority tail =
    let (server, port) = split_host_port authority in
    let by_query = mieru_port tail >>= λ p. some (server, p) in
    if beq scheme scheme_ss
    then ss_fields decoders authority server port
    else if beq scheme scheme_mieru
    then by_query
    else if is_web scheme
    then (if beq port [] then none else some (server, port))
    else some (server, port)

-- the default of a missing port
unfoldable pub default_port : Bytes → Bytes → Option Bytes
unfolding beq
default_port scheme port =
    if not (beq port [])
    then some port
    else if beq scheme scheme_hysteria2 || beq scheme scheme_hy2
    then some (codes "443")
    else none
