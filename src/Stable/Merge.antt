-- ===== src/Stable/Merge.antt =====
-- internal/stable/merge.go: the walk over the sources that dedupes nodes by server and port and
-- relabels them. The capacities that the source reserves change no result; `grow_target` models
-- their arithmetic. The arena of the keys is Stable/Arena.
pub mod Key
pub mod Steps
pub mod Fresh
pub mod Complete
pub mod Labels
pub mod Capacity
pub mod Tests
use sub_preprocessor.Base.{
  ℕ, zero, suc, ◌+◌, ◌-◌, ◌*◌, ◌/◌, ◌%◌, ◌^◌, ◌≤◌, ◌<◌, max, min, ◌≡◌, refl, sym, ap, ◌∙◌, ◌≢◌, ◌↔◌,
  ◌⊎◌, inl, inr, Bool, true, false, not, ◌&&◌, ◌||◌, Option, none, some, List, [], ◌∷◌, ◌++◌, map,
  arith, ◌>>=◌, ltb, leb, ◌==◌, if◌then◌else◌, leb→le, le→leb, ltb→lt, lt→ltb, ==_iff, tests,
  Bool-cases, Option-cases, AllSome, AllSome-bind, bind-eq-some, some-inj, Bytes, codes, beq,
  beq_iff, beq_refl, has_byte, cut, cut_last, split, is_space, trim_left, trim_right, trim_space,
  starts_with, is_digit, is_upper, is_lower, lower_byte, lower_byte_idem, is_ascii, to_lower,
  length, get_elem?, take, drop, length-append, keep, any, every, All, All-append, All-map,
}
use sub_preprocessor.Preprocess.{NodeResult, FilterRequest, DropStats}
use sub_preprocessor.Netip.{Addr}
use sub_preprocessor.Subscription.Node.{Node, scheme_vmess, scheme_ssr}
use sub_preprocessor.Subscription.Links.{Links}
use sub_preprocessor.Stable.Label.{label_of}

pub record SourceBody : Type 0 where
  pub name : Bytes
  pub nodes : List NodeResult

pub record Entry : Type 0 where
  pub label : Bytes
  pub raw : Bytes
  pub addr : Bytes
  pub ip : Addr
  pub country : Bytes

-- the loop of `lowerServerPort`: byte by byte, and from the start by `strings.ToLower` if a byte is
-- not ASCII
unfoldable pub lower_server : (Bytes → Bytes) → Bytes → Bytes → Bytes → Bytes
lower_server unicode server dst [] = dst
lower_server unicode server dst (c ∷ cs) =
    let next = lower_server unicode server (dst ++ lower_byte c ∷ []) cs in
    if leb 128 c then to_lower unicode server else next

unfoldable pub lower_server_port : (Bytes → Bytes) → Bytes → Bytes → Bytes
unfolding lower_server
lower_server_port unicode server port = lower_server unicode server [] server ++ b':' ∷ port

-- `_, dup := seen[key]`
unfoldable pub seen_key : Bytes → List Bytes → Bool
seen_key key [] = false
seen_key key (k ∷ ks) = beq k key || seen_key key ks

unfoldable pub first_some : Option Bytes → Option Bytes → Option Bytes
first_some none b = b
first_some (some a) b = some a

module _ (links : Links) where
  -- `relabelNode`; the label it returns is the one it is given
  unfoldable pub relabel_node : Node → Bytes → Option Bytes
  unfolding first_some
  relabel_node n label =
      if beq n.scheme scheme_vmess
      then first_some (links.rewrite_vmess n.raw label) (links.rewrite_vmess_aead n.raw label)
      else if beq n.scheme scheme_ssr
      then links.rewrite_ssr n.raw label
      else let uri : Bytes = elim n.fragment_idx [ none ↦ n.raw | some i ↦ take i n.raw ] in
        some (uri ++ b'#' ∷ label)

-- a node that parses and is no placeholder
unfoldable pub usable : Links → NodeResult → Option Node
usable links node =
    links.parse_one node.raw >>= λ n. if links.placeholder n.raw n.server then none else some n

unfoldable pub key_of : (Bytes → Bytes) → Node → Bytes
key_of unicode n = lower_server_port unicode n.server n.port

module _ (links : Links) (unicode : Bytes → Bytes) where
  -- the entry of a usable node that is the `kept + 1`-th of its source
  unfoldable pub admit_node : Bytes → ℕ → List Bytes → Addr → Node → Option Entry
  admit_node name kept seen ip n =
      let label = label_of name (kept + 1) in
      if seen_key (key_of unicode n) seen
      then none
      else (relabel_node links n label >>= λ raw.
          some
            (record { label = label; raw = raw; addr = key_of unicode n; ip = ip; country = [] }))

  -- one round of the inner loop, after `kept` other nodes of the source
  unfoldable pub admit : Bytes → ℕ → List Bytes → NodeResult → Option Entry
  unfolding usable admit_node
  admit name kept seen node = usable links node >>= admit_node name kept seen node.ip

  -- the inner loop: the entries of one source, and the keys seen after it
  unfoldable pub merge_nodes : Bytes → ℕ → List Bytes → List NodeResult → List Entry × List Bytes
  merge_nodes name kept seen [] = ([], seen)
  merge_nodes name kept seen (node ∷ nodes) = elim (admit name kept seen node) [
    | none ↦ merge_nodes name kept seen nodes
    | some e ↦
        let (es, seen') = merge_nodes name (kept + 1) (e.addr ∷ seen) nodes in (e ∷ es, seen')
  ]

  unfoldable pub merge_sources : List Bytes → List SourceBody → List Entry
  merge_sources seen [] = []
  merge_sources seen (src ∷ bodies) =
      let (es, seen') = merge_nodes src.name 0 seen src.nodes in es ++ merge_sources seen' bodies

  unfoldable pub merge : List SourceBody → List Entry
  unfolding merge_sources
  merge bodies = merge_sources [] bodies

-- `mergeGrowTarget` on the length and capacity of the entries
unfoldable pub grow_target : ℕ → ℕ → ℕ → ℕ → ℕ → ℕ → ℕ → ℕ
grow_target len capacity total processed novel prev_nodes src_nodes =
    if not (len == capacity) || leb total len
    then 0
    else let want = len + src_nodes in
      let projected = len + (total - processed) * novel / prev_nodes in
      min (if ltb 0 prev_nodes && ltb prev_nodes processed then max want projected else want) total
