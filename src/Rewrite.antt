-- ===== src/Rewrite.antt =====
-- internal/rewrite/rewrite.go: a node line with tags before its name. The rewriters of a name
-- inside a payload are a parameter.
pub mod Tags
pub mod Strip
pub mod Lines
pub mod Tests
use sub_preprocessor.Base.{
  ℕ, zero, suc, ◌+◌, ◌-◌, ◌*◌, ◌/◌, ◌%◌, ◌^◌, ◌≤◌, ◌<◌, max, min, ◌≡◌, refl, sym, ap, ◌∙◌, ◌≢◌, ◌↔◌,
  ◌⊎◌, inl, inr, Bool, true, false, not, ◌&&◌, ◌||◌, Option, none, some, List, [], ◌∷◌, ◌++◌, map,
  arith, ◌>>=◌, ltb, leb, ◌==◌, if◌then◌else◌, leb→le, le→leb, ltb→lt, lt→ltb, ==_iff, tests,
  Bool-cases, Option-cases, AllSome, AllSome-bind, bind-eq-some, some-inj, Bytes, codes, beq,
  beq_iff, beq_refl, has_byte, cut, cut_last, split, is_space, trim_left, trim_right, trim_space,
  starts_with, is_digit, is_upper, is_lower, lower_byte, lower_byte_idem, is_ascii, to_lower,
  length, get_elem?, take, drop, length-append, keep, any, every, All, All-append, All-map, Among,
}
use sub_preprocessor.Subscription.Node.{Node, scheme_vmess, scheme_ssr}

-- the spaces and tabs before a tag
unfoldable pub skip_gap : Bytes → Bytes
skip_gap [] = []
skip_gap (c ∷ s) = let rest = skip_gap s in if c == b' ' || c == b'\t' then rest else c ∷ s

-- `isKnownTag`
unfoldable pub is_known_tag : Bytes → Bool
unfolding beq starts_with
is_known_tag tag =
    if beq tag (codes "OK") || beq tag (codes "BAD")
    then true
    else if starts_with (codes "GEO:") tag
    then true
    else if starts_with (codes "IP:") tag
    then true
    else if starts_with (codes "ASN:") tag
    then true
    else if starts_with (codes "JUR:") tag
    then true
    else starts_with (codes "SPD:") tag

-- what follows the known tag that starts at this byte
unfoldable pub tag_at : Bytes → Option Bytes
tag_at [] = none
tag_at (c ∷ s) = if not (c == b'[') then none else elim (cut b']' s) [
  | none ↦ none
  | some (tag, behind) ↦ if is_known_tag tag then some behind else none
]

-- what follows the known tag behind the gap
unfoldable pub after_tag : Bytes → Option Bytes
unfolding skip_gap tag_at
after_tag s = tag_at (skip_gap s)

-- the loop of `StripKnownTags`, on what is left of the name
unfoldable pub strip_from : ℕ → Bytes → Bytes
unfolding after_tag trim_space skip_gap
strip_from zero s = s
strip_from (suc fuel) s = elim (after_tag s) [
  | none ↦ trim_space (skip_gap s)
  | some rest ↦ strip_from fuel rest
]

-- `StripKnownTags`: each round but the last takes a byte at least
unfoldable pub strip_known_tags : Bytes → Bytes
unfolding strip_from
strip_known_tags s = strip_from (length s + 1) s

-- `RewriteVmessNameTagged`, `RewriteVmessAEADNameTagged` and `RewriteSSRNameTagged`, of a line, the
-- tags and a name
pub record Rewriters : Type 0 where
  pub rewrite_vmess_tagged : Bytes → Bytes → Bytes → Option Bytes
  pub rewrite_vmess_aead_tagged : Bytes → Bytes → Bytes → Option Bytes
  pub rewrite_ssr_tagged : Bytes → Bytes → Bytes → Option Bytes

abbrev pub clean_name : Node → Bytes
clean_name node = let name = strip_known_tags node.name in if beq name [] then node.server else name

-- the line up to its fragment
abbrev pub body_of : Node → Bytes
body_of node = elim node.fragment_idx [ none ↦ node.raw | some i ↦ take i node.raw ]

-- the fragment rewrite at the end of `NodeName`
unfoldable pub write_fragment : Node → Bytes → Bytes → Bytes
write_fragment node tags name =
    body_of node ++ b'#' ∷ ((if beq tags [] then [] else tags ++ b' ' ∷ []) ++ name)

abbrev or_raw : Option Bytes → Bytes → Bytes
or_raw o raw = elim o [ none ↦ raw | some out ↦ out ]

-- `NodeName`: what it writes
unfoldable pub node_name : Rewriters → Node → Bytes → Bytes
unfolding strip_known_tags write_fragment beq
node_name rewriters node tags =
    let name = clean_name node in
    let in_vmess = rewriters.rewrite_vmess_tagged node.raw tags name in
    let in_aead = rewriters.rewrite_vmess_aead_tagged node.raw tags name in
    let in_ssr = rewriters.rewrite_ssr_tagged node.raw tags name in
    if beq node.scheme []
    then node.raw
    else if beq node.scheme scheme_vmess
    then or_raw in_vmess (or_raw in_aead node.raw)
    else if beq node.scheme scheme_ssr
    then or_raw in_ssr node.raw
    else write_fragment node tags name
