-- ===== src/Stable/Merge/Complete.antt =====
-- Which nodes the merge keeps: every key that some usable node has, from the first source that has
-- it.
use sub_preprocessor.Base.{
  ℕ, ◌+◌, ◌≡◌, refl, sym, ap, ◌∙◌, inl, inr, Bool, true, false, ◌||◌, some, List, [], ◌∷◌, ◌++◌,
  arith, Bool-cases, Option-cases, Bytes, beq, beq_iff, any, Among,
}
use mathlib.Core.Path.{subst}
use mathlib.Core.List.{append_assoc}
use sub_preprocessor.Subscription.Node.{Node}
use sub_preprocessor.Subscription.Links.{Links}
use sub_preprocessor.Stable.Label.{label_of}
use sub_preprocessor.Stable.Merge.{
  SourceBody, Entry, seen_key, relabel_node, usable, key_of, admit, admit_node, merge_nodes,
  merge_sources, merge,
}
use sub_preprocessor.Preprocess.{NodeResult}
use sub_preprocessor.Stable.Merge.Steps.{merge_nodes_skip, merge_nodes_keep}
use sub_preprocessor.Stable.Merge.Fresh.{merge_nodes-AddsFresh, seen_key-add_keys}

-- some entry has the key
abbrev pub has_key : Bytes → List Entry → Bool
has_key k = any (λ (e : Entry). beq e.addr k)

module _ (links : Links) (unicode : Bytes → Bytes) where
  -- A usable node with this key, which can be relabelled whatever its label is.
  pub record Offers (k : Bytes) (node : NodeResult) : Type 0 where
    pub n : Node
    pub is_usable : usable links node ≡ some n
    pub relabels : (label : Bytes) → (raw : Bytes) × (relabel_node links n label ≡ some raw)
    pub key_is : key_of unicode n ≡ k

  admit-Offers :
      (name : Bytes) (kept : ℕ) (seen : List Bytes) (node : NodeResult) (k : Bytes)
      → Offers k node
      → seen_key k seen ≡ false
      → (e : Entry) × (admit links unicode name kept seen node ≡ some e) × (e.addr ≡ k)
  unfolding admit admit_node
  admit-Offers name kept seen node k o new =
      let (raw, done) = o.relabels (label_of name (kept + 1)) in
      (
        record {
          label = label_of name (kept + 1);
          raw = raw;
          addr = key_of unicode o.n;
          ip = node.ip;
          country = [];
        },
        (let new' : seen_key (key_of unicode o.n) seen ≡ false = rw o.key_is new in
            rw (o.is_usable) (rw new' (rw done))),
        o.key_is,
      )

  grows :
      (name : Bytes) (kept : ℕ) (seen : List Bytes) (nodes : List NodeResult) (k : Bytes)
      → seen_key k seen ≡ true
      → seen_key k (merge_nodes links unicode name kept seen nodes).1 ≡ true
  grows name kept seen nodes k h =
      let (new, distinct, keys) = merge_nodes-AddsFresh links unicode name kept seen nodes in
      rw keys
        (seen_key-add_keys k (merge_nodes links unicode name kept seen nodes).0 seen ∙ ground arith)

  keeps_head :
      (name : Bytes) (kept : ℕ) (seen : List Bytes) (node : NodeResult) (nodes : List NodeResult)
      (k : Bytes)
      → Offers k node
      → seen_key k seen ≡ false
      → seen_key k (merge_nodes links unicode name kept seen (node ∷ nodes)).1 ≡ true
  keeps_head name kept seen node nodes k o new =
      let (e, done, same) = admit-Offers name kept seen node k o new in
      rw (merge_nodes_keep links unicode name kept seen node nodes e done) (
        grows name (kept + 1) (e.addr ∷ seen) nodes k
          (unfold seen_key in ground (arith, beq_iff e.addr k)))

  merge_nodes-seen :
      (name : Bytes) (kept : ℕ) (seen : List Bytes) (nodes : List NodeResult) (node : NodeResult)
      (k : Bytes)
      → Among node nodes
      → Offers k node
      → seen_key k (merge_nodes links unicode name kept seen nodes).1 ≡ true
  merge_nodes-seen name kept seen [] node k m o = absurd m
  merge_nodes-seen name kept seen (x ∷ nodes) node k (inl e) o =
      elim (Bool-cases (seen_key k seen)) [
        | inl old ↦ grows name kept seen (x ∷ nodes) k old
        | inr new ↦ keeps_head name kept seen x nodes k (subst (Offers k) e o) new
      ]
  merge_nodes-seen name kept seen (x ∷ nodes) node k (inr m) o =
      elim (Option-cases (admit links unicode name kept seen x)) [
        | inl skipped ↦
            rw (merge_nodes_skip links unicode name kept seen x nodes skipped)
              (merge_nodes-seen name kept seen nodes node k m o)
        | inr (e, done) ↦
            rw (merge_nodes_keep links unicode name kept seen x nodes e done)
              (merge_nodes-seen name (kept + 1) (e.addr ∷ seen) nodes node k m o)
      ]

  has_key-append :
      (k : Bytes) (es fs : List Entry) → has_key k (es ++ fs) ≡ (has_key k es || has_key k fs)
  unfolding any
  has_key-append k [] fs = refl
  has_key-append k (e ∷ es) fs = ground (arith, has_key-append k es fs)

  -- the keys of the merge, or those seen before
  abbrev known : Bytes → List Bytes → List SourceBody → Bool
  known k seen bodies = has_key k (merge_sources links unicode seen bodies) || seen_key k seen

  known-step :
      (k : Bytes) (seen : List Bytes) (src : SourceBody) (bodies : List SourceBody)
      → known k (merge_nodes links unicode src.name 0 seen src.nodes).1 bodies ≡ true
      → known k seen (src ∷ bodies) ≡ true
  unfolding merge_sources
  known-step k seen src bodies h =
      let r : List Entry × List Bytes = merge_nodes links unicode src.name 0 seen src.nodes in
      let (new, distinct, keys) = merge_nodes-AddsFresh links unicode src.name 0 seen src.nodes in
      let now : seen_key k r.1 ≡ (has_key k r.0 || seen_key k seen) =
        ap (seen_key k) keys ∙ seen_key-add_keys k r.0 seen in
      ground (arith, has_key-append k r.0 (merge_sources links unicode r.1 bodies))

  known-seen :
      (k : Bytes) (seen : List Bytes) (bodies : List SourceBody)
      → seen_key k seen ≡ true
      → known k seen bodies ≡ true
  known-seen k seen bodies h = ground arith

  merge_sources-known :
      (seen : List Bytes) (bodies : List SourceBody) (src : SourceBody) (node : NodeResult)
      (k : Bytes)
      → Among src bodies
      → Among node src.nodes
      → Offers k node
      → known k seen bodies ≡ true
  merge_sources-known seen [] src node k m n o = absurd m
  merge_sources-known seen (x ∷ bodies) src node k (inl e) n o = known-step k seen x bodies (
      known-seen k (merge_nodes links unicode x.name 0 seen x.nodes).1 bodies (
        merge_nodes-seen x.name 0 seen x.nodes node k
          (subst (λ (s : SourceBody). Among node s.nodes) e n) o))
  merge_sources-known seen (x ∷ bodies) src node k (inr m) n o = known-step k seen x bodies (
      merge_sources-known (merge_nodes links unicode x.name 0 seen x.nodes).1 bodies src node k m n
        o)

  -- If a source has a usable node that can be relabelled whatever its label is, some merged
  -- entry has the key of that node.
  pub merge-has_key :
      (bodies : List SourceBody) (src : SourceBody) (node : NodeResult) (k : Bytes)
      → Among src bodies
      → Among node src.nodes
      → Offers k node
      → has_key k (merge links unicode bodies) ≡ true
  unfolding merge
  merge-has_key bodies src node k m n o =
      unfold seen_key in ground (arith, merge_sources-known [] bodies src node k m n o)

  merge_sources-prefix :
      (seen : List Bytes) (xs ys : List SourceBody)
      → (rest : List Entry) × (merge_sources links unicode seen (xs ++ ys)
          ≡ merge_sources links unicode seen xs ++ rest)
  unfolding merge_sources
  merge_sources-prefix seen [] ys = (merge_sources links unicode seen ys, refl)
  merge_sources-prefix seen (x ∷ xs) ys =
      let r : List Entry × List Bytes = merge_nodes links unicode x.name 0 seen x.nodes in
      let (rest, e) = merge_sources-prefix r.1 xs ys in
      (
        rest,
        ap (λ l. r.0 ++ l) e ∙ sym (append_assoc r.0 (merge_sources links unicode r.1 xs) rest),
      )

  -- Earlier sources win: sources added behind others change none of the entries that these give,
  -- nor their order.
  pub merge-prefix :
      (xs ys : List SourceBody)
      → (rest : List Entry) × (merge links unicode (xs ++ ys) ≡ merge links unicode xs ++ rest)
  unfolding merge
  merge-prefix xs ys = merge_sources-prefix [] xs ys
