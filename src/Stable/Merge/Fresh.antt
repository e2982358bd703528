-- ===== src/Stable/Merge/Fresh.antt =====
-- No two merged entries share a key.
use sub_preprocessor.Base.{
  ℕ, ◌+◌, ◌≡◌, refl, ◌∙◌, inl, inr, false, ◌||◌, List, [], ◌∷◌, ◌++◌, arith, Bool-cases,
  Option-cases, AllSome, AllSome-bind, Bytes, beq, any, All, All-append, All-map,
}
use sub_preprocessor.Netip.{Addr}
use sub_preprocessor.Subscription.Node.{Node}
use sub_preprocessor.Subscription.Links.{Links}
use sub_preprocessor.Stable.Label.{label_of}
use sub_preprocessor.Stable.Merge.Steps.{merge_nodes_skip, merge_nodes_keep}
use sub_preprocessor.Stable.Merge.{
  admit_node, admit_node, SourceBody, Entry, seen_key, relabel_node, usable, key_of, admit,
  merge_nodes, merge_sources, merge,
}
use sub_preprocessor.Preprocess.{NodeResult}

-- the key of the entry is none of these
abbrev pub IsFresh : List Bytes → Entry → Type 0
IsFresh seen e = seen_key e.addr seen ≡ false

-- pairwise different keys
abbrev pub HasDistinctKeys : List Entry → Type 0
HasDistinctKeys [] = Unit
HasDistinctKeys (e ∷ es) = All (λ (f : Entry). beq e.addr f.addr ≡ false) es × HasDistinctKeys es

-- the keys of some entries, added to the keys seen before
pub add_keys : List Entry → List Bytes → List Bytes
add_keys [] seen = seen
add_keys (e ∷ es) seen = add_keys es (e.addr ∷ seen)

pub seen_key-add_keys :
    (k : Bytes) (es : List Entry) (seen : List Bytes)
    → seen_key k (add_keys es seen) ≡ (any (λ (e : Entry). beq e.addr k) es || seen_key k seen)
unfolding add_keys any
seen_key-add_keys k [] seen = refl
seen_key-add_keys k (e ∷ es) seen =
    seen_key-add_keys k es (e.addr ∷ seen) ∙ (unfold seen_key in ground arith)

tail-IsFresh :
    (k : Bytes) (seen : List Bytes) (es : List Entry)
    → All (IsFresh (k ∷ seen)) es
    → All (IsFresh seen) es
unfolding seen_key
tail-IsFresh k seen es = All-map (λ (e : Entry) h. ground arith) es

head-differs :
    (k : Bytes) (seen : List Bytes) (es : List Entry)
    → All (IsFresh (k ∷ seen)) es
    → All (λ (f : Entry). beq k f.addr ≡ false) es
unfolding seen_key
head-differs k seen es = All-map (λ (e : Entry) h. ground arith) es

-- One source adds entries with new, different keys, and remembers these keys.
abbrev pub AddsFresh : List Bytes → List Entry × List Bytes → Type 0
AddsFresh seen r = All (IsFresh seen) r.0 × HasDistinctKeys r.0 × (r.1 ≡ add_keys r.0 seen)

cons-AddsFresh :
    (seen : List Bytes) (e : Entry) (r : List Entry × List Bytes)
    → IsFresh seen e
    → AddsFresh (e.addr ∷ seen) r
    → AddsFresh seen (e ∷ r.0, r.1)
unfolding add_keys
cons-AddsFresh seen e (es, seen') h k =
    ((h, tail-IsFresh e.addr seen es k.0), (head-differs e.addr seen es k.0, k.1), k.2)

module _ (links : Links) (unicode : Bytes → Bytes) where
  admit_node-IsFresh :
      (name : Bytes) (kept : ℕ) (seen : List Bytes) (ip : Addr) (n : Node)
      → AllSome (IsFresh seen) (admit_node links unicode name kept seen ip n)
  unfolding admit_node
  admit_node-IsFresh name kept seen ip n = elim (Bool-cases (seen_key (key_of unicode n) seen)) [
    | inl dup ↦ rw dup tt
    | inr new ↦
        rw new (
          AllSome-bind (IsFresh seen) (relabel_node links n (label_of name (kept + 1))) _
            λ raw. new)
  ]

  pub admit-IsFresh :
      (name : Bytes) (kept : ℕ) (seen : List Bytes) (node : NodeResult)
      → AllSome (IsFresh seen) (admit links unicode name kept seen node)
  unfolding admit
  admit-IsFresh name kept seen node =
      AllSome-bind (IsFresh seen) (usable links node) _
        λ n. admit_node-IsFresh name kept seen node.ip n

  pub merge_nodes-AddsFresh :
      (name : Bytes) (kept : ℕ) (seen : List Bytes) (nodes : List NodeResult)
      → AddsFresh seen (merge_nodes links unicode name kept seen nodes)
  merge_nodes-AddsFresh name kept seen [] = unfold merge_nodes add_keys in (tt, tt, refl)
  merge_nodes-AddsFresh name kept seen (node ∷ nodes) =
      elim (Option-cases (admit links unicode name kept seen node)) [
        | inl skipped ↦
            rw (merge_nodes_skip links unicode name kept seen node nodes skipped)
              (merge_nodes-AddsFresh name kept seen nodes)
        | inr (e, kept_one) ↦
            rw (merge_nodes_keep links unicode name kept seen node nodes e kept_one) (
              cons-AddsFresh seen e
                (merge_nodes links unicode name (kept + 1) (e.addr ∷ seen) nodes)
                (rw kept_one at (admit-IsFresh name kept seen node))
                (merge_nodes-AddsFresh name (kept + 1) (e.addr ∷ seen) nodes))
      ]

weaken-IsFresh :
    (es : List Entry) (seen : List Bytes) (fs : List Entry)
    → All (IsFresh (add_keys es seen)) fs
    → All (IsFresh seen) fs
weaken-IsFresh es seen fs =
    All-map (λ (f : Entry) h. ground (arith, seen_key-add_keys f.addr es seen)) fs

later-differ :
    (e : Entry) (es : List Entry) (seen : List Bytes) (fs : List Entry)
    → All (IsFresh (add_keys es (e.addr ∷ seen))) fs
    → All (λ (f : Entry). beq e.addr f.addr ≡ false) fs
unfolding seen_key
later-differ e es seen fs =
    All-map (λ (f : Entry) h. ground (arith, seen_key-add_keys f.addr es (e.addr ∷ seen))) fs

append-HasDistinctKeys :
    (es fs : List Entry) (seen : List Bytes)
    → HasDistinctKeys es
    → All (IsFresh (add_keys es seen)) fs
    → HasDistinctKeys fs
    → HasDistinctKeys (es ++ fs)
unfolding add_keys
append-HasDistinctKeys [] fs seen h k d = d
append-HasDistinctKeys (e ∷ es) fs seen h k d = (
  All-append (λ (f : Entry). beq e.addr f.addr ≡ false) es fs h.0 (later-differ e es seen fs k),
  append-HasDistinctKeys es fs (e.addr ∷ seen) h.1 k d,
)

module _ (links : Links) (unicode : Bytes → Bytes) where
  merge_sources-IsFresh :
      (seen : List Bytes) (bodies : List SourceBody)
      → All (IsFresh seen) (merge_sources links unicode seen bodies)
        × HasDistinctKeys (merge_sources links unicode seen bodies)
  unfolding merge_sources
  merge_sources-IsFresh seen [] = (tt, tt)
  merge_sources-IsFresh seen (src ∷ bodies) =
      joined (merge_nodes links unicode src.name 0 seen src.nodes)
        (merge_nodes-AddsFresh links unicode src.name 0 seen src.nodes)
        (merge_sources-IsFresh (merge_nodes links unicode src.name 0 seen src.nodes).1 bodies)
    where
      joined :
          (r : List Entry × List Bytes)
          → AddsFresh seen r
          → All (IsFresh r.1) (merge_sources links unicode r.1 bodies)
            × HasDistinctKeys (merge_sources links unicode r.1 bodies)
          → All (IsFresh seen) (r.0 ++ merge_sources links unicode r.1 bodies)
            × HasDistinctKeys (r.0 ++ merge_sources links unicode r.1 bodies)
      joined (es, seen') (new, distinct, keys) (later, later_distinct) =
          let fs : List Entry = merge_sources links unicode seen' bodies in
          let fresh : All (IsFresh (add_keys es seen)) fs =
            All-map (λ (f : Entry) h. rw (← keys) h) fs later in
          (
            All-append (IsFresh seen) es fs new (weaken-IsFresh es seen fs fresh),
            append-HasDistinctKeys es fs seen distinct fresh later_distinct,
          )

  -- Whatever the sources, no two entries of a merge have the same key, the lower-cased server
  -- and the port.
  pub merge-HasDistinctKeys :
      (bodies : List SourceBody) → HasDistinctKeys (merge links unicode bodies)
  unfolding merge
  merge-HasDistinctKeys bodies = (merge_sources-IsFresh [] bodies).1
