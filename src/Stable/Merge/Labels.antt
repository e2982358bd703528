-- ===== src/Stable/Merge/Labels.antt =====
-- Where a merged entry comes from, and that its label names it.
use sub_preprocessor.Base.{
  ℕ, ◌+◌, ◌≤◌, ◌<◌, ◌≡◌, refl, sym, ◌∙◌, ◌≢◌, inl, inr, none, some, List, [], ◌∷◌, ◌++◌, arith,
  Bool-cases, Option-cases, bind-eq-some, some-inj, Bytes, All, All-append, All-map, Among,
}
use mathlib.Core.Path.{subst}
use sub_preprocessor.Subscription.Node.{Node}
use sub_preprocessor.Subscription.Links.{Links}
use sub_preprocessor.Stable.Label.{label_of}
use sub_preprocessor.Stable.Label.Laws.{label_of-injective}
use sub_preprocessor.Stable.Merge.{
  SourceBody, Entry, seen_key, relabel_node, usable, key_of, admit, admit_node, merge_nodes,
  merge_sources, merge,
}
use sub_preprocessor.Preprocess.{NodeResult}
use sub_preprocessor.Stable.Merge.Steps.{merge_nodes_skip, merge_nodes_keep}

module _ (links : Links) (unicode : Bytes → Bytes) where
  -- The entry was made of a node of the source called `name`, as one after the first `kept`.
  pub record IsMade (name : Bytes) (nodes : List NodeResult) (kept : ℕ) (e : Entry) : Type 0 where
    pub node : NodeResult
    pub n : Node
    pub count : ℕ
    pub among : Among node nodes
    pub is_usable : usable links node ≡ some n
    pub label_is : e.label ≡ label_of name count
    pub raw_is : relabel_node links n e.label ≡ some e.raw
    pub addr_is : e.addr ≡ key_of unicode n
    pub ip_is : e.ip ≡ node.ip
    pub later : kept < count

  -- what is known of the entry that one round makes
  record IsAdmitted (name : Bytes) (kept : ℕ) (node : NodeResult) (e : Entry) : Type 0 where
    n : Node
    is_usable : usable links node ≡ some n
    label_is : e.label ≡ label_of name (kept + 1)
    raw_is : relabel_node links n e.label ≡ some e.raw
    addr_is : e.addr ≡ key_of unicode n
    ip_is : e.ip ≡ node.ip

  admit_node-IsAdmitted :
      (name : Bytes) (kept : ℕ) (seen : List Bytes) (node : NodeResult) (e : Entry) (n : Node)
      → usable links node ≡ some n
      → admit_node links unicode name kept seen node.ip n ≡ some e
      → IsAdmitted name kept node e
  unfolding admit_node
  admit_node-IsAdmitted name kept seen node e n u made =
      elim (Bool-cases (seen_key (key_of unicode n) seen)) [
        | inl dup ↦ let bad : none ≡ some e = rw dup at made in absurd (cc)
        | inr new ↦
            let (raw, done, same) = bind-eq-some _ _ (rw new at made) in
            subst (IsAdmitted name kept node) (some-inj same) (record {
              n = n;
              is_usable = u;
              label_is = refl;
              raw_is = done;
              addr_is = refl;
              ip_is = refl;
            })
      ]

  admit-IsAdmitted :
      (name : Bytes) (kept : ℕ) (seen : List Bytes) (node : NodeResult) (e : Entry)
      → admit links unicode name kept seen node ≡ some e
      → IsAdmitted name kept node e
  unfolding admit
  admit-IsAdmitted name kept seen node e h =
      let (n, u, made) =
        bind-eq-some (usable links node) (admit_node links unicode name kept seen node.ip) h in
      admit_node-IsAdmitted name kept seen node e n u made

  IsMade-here :
      (name : Bytes) (kept : ℕ) (node : NodeResult) (nodes : List NodeResult) (e : Entry)
      → IsAdmitted name kept node e
      → IsMade name (node ∷ nodes) kept e
  IsMade-here name kept node nodes e a = record {
    node = node;
    n = a.n;
    count = kept + 1;
    among = inl refl;
    is_usable = a.is_usable;
    label_is = a.label_is;
    raw_is = a.raw_is;
    addr_is = a.addr_is;
    ip_is = a.ip_is;
    later = omega arith;
  }

  IsMade-later :
      (name : Bytes) (kept kept' : ℕ) (node : NodeResult) (nodes : List NodeResult) (e : Entry)
      → kept ≤ kept'
      → IsMade name nodes kept' e
      → IsMade name (node ∷ nodes) kept e
  IsMade-later name kept kept' node nodes e le m = record {
    node = m.node;
    n = m.n;
    count = m.count;
    among = inr m.among;
    is_usable = m.is_usable;
    label_is = m.label_is;
    raw_is = m.raw_is;
    addr_is = m.addr_is;
    ip_is = m.ip_is;
    later = omega (arith, m.later);
  }

  merge_nodes-IsMade :
      (name : Bytes) (kept : ℕ) (seen : List Bytes) (nodes : List NodeResult)
      → All (IsMade name nodes kept) (merge_nodes links unicode name kept seen nodes).0
  merge_nodes-IsMade name kept seen [] = unfold merge_nodes in tt
  merge_nodes-IsMade name kept seen (node ∷ nodes) =
      elim (Option-cases (admit links unicode name kept seen node)) [
        | inl skipped ↦ rw (merge_nodes_skip links unicode name kept seen node nodes skipped) (
            All-map (λ e m. IsMade-later name kept kept node nodes e (omega arith) m)
              (merge_nodes links unicode name kept seen nodes).0
              (merge_nodes-IsMade name kept seen nodes))
        | inr (e, done) ↦ rw (merge_nodes_keep links unicode name kept seen node nodes e done) (
          IsMade-here name kept node nodes e (admit-IsAdmitted name kept seen node e done),
          All-map (λ f m. IsMade-later name kept (kept + 1) node nodes f (omega arith) m)
              (merge_nodes links unicode name (kept + 1) (e.addr ∷ seen) nodes).0
              (merge_nodes-IsMade name (kept + 1) (e.addr ∷ seen) nodes),
        )
      ]

  -- The entry was made of a node of one of these sources.
  pub record HasOrigin (bodies : List SourceBody) (e : Entry) : Type 0 where
    pub src : SourceBody
    pub among : Among src bodies
    pub made : IsMade src.name src.nodes 0 e

  merge_sources-HasOrigin :
      (seen : List Bytes) (bodies : List SourceBody)
      → All (HasOrigin bodies) (merge_sources links unicode seen bodies)
  unfolding merge_sources
  merge_sources-HasOrigin seen [] = tt
  merge_sources-HasOrigin seen (src ∷ bodies) =
      let r : List Entry × List Bytes = merge_nodes links unicode src.name 0 seen src.nodes in
      All-append (HasOrigin (src ∷ bodies)) r.0 (merge_sources links unicode r.1 bodies)
        (All-map (λ e m. record { src = src; among = inl refl; made = m }) r.0
          (merge_nodes-IsMade src.name 0 seen src.nodes))
        (All-map (λ e o. record { src = o.src; among = inr o.among; made = o.made })
          (merge_sources links unicode r.1 bodies) (merge_sources-HasOrigin r.1 bodies))

  -- Every merged entry is a usable node of one of the sources: its key is the node's, its address
  -- the one the filters judged, its line the node's line relabelled, and its label counts a node of
  -- that source.
  pub merge-HasOrigin :
      (bodies : List SourceBody) → All (HasOrigin bodies) (merge links unicode bodies)
  unfolding merge
  merge-HasOrigin bodies = merge_sources-HasOrigin [] bodies

  -- pairwise different labels
  abbrev pub HasDistinctLabels : List Entry → Type 0
  HasDistinctLabels [] = Unit
  HasDistinctLabels (e ∷ es) = All (λ (f : Entry). e.label ≢ f.label) es × HasDistinctLabels es

  merge_nodes-HasDistinctLabels :
      (name : Bytes) (kept : ℕ) (seen : List Bytes) (nodes : List NodeResult)
      → HasDistinctLabels (merge_nodes links unicode name kept seen nodes).0
  merge_nodes-HasDistinctLabels name kept seen [] = unfold merge_nodes in tt
  merge_nodes-HasDistinctLabels name kept seen (node ∷ nodes) =
      elim (Option-cases (admit links unicode name kept seen node)) [
        | inl skipped ↦
            rw (merge_nodes_skip links unicode name kept seen node nodes skipped)
              (merge_nodes-HasDistinctLabels name kept seen nodes)
        | inr (e, done) ↦ rw (merge_nodes_keep links unicode name kept seen node nodes e done) (
          All-map (λ f m. differs e f done m)
              (merge_nodes links unicode name (kept + 1) (e.addr ∷ seen) nodes).0
              (merge_nodes-IsMade name (kept + 1) (e.addr ∷ seen) nodes),
          merge_nodes-HasDistinctLabels name (kept + 1) (e.addr ∷ seen) nodes,
        )
      ]
    where
      differs :
          (e f : Entry)
          → admit links unicode name kept seen node ≡ some e
          → IsMade name nodes (kept + 1) f
          → e.label ≢ f.label
      differs e f done m same =
          let a = admit-IsAdmitted name kept seen node e done in
          let both =
            label_of-injective name name (kept + 1) m.count (sym a.label_is ∙ same ∙ m.label_is) in
          omega (arith, both.1, m.later)

  append-HasDistinctLabels :
      (es fs : List Entry)
      → HasDistinctLabels es
      → HasDistinctLabels fs
      → All (λ (e : Entry). All (λ (f : Entry). e.label ≢ f.label) fs) es
      → HasDistinctLabels (es ++ fs)
  append-HasDistinctLabels [] fs h k d = k
  append-HasDistinctLabels (e ∷ es) fs h k d = (
    All-append (λ (f : Entry). e.label ≢ f.label) es fs h.0 d.0,
    append-HasDistinctLabels es fs h.1 k d.1,
  )

  -- pairwise different source names, which the configuration promises
  abbrev pub HasDistinctNames : List SourceBody → Type 0
  HasDistinctNames [] = Unit
  HasDistinctNames (s ∷ ss) =
      ((t : SourceBody) → Among t ss → s.name ≢ t.name) × HasDistinctNames ss

  merge_sources-HasDistinctLabels :
      (seen : List Bytes) (bodies : List SourceBody)
      → HasDistinctNames bodies
      → HasDistinctLabels (merge_sources links unicode seen bodies)
  unfolding merge_sources
  merge_sources-HasDistinctLabels seen [] d = tt
  merge_sources-HasDistinctLabels seen (src ∷ bodies) d =
      let r : List Entry × List Bytes = merge_nodes links unicode src.name 0 seen src.nodes in
      append-HasDistinctLabels r.0 (merge_sources links unicode r.1 bodies)
        (merge_nodes-HasDistinctLabels src.name 0 seen src.nodes)
        (merge_sources-HasDistinctLabels r.1 bodies d.1)
        (All-map
          (λ e m.
            All-map (λ f o. differs e f m o) (merge_sources links unicode r.1 bodies)
              (merge_sources-HasOrigin r.1 bodies))
          r.0 (merge_nodes-IsMade src.name 0 seen src.nodes))
    where
      differs :
          (e f : Entry) → IsMade src.name src.nodes 0 e → HasOrigin bodies f → e.label ≢ f.label
      differs e f m o same =
          let both =
            label_of-injective src.name o.src.name m.count o.made.count
              (sym m.label_is ∙ same ∙ o.made.label_is) in
          d.0 o.src o.among both.0

  -- If the sources have pairwise different names, the merged entries have pairwise different
  -- labels.
  pub merge-HasDistinctLabels :
      (bodies : List SourceBody)
      → HasDistinctNames bodies
      → HasDistinctLabels (merge links unicode bodies)
  unfolding merge
  merge-HasDistinctLabels bodies d = merge_sources-HasDistinctLabels [] bodies d
