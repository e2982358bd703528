-- ===== src/Stable/Merge/Steps.antt =====
-- One round of the inner loop of `Merge` as two equations.
use sub_preprocessor.Base.{ℕ, ◌+◌, ◌≡◌, none, some, List, ◌∷◌, Bytes}
use sub_preprocessor.Subscription.Links.{Links}
use sub_preprocessor.Stable.Merge.{Entry, admit, merge_nodes}
use sub_preprocessor.Preprocess.{NodeResult}

module _ (links : Links) (unicode : Bytes → Bytes) (name : Bytes) (kept : ℕ) (seen : List Bytes)
    (node : NodeResult) (nodes : List NodeResult) where
  pub merge_nodes_skip :
      admit links unicode name kept seen node ≡ none
      → merge_nodes links unicode name kept seen (node ∷ nodes)
        ≡ merge_nodes links unicode name kept seen nodes
  unfolding merge_nodes
  merge_nodes_skip h = rw (h, merge_nodes)

  pub merge_nodes_keep :
      (e : Entry)
      → admit links unicode name kept seen node ≡ some e
      → merge_nodes links unicode name kept seen (node ∷ nodes) ≡ (
        e ∷ (merge_nodes links unicode name (kept + 1) (e.addr ∷ seen) nodes).0,
        (merge_nodes links unicode name (kept + 1) (e.addr ∷ seen) nodes).1,
      )
  unfolding merge_nodes
  merge_nodes_keep e h = rw (h, merge_nodes)
