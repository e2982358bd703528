-- ===== src/Stable/Merge/Capacity.antt =====
-- `mergeGrowTarget`: where the entries are to grow, they get room for one more, and never for more
-- than the whole input.
use sub_preprocessor.Base.{ℕ, ◌≤◌, ◌<◌, ◌≡◌, ◌↔◌, ◌⊎◌, arith}
use sub_preprocessor.Stable.Merge.{grow_target}

-- A target is given exactly when the slice is full below the total; it is at most the total, and
-- leaves room for the next entry if the current source has a node.
pub grow_target_bounds :
    (len capacity total processed novel prev_nodes src_nodes : ℕ)
    → 0 < src_nodes
    → let want = grow_target len capacity total processed novel prev_nodes src_nodes in
      (want ≤ total)
      × ((0 < want) ↔ ((len ≡ capacity) × (len < total)))
      × ((want ≡ 0) ⊎ (len < want))
unfolding grow_target
grow_target_bounds len capacity total processed novel prev_nodes src_nodes h = ground arith
