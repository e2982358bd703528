-- ===== src/Rewrite/Lines.antt =====
-- internal/rewrite/rewrite.go: what `NodeName` writes.
use sub_preprocessor.Base.{◌≡◌, List, Bytes, All}
use sub_preprocessor.Subscription.Node.{Node}
use sub_preprocessor.Rewrite.{Rewriters, node_name}
use sub_preprocessor.Rewrite.Tags.{Tag, IsTag}
use sub_preprocessor.Rewrite.Strip.{with_tags, strip_known_tags-tags}

-- A node whose name carries known tags is written as the same node without them, whatever its
-- scheme: tags do not pile up.
pub node_name-tags :
    (rewriters : Rewriters) (node : Node) (ts : List Tag) (tags : Bytes)
    → All IsTag ts
    → node_name rewriters (record node { name = with_tags ts node.name }) tags
      ≡ node_name rewriters node tags
unfolding node_name
node_name-tags rewriters node ts tags h = let e = strip_known_tags-tags ts node.name h in rw e
