-- ===== src/Rewrite/Tests.antt =====
-- internal/rewrite/rewrite.go: runs of the definitions and instances of the theorems.
use sub_preprocessor.Base.{
  inl, inr, ◌≡◌, refl, none, some, List, [], ◌∷◌, codes, beq, has_byte, cut, starts_with, All,
}
use sub_preprocessor.Subscription.Node.{Node}
use sub_preprocessor.Rewrite.{Rewriters, strip_known_tags, node_name, is_known_tag, tag_at}
use sub_preprocessor.Rewrite.Tags.{Tag, IsTag}
use sub_preprocessor.Rewrite.Strip.{with_tags, IsStripped, strip_known_tags-IsStripped}
use sub_preprocessor.Rewrite.Lines.{node_name-tags}

abbrev tags : List Tag
tags =
    record { gap = []; text = codes "GEO:RU" }
    ∷ record { gap = codes " "; text = codes "ASN:SOME-AS, RU" }
    ∷ []

tags-IsTag : All IsTag tags
tags-IsTag =
    unfold has_byte in
    (
      record { blank = tt; closed = refl; known = inr (inr (inl (codes "RU", refl))) },
      (
        record {
          blank = (inl refl, tt);
          closed = refl;
          known = inr (inr (inr (inr (inl (codes "SOME-AS, RU", refl)))));
        },
        tt,
      ),
    )

abbrev node : Node
node = record {
  raw = codes "vless://u@a.com:443#x";
  scheme = codes "vless";
  name = codes "Moscow";
  server = codes "a.com";
  port = codes "443";
  fragment_idx = some 19;
}

abbrev no_rewriters : Rewriters
no_rewriters = record {
  rewrite_vmess_tagged = λ raw tags name. none;
  rewrite_vmess_aead_tagged = λ raw tags name. none;
  rewrite_ssr_tagged = λ raw tags name. none;
}

strip_run :
    (strip_known_tags (codes "[GEO:RU] [ASN:SOME-AS, RU] Moscow ") ≡ codes "Moscow")
    × (strip_known_tags (codes "[VIP][OK] x") ≡ codes "[VIP][OK] x")
unfolding strip_known_tags is_known_tag tag_at cut starts_with beq
strip_run = (refl, refl)

node_name_run :
    node_name no_rewriters node (codes "[GEO:AE]") ≡ codes "vless://u@a.com:443#[GEO:AE] Moscow"
unfolding node_name is_known_tag tag_at cut
node_name_run = refl

strip_known_tags-IsStripped_example :
    IsStripped (codes "[OK] [VIP] x") (strip_known_tags (codes "[OK] [VIP] x"))
strip_known_tags-IsStripped_example = strip_known_tags-IsStripped (codes "[OK] [VIP] x")

node_name-tags_example :
    node_name no_rewriters (record node { name = with_tags tags node.name }) (codes "[GEO:AE]")
    ≡ node_name no_rewriters node (codes "[GEO:AE]")
node_name-tags_example = node_name-tags no_rewriters node tags (codes "[GEO:AE]") tags-IsTag
