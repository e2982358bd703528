-- ===== src/Stable/Merge/Tests.antt =====
-- internal/stable/merge.go: runs of the definitions and instances of the theorems.
use sub_preprocessor.Base.{
  ◌≡◌, refl, inl, inr, true, none, some, List, [], ◌∷◌, ◌++◌, map, arith, if◌then◌else◌, Bytes,
  codes, beq, lower_byte,
}
use sub_preprocessor.Netip.{v4}
use sub_preprocessor.Subscription.Links.{Links}
use sub_preprocessor.Subscription.Node.{Node}
use sub_preprocessor.Stable.Merge.{
  SourceBody, Entry, merge, lower_server_port, usable, relabel_node, key_of, merge_nodes, admit,
  seen_key,
}
use sub_preprocessor.Preprocess.{NodeResult}
use sub_preprocessor.Stable.Label.{label_of}
use sub_preprocessor.Stable.Merge.Fresh.{HasDistinctKeys, merge-HasDistinctKeys}
use sub_preprocessor.Stable.Merge.Complete.{Offers, has_key, merge-has_key}
use sub_preprocessor.Stable.Merge.Labels.{HasDistinctNames}

abbrev unicode : Bytes → Bytes
unicode s = s

-- a line "server" is a node at port 443
abbrev node_of_line : Bytes → Node
node_of_line line = record {
  raw = line;
  scheme = codes "vless";
  name = line;
  server = line;
  port = codes "443";
  fragment_idx = none;
}

abbrev links : Links
links = record {
  parse_one = λ line. if beq line [] then none else some (node_of_line line);
  placeholder = λ raw server. beq server (codes "0.0.0.0");
  rewrite_vmess = λ line name. none;
  rewrite_vmess_aead = λ line name. none;
  rewrite_ssr = λ line name. none;
}

abbrev kept_line : Bytes → NodeResult
kept_line raw = record { raw = raw; ip = v4 7 }

abbrev first_source : SourceBody
first_source = record {
  name = codes "one";
  nodes = kept_line (codes "a.com") ∷ kept_line (codes "0.0.0.0") ∷ kept_line (codes "A.com") ∷ [];
}

abbrev second_source : SourceBody
second_source = record {
  name = codes "two";
  nodes = kept_line (codes "b.com") ∷ kept_line (codes "a.com") ∷ [];
}

abbrev sources : List SourceBody
sources = first_source ∷ second_source ∷ []

merge_run :
    map (λ (e : Entry). e.raw) (merge links unicode sources)
    ≡ codes "a.com#one-001" ∷ codes "b.com#two-001" ∷ []
unfolding merge merge_nodes admit beq seen_key relabel_node label_of key_of lower_server_port
    lower_byte
merge_run = refl

merge-HasDistinctKeys_example : HasDistinctKeys (merge links unicode sources)
merge-HasDistinctKeys_example = merge-HasDistinctKeys links unicode sources

names_differ : HasDistinctNames links unicode sources
names_differ = ((λ t m e. elim m [ inl q ↦ ground (arith, q, e) | inr n ↦ n ]), ((λ t m e. m), tt))

offered : Offers links unicode (codes "b.com:443") (kept_line (codes "b.com"))
unfolding usable relabel_node key_of beq lower_server_port lower_byte
offered = record {
  n = node_of_line (codes "b.com");
  is_usable = refl;
  relabels = λ label. (codes "b.com" ++ b'#' ∷ label, refl);
  key_is = refl;
}

merge-has_key_example : has_key (codes "b.com:443") (merge links unicode sources) ≡ true
merge-has_key_example =
    merge-has_key links unicode sources second_source (kept_line (codes "b.com"))
      (codes "b.com:443") (inr (inl refl)) (inl refl) offered
