-- ===== src/Subscription/Parser/Tests.antt =====
-- internal/subscription/subscription.go: runs of the definitions and instances of the theorems.
use sub_preprocessor.Base.{
  ◌≡◌, refl, ◌⊎◌, none, some, List, [], ◌∷◌, arith, AllSome, Bytes, codes, beq, has_byte,
  starts_with, lower_byte, any, every,
}
use sub_preprocessor.Subscription.Parser.{parse_node, cut_sep, is_scheme_byte, valid_scheme}
use sub_preprocessor.Subscription.Endpoint.{Decoders}
use sub_preprocessor.Subscription.Endpoint.{port_number, mieru_port, split_host_port}
use sub_preprocessor.Subscription.Parser.Nodes.{IsNode, IsDecoded, parse_node-IsNode}
use sub_preprocessor.Subscription.Parser.Links.{
  Link, IsLink, link_text, node_of, parse_node-link_text,
}

abbrev no_decoders : Decoders
no_decoders = record {
  parse_vmess = λ line i. none;
  parse_ssr = λ line rest. none;
  raw_std_decode = λ s. none;
}

abbrev link : Link
link = record {
  scheme = codes "vless";
  user = codes "u@x";
  server = codes "a.com";
  port = codes "443";
  fragment = codes " My #1 ";
}

link-IsLink : IsLink link
link-IsLink =
    unfold valid_scheme is_scheme_byte every any beq has_byte starts_with lower_byte in
    record {
      scheme = refl;
      lower = refl;
      generic = refl;
      plain = refl;
      server = refl;
      host = refl;
      named = (refl, λ e. ground (arith, e));
      port = (refl, λ e. ground (arith, e));
    }

parse_node-link_text_example : parse_node no_decoders (link_text link) ≡ some (node_of link)
parse_node-link_text_example = parse_node-link_text no_decoders link link-IsLink

parse_runs :
    (parse_node no_decoders (codes "https://example.com/docs") ≡ none)
    × (split_host_port (codes "u@[::1]:8443") ≡ (codes "::1", codes "8443"))
    × (mieru_port (codes "?port=abc&port=3000&protocol=TCP&protocol=UDP#x") ≡ some (codes "3000"))
    × (mieru_port (codes "?port=3000") ≡ none)
    × (port_number (codes "0443") ≡ none)
unfolding parse_node mieru_port port_number split_host_port
parse_runs = (refl, refl, refl, refl, refl)

abbrev web_line : Bytes
web_line = codes "hy2://pw@b.com?x=1"

parse_node-IsNode_example :
    AllSome
      (λ node.
        IsNode web_line node
        ⊎ ((text : Bytes) × (rest : Bytes) × (cut_sep web_line ≡ some (text, rest))
            × IsDecoded text))
      (parse_node no_decoders web_line)
parse_node-IsNode_example = parse_node-IsNode no_decoders web_line

abbrev body_lines : List Bytes
body_lines = web_line ∷ codes "not a link" ∷ codes "vless://u@a.com" ∷ []
