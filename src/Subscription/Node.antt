-- ===== src/Subscription/Node.antt =====
-- internal/subscription/subscription.go: a parsed node line and the schemes with a decoder of their
-- own.
use sub_preprocessor.Base.{ℕ, Option, Bytes, codes}

pub record Node : Type 0 where
  pub raw : Bytes
  pub scheme : Bytes
  pub name : Bytes
  pub server : Bytes
  pub port : Bytes
  -- the place of '#' in `raw`; the source writes -1 for none
  pub fragment_idx : Option ℕ

abbrev pub scheme_ss : Bytes
scheme_ss = codes "ss"

abbrev pub scheme_ssr : Bytes
scheme_ssr = codes "ssr"

abbrev pub scheme_mieru : Bytes
scheme_mieru = codes "mierus"

abbrev pub scheme_vmess : Bytes
scheme_vmess = codes "vmess"

abbrev pub scheme_hysteria2 : Bytes
scheme_hysteria2 = codes "hysteria2"

abbrev pub scheme_hy2 : Bytes
scheme_hy2 = codes "hy2"
