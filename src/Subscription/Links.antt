-- ===== src/Subscription/Links.antt =====
-- What internal/stable uses of the share-link code of internal/subscription, as an interface: the
-- line parser, the placeholder test and the rewriters of a name inside a payload.
use sub_preprocessor.Base.{Bool, Option, Bytes}
use sub_preprocessor.Subscription.Node.{Node}

pub record Links : Type 0 where
  -- the first node that `Parse` yields of a line
  pub parse_one : Bytes → Option Node
  -- `PlaceholderNode(raw, server)`
  pub placeholder : Bytes → Bytes → Bool
  -- `RewriteVmessName`, `RewriteVmessAEADName` and `RewriteSSRName`, of a line and a name
  pub rewrite_vmess : Bytes → Bytes → Option Bytes
  pub rewrite_vmess_aead : Bytes → Bytes → Option Bytes
  pub rewrite_ssr : Bytes → Bytes → Option Bytes
