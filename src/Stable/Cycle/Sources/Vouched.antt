-- ===== src/Stable/Cycle/Sources/Vouched.antt =====
-- internal/stable/checker.go over internal/preprocess: what the filters of the processor promise of
-- the entries that a cycle merges.
use sub_preprocessor.Base.{get_elem?, ℕ, ◌+◌, ◌≡◌, some, List, Bytes, All}
use sub_preprocessor.Filter.{CountrySet, full_set}
use sub_preprocessor.Subscription.Links.{Links}
use sub_preprocessor.Preprocess.{NodeResult, FilterRequest}
use sub_preprocessor.Preprocess.Nodes.{body_for, Surroundings, filter_nodes}
use sub_preprocessor.Preprocess.Nodes.Judged.{IsJudged}
use sub_preprocessor.Stable.Merge.{key_of, usable, SourceBody, Entry}
use sub_preprocessor.Stable.Cycle.Sources.{SubscriptionSource, Answer, request_of}
use sub_preprocessor.Subscription.Node.{Node}
use sub_preprocessor.Stable.Label.{label_of}

-- the answers are what `FilterNodes` returns, each source with its own surroundings
module _ (links : Links) (unicode : Bytes → Bytes) (around : ℕ → Surroundings)
    (denied : CountrySet) where
  -- the node is one that the filters passed for the source: `judged` names its line in the body
  pub record IsFrom (at : ℕ) (src : SubscriptionSource) (r : NodeResult) : Type 0 where
    pub body : Bytes
    pub is_body : body_for (around at) (request_of denied src) ≡ some body
    pub judged : IsJudged (around at) body full_set denied r

  -- the filters passed the node for a source of this name, the surroundings counted from `i`
  pub record HasPassed (i : ℕ) (sources : List SubscriptionSource) (name : Bytes) (r : NodeResult)
      : Type 0 where
    pub place : ℕ
    pub src : SubscriptionSource
    pub is_there : get_elem? sources place ≡ some src
    pub is_named : src.name ≡ name
    pub is_from : IsFrom (i + place) src r

  -- the entry has the name of a source, and the key and the address of a node that passed the
  -- filters for this source
  pub record IsVouched (sources : List SubscriptionSource) (e : Entry) : Type 0 where
    pub name : Bytes
    pub count : ℕ
    pub r : NodeResult
    pub n : Node
    pub is_labelled : e.label ≡ label_of name count
    pub passed : HasPassed 0 sources name r
    pub is_usable : usable links r ≡ some n
    pub has_key : e.addr ≡ key_of unicode n
    pub has_ip : e.ip ≡ r.ip

  abbrev pub answers : ℕ → FilterRequest → Answer
  answers i req = filter_nodes (around i) req

  -- every node of the body passed the filters for a source of the body's name
  abbrev IsPassed : ℕ → List SubscriptionSource → SourceBody → Type 0
  IsPassed i sources b = All (HasPassed i sources b.name) b.nodes
