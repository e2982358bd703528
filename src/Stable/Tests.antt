-- ===== src/Stable/Tests.antt =====
-- internal/stable: instances of the theorems on labels, keys, selection and publication.
use sub_preprocessor.Base.{
  ℕ, ◌≡◌, refl, false, Option, none, some, List, [], ◌∷◌, ◌++◌, map, arith, ◌==◌, if◌then◌else◌,
  Bytes, codes, beq, has_byte, trim_space, keep, any, All,
}
use sub_preprocessor.Base.Sort.{IsSorted, sort}
use sub_preprocessor.Ioutil.{lines, is_content}
use sub_preprocessor.Netip.{v4}
use sub_preprocessor.Subscription.Node.{Node}
use sub_preprocessor.Stable.Arena.{Arena, View, empty, intern, block_of, get_block, IsValid}
use sub_preprocessor.Stable.Merge.{Entry}
use sub_preprocessor.Stable.Select.{
  ProbeResult, Survivor, passed, pick, mean_leq, select_survivors, no_egress,
}
use sub_preprocessor.Stable.Select.Laws.{IsSelected, select_survivors_lem}
use sub_preprocessor.Stable.Publish.{Annotator, build_payload, written, render}
use sub_preprocessor.Stable.Publish.Laws.{published_line}
use sub_preprocessor.Stable.Publish.Lines.{IsLine, line_for, lines-build_payload}
use mathlib.Core.List.{Perm}

abbrev with_key : Arena × View
with_key = intern empty (codes "a.com:443")

with_key-IsValid : IsValid with_key.0 with_key.1
with_key-IsValid =
    unfold intern block_of get_block in record { block_exists = omega arith; inside = omega arith }

abbrev entry : Bytes → Entry
entry label = record { label = label; raw = label; addr = label; ip = v4 1; country = [] }

abbrev entries : List Entry
entries = entry (codes "a-001") ∷ entry (codes "a-002") ∷ entry (codes "b-001") ∷ []

abbrev result : ℕ → ℕ → ProbeResult
result successes mean_ms = record {
  successes = successes;
  mean_ms = mean_ms;
  stage = passed;
  unbound = false;
}

abbrev results : Bytes → Option ProbeResult
results label =
    if beq label (codes "a-001")
    then some (result 3 900)
    else if beq label (codes "a-002")
    then some (result 1 100)
    else some (result 2 200)

select_run :
    map (λ (s : Survivor). s.entry.label) (select_survivors entries results 3 1 1000)
    ≡ codes "b-001" ∷ codes "a-001" ∷ []
unfolding select_survivors sort beq
select_run = refl

select_survivors_lem_example :
    All (IsSelected results 3 1 1000) (select_survivors entries results 3 1 1000)
    × IsSorted mean_leq (select_survivors entries results 3 1 1000)
    × (keep (λ (s : Survivor). s.mean_ms == 200) (select_survivors entries results 3 1 1000)
        ≡ keep (λ (s : Survivor). s.mean_ms == 200) (pick entries results 3 1 1000))
    × Perm (select_survivors entries results 3 1 1000) (pick entries results 3 1 1000)
select_survivors_lem_example = select_survivors_lem results 3 1 1000 entries 200

abbrev parse_one : Bytes → Option Node
parse_one line = some (record {
  raw = line;
  scheme = codes "vless";
  name = line;
  server = line;
  port = codes "443";
  fragment_idx = none;
})

abbrev annotate : Annotator
annotate request = (request.prefix ++ request.node.raw, record { hi = b'D'; lo = b'E' })

abbrev survivors : List Survivor
survivors =
    record { entry = entry (codes "a-001"); mean_ms = 100; mbps = 12; egress = no_egress } ∷ []

survivors-IsLine : All IsLine (map (line_for parse_one (some annotate)) survivors)
survivors-IsLine =
    unfold line_for published_line is_content written render trim_space has_byte any in
    (record { no_end = refl; trimmed = refl; content = refl }, tt)

lines-build_payload_example :
    lines (build_payload parse_one (some annotate) survivors).1
    ≡ map (line_for parse_one (some annotate)) survivors
lines-build_payload_example =
    lines-build_payload parse_one (some annotate) survivors survivors-IsLine
