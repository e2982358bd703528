-- ===== src/Stable/Publish/Lines.antt =====
-- The published list read by the line iterator of internal/ioutil.
use sub_preprocessor.Base.{
  cut-append, ℕ, zero, suc, ◌+◌, ◌≤◌, ◌≡◌, refl, ap, ◌∙◌, true, false, Option, none, some, List, [],
  ◌∷◌, ◌++◌, map, arith, Bytes, has_byte, cut, trim_space, length, length-append, All,
}
use native.Mathlib.Numerals.{add-one}
use mathlib.Core.List.{append_assoc}
use sub_preprocessor.Ioutil.{next_of, is_content, next, lines_from, lines}
use sub_preprocessor.Subscription.Node.{Node}
use sub_preprocessor.Stable.Select.{Survivor}
use sub_preprocessor.Stable.Publish.{Annotator, build_payload, line_of}
use sub_preprocessor.Stable.Publish.Laws.{
  published_line, join_lines, annotated_payload_lem, plain_payload_lem,
}

-- a text that the iterator returns as it stands
pub record IsLine (s : Bytes) : Type 0 where
  pub no_end : has_byte b'\n' s ≡ false
  pub trimmed : trim_space s ≡ s
  pub content : is_content s ≡ true

next_of_line :
    (remain s rest : Bytes) (later : Bytes → Option (Bytes × Bytes))
    → IsLine s
    → next_of remain later (some (s, rest)) ≡ some (s, rest)
next_of_line remain s rest later l = opened l.trimmed l.content
  where
    opened :
        trim_space s ≡ s
        → is_content s ≡ true
        → next_of remain later (some (s, rest)) ≡ some (s, rest)
    opened t c = unfold next_of in rw t (rw c)

next_step :
    (s rest : Bytes) (fuel : ℕ)
    → next (suc fuel) (s ++ b'\n' ∷ rest)
      ≡ next_of (s ++ b'\n' ∷ rest) (next fuel) (cut b'\n' (s ++ b'\n' ∷ rest))
unfolding next
next_step [] rest fuel = refl
next_step (c ∷ cs) rest fuel = refl

next-line :
    (s rest : Bytes) (fuel : ℕ) → IsLine s → next (suc fuel) (s ++ b'\n' ∷ rest) ≡ some (s, rest)
next-line s rest fuel l =
    next_step s rest fuel
    ∙ ap (next_of (s ++ b'\n' ∷ rest) (next fuel)) (cut-append b'\n' s rest l.no_end)
    ∙ next_of_line (s ++ b'\n' ∷ rest) s rest (next fuel) l

lines_from-join_lines :
    (ls : List Bytes) (fuel : ℕ)
    → length ls ≤ fuel
    → All IsLine ls
    → lines_from fuel (join_lines ls) ≡ ls
lines_from-join_lines [] zero h w = unfold lines_from in refl
lines_from-join_lines [] (suc fuel) h w = unfold lines_from next in refl
lines_from-join_lines (l ∷ ls) zero h w = absurd (omega arith)
lines_from-join_lines (l ∷ ls) (suc fuel) h w =
    first_line ∙ ap (λ r. l ∷ r) (lines_from-join_lines ls fuel (omega arith) w.1)
  where
    found : next (length (join_lines (l ∷ ls)) + 1) (join_lines (l ∷ ls)) ≡ some (l, join_lines ls)
    found =
        rw (add-one, append_assoc l (b'\n' ∷ []) (join_lines ls))
          (next-line l (join_lines ls) (length (l ++ b'\n' ∷ join_lines ls)) w.0)

    first_line : lines_from (suc fuel) (join_lines (l ∷ ls)) ≡ l ∷ lines_from fuel (join_lines ls)
    first_line = unfold lines_from in rw (found, lines_from)

length-join_lines : (ls : List Bytes) → length ls ≤ length (join_lines ls)
length-join_lines [] = omega arith
length-join_lines (l ∷ ls) = omega (
  arith,
  length-join_lines ls,
  length-append (line_of l) (join_lines ls),
  length-append l (b'\n' ∷ []),
)

-- The iterator gives back the lines that were written, each with its end.
pub lines-join_lines : (ls : List Bytes) → All IsLine ls → lines (join_lines ls) ≡ ls
unfolding lines
lines-join_lines ls w =
    lines_from-join_lines ls (length (join_lines ls) + 1) (omega (arith, length-join_lines ls)) w

-- the line that a survivor is published as, with an annotator or without one
unfoldable pub line_for : (Bytes → Option Node) → Option Annotator → Survivor → Bytes
line_for parse_one none s = s.entry.raw
line_for parse_one (some annotate) s = published_line parse_one annotate s

-- If the line published for each survivor is one trimmed line that is no comment, the published
-- list read line by line is these lines in the order of the survivors.
pub lines-build_payload :
    (parse_one : Bytes → Option Node) (ann : Option Annotator) (ss : List Survivor)
    → All IsLine (map (line_for parse_one ann) ss)
    → lines (build_payload parse_one ann ss).1 ≡ map (line_for parse_one ann) ss
unfolding build_payload line_for
lines-build_payload parse_one none ss w =
    ap lines (plain_payload_lem ss) ∙ lines-join_lines (map (λ (s : Survivor). s.entry.raw) ss) w
lines-build_payload parse_one (some annotate) ss w =
    ap lines (annotated_payload_lem parse_one annotate ss).0
    ∙ lines-join_lines (map (published_line parse_one annotate) ss) w
