-- ===== src/Rewrite/Strip.antt =====
-- internal/rewrite/rewrite.go: what `StripKnownTags` takes off a name.
use sub_preprocessor.Base.{
  ◌≢◌, ap, ℕ, zero, suc, ◌+◌, ◌≤◌, ◌<◌, ◌≡◌, refl, sym, ◌∙◌, inl, inr, none, some, List, [], ◌∷◌,
  arith, Option-cases, Bytes, cut, trim_space, length, All,
}
use sub_preprocessor.Rewrite.{tag_at, skip_gap, after_tag, strip_from, strip_known_tags}
use sub_preprocessor.Rewrite.Tags.{
  Tag, IsTag, written_tag, after_tag-written, after_tag-IsTag, trim_space-skip_gap,
}

skip_gap-length : (s : Bytes) → length (skip_gap s) ≤ length s
unfolding skip_gap
skip_gap-length [] = ground arith
skip_gap-length (c ∷ s) = let ih = skip_gap-length s in ground (arith, ih)

cut-length : (b : ℕ) (s x y : Bytes) → cut b s ≡ some (x, y) → length y < length s
unfolding cut
cut-length b [] x y e = ground arith
cut-length b (c ∷ s) x y e = elim (Option-cases (cut b s)) [
  | inl n ↦ ground (arith, n, e)
  | inr (p, q) ↦ let ih = cut-length b s p.0 p.1 q in ground (arith, ih, q, e)
]

tag_at-length : (s rest : Bytes) → tag_at s ≡ some rest → length rest < length s
unfolding tag_at
tag_at-length [] rest e = ground arith
tag_at-length (c ∷ s) rest e = elim (Option-cases (cut b']' s)) [
  | inl n ↦ ground (arith, n, e)
  | inr (p, q) ↦ let l = cut-length b']' s p.0 p.1 q in ground (arith, l, q, e)
]

after_tag-length : (s rest : Bytes) → after_tag s ≡ some rest → length rest < length s
unfolding after_tag
after_tag-length s rest e =
    let l = tag_at-length (skip_gap s) rest e in let g = skip_gap-length s in omega (arith, l, g)

strip_from-bare :
    (fuel : ℕ) (s : Bytes) → after_tag s ≡ none → strip_from (suc fuel) s ≡ trim_space (skip_gap s)
unfolding strip_from
strip_from-bare fuel s e = ground (arith, e)

strip_from-tagged :
    (fuel : ℕ) (s rest : Bytes)
    → after_tag s ≡ some rest
    → strip_from (suc fuel) s ≡ strip_from fuel rest
unfolding strip_from
strip_from-tagged fuel s rest e = ground (arith, e)

-- More fuel than the name has bytes is enough.
strip_from-fuel :
    (fuel fuel' : ℕ) (s : Bytes)
    → length s < fuel
    → length s < fuel'
    → strip_from fuel s ≡ strip_from fuel' s
unfolding strip_from
strip_from-fuel zero fuel' s h h' = ground arith
strip_from-fuel fuel zero s h h' = ground arith
strip_from-fuel (suc fuel) (suc fuel') s h h' = elim (Option-cases (after_tag s)) [
  | inl n ↦ strip_from-bare fuel s n ∙ sym (strip_from-bare fuel' s n)
  | inr (rest, e) ↦
      let l = after_tag-length s rest e in
      strip_from-tagged fuel s rest e
      ∙ strip_from-fuel fuel fuel' rest (ground (arith, l)) (ground (arith, l))
      ∙ sym (strip_from-tagged fuel' s rest e)
]

pub strip_known_tags_step :
    (s rest : Bytes) → after_tag s ≡ some rest → strip_known_tags s ≡ strip_known_tags rest
unfolding strip_known_tags
strip_known_tags_step s rest e =
    let l = after_tag-length s rest e in
    strip_from-fuel (length s + 1) (suc (length s)) s (omega arith) (omega arith)
    ∙ strip_from-tagged (length s) s rest e
    ∙ strip_from-fuel (length s) (length rest + 1) rest l (omega arith)

abbrev pub with_tags : List Tag → Bytes → Bytes
with_tags [] name = name
with_tags (t ∷ ts) name = written_tag t (with_tags ts name)

-- A name behind any number of known tags, with blanks before each, strips to what the name alone
-- strips to.
pub strip_known_tags-tags :
    (ts : List Tag) (name : Bytes)
    → All IsTag ts
    → strip_known_tags (with_tags ts name) ≡ strip_known_tags name
strip_known_tags-tags [] name h = refl
strip_known_tags-tags (t ∷ ts) name h =
    strip_known_tags_step _ _ (after_tag-written t (with_tags ts name) h.0)
    ∙ strip_known_tags-tags ts name h.1

-- the name starts with no known tag
abbrev pub IsBare : Bytes → Type 0
IsBare name = (t : Tag) (rest : Bytes) → IsTag t → name ≢ written_tag t rest

-- the name is a row of known tags before a bare rest, which is the stripped name but for white space
abbrev pub IsStripped : Bytes → Bytes → Type 0
IsStripped name stripped =
    (ts : List Tag) × (rest : Bytes) × All IsTag ts
    × (name ≡ with_tags ts rest)
    × IsBare rest
    × (stripped ≡ trim_space rest)

after_tag-IsBare : (s : Bytes) → after_tag s ≡ none → IsBare s
after_tag-IsBare s n t rest h e =
    let k : after_tag s ≡ some rest = ap (λ x. after_tag x) e ∙ after_tag-written t rest h in cc

strip_from-IsStripped : (fuel : ℕ) (s : Bytes) → length s < fuel → IsStripped s (strip_from fuel s)
strip_from-IsStripped zero s h = absurd (omega (arith, h))
strip_from-IsStripped (suc fuel) s h = elim (Option-cases (after_tag s)) [
  | inl n ↦
      ([], s, tt, refl, after_tag-IsBare s n, strip_from-bare fuel s n ∙ trim_space-skip_gap s)
  | inr (rest, e) ↦
      let l = after_tag-length s rest e in
      let (t, k, w) = after_tag-IsTag s rest e in
      let (ts, bare, tags, a, b, c) = strip_from-IsStripped fuel rest (omega (arith, h, l)) in
      (
        t ∷ ts,
        bare,
        (k, tags),
        w ∙ ap (λ x. written_tag t x) a,
        b,
        strip_from-tagged fuel s rest e ∙ c,
      )
]

-- Every name is a row of known tags, with spaces or tabs before each, and a rest that starts
-- with no known tag; stripping the name gives this rest without the white space around it.
pub strip_known_tags-IsStripped : (s : Bytes) → IsStripped s (strip_known_tags s)
unfolding strip_known_tags
strip_known_tags-IsStripped s = strip_from-IsStripped (length s + 1) s (omega arith)
