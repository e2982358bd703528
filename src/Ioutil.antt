-- ===== src/Ioutil.antt =====
-- internal/ioutil/ioutil.go: the iterator over the lines of a body.
use sub_preprocessor.Base.{
  ℕ, zero, suc, ◌+◌, Bool, false, not, List, [], ◌∷◌, Option, none, some, ◌≡◌, refl, ◌==◌,
  if◌then◌else◌, Bytes, cut, trim_space, length, codes,
}

-- a trimmed line that is neither empty nor a comment
unfoldable pub is_content : Bytes → Bool
is_content [] = false
is_content (c ∷ cs) = not (c == b'#')

-- What a round of `Next` does with what stands before and behind the first line end of `remain`;
-- `later` goes on with the rest.
unfoldable pub next_of :
    Bytes → (Bytes → Option (Bytes × Bytes)) → Option (Bytes × Bytes) → Option (Bytes × Bytes)
unfolding is_content trim_space
next_of remain later none =
    let line = trim_space remain in if is_content line then some (line, []) else none
next_of remain later (some (head, rest)) =
    let line = trim_space head in
    let skipped = later rest in if is_content line then some (line, rest) else skipped

-- `Next`: the line found and what remains; `fuel` bounds the skipped lines
unfoldable pub next : ℕ → Bytes → Option (Bytes × Bytes)
unfolding next_of
next zero remain = none
next (suc fuel) [] = none
next (suc fuel) (c ∷ cs) = next_of (c ∷ cs) (next fuel) (cut b'\n' (c ∷ cs))

-- `for line := it.Next(); line != nil; line = it.Next()`
unfoldable pub lines_from : ℕ → Bytes → List Bytes
unfolding next
lines_from zero remain = []
lines_from (suc fuel) remain = elim (next (length remain + 1) remain) [
  | none ↦ []
  | some (line, rest) ↦ line ∷ lines_from fuel rest
]

-- Every call shortens what remains, so the length of the body bounds the number of lines.
unfoldable pub lines : Bytes → List Bytes
unfolding lines_from
lines body = lines_from (length body + 1) body

lines_run : lines (codes " a \n# x\n\n b") ≡ codes "a" ∷ codes "b" ∷ []
unfolding lines cut
lines_run = refl
