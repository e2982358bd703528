-- ===== src/Ghfind/Tests.antt =====
-- internal/ghfind: runs of the definitions and instances of the theorems.
use sub_preprocessor.Base.{ℕ, ◌≤◌, ◌≡◌, refl, List, [], ◌∷◌, length}
use sub_preprocessor.Ghfind.Cover.{cover, missing, holds}
use sub_preprocessor.Ghfind.Cover.Greedy.{IsGreedy, cover-IsGreedy}

abbrev hashes : List (List ℕ)
hashes = (1 ∷ 2 ∷ []) ∷ (2 ∷ 3 ∷ 4 ∷ []) ∷ (1 ∷ 5 ∷ []) ∷ (3 ∷ []) ∷ []

cover_run : cover hashes 1 3 ≡ 1 ∷ 2 ∷ []
unfolding cover missing holds
cover_run = refl

cover-IsGreedy_example :
    IsGreedy hashes 1 [] [] (cover hashes 1 3) × (length (cover hashes 1 3) ≤ 3)
cover-IsGreedy_example = cover-IsGreedy hashes 1 3
