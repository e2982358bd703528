-- ===== src/Stable/Dead/Tests.antt =====
-- internal/stable/deadset.go: instances of the theorems.
use sub_preprocessor.Base.{◌≡◌, refl, true, codes}
use sub_preprocessor.Netip.{v4}
use sub_preprocessor.Stable.Dead.{DeadSet, is_dead, mark, new_dead_set}

abbrev marked : DeadSet
marked = mark 30 1000 (codes "a.com:443") (v4 7) (new_dead_set 100)

mark_run : is_dead 1129 (codes "a.com:443") (v4 7) marked ≡ true
unfolding is_dead mark
mark_run = refl
