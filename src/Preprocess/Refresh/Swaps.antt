-- ===== src/Preprocess/Refresh/Swaps.antt =====
-- internal/preprocess/processor.go: that no run of reloads empties a database.
use sub_preprocessor.Base.{
  ℕ, ◌*◌, ◌≤◌, ◌<◌, ◌≡◌, refl, sym, ap, ◌⊎◌, inl, inr, true, not, Option, none, some, List, [], ◌∷◌,
  arith, ltb, Bool-cases, if_either,
}
use mathlib.Core.Path.{subst}
use sub_preprocessor.Preprocess.Refresh.{
  swap_refusal, swap_refusal_size, size_or_zero, DbState, Load, schedule_retry, accept, do_reload,
  is_allowed, Db, DbEvent, refresh_asked, reload_ended, db_step, db_run, is_stale,
}

module _ {D : Type 0} (measure : D → Option ℕ) (empty : D) where
  -- The database reports a size that is not zero.
  abbrev pub HasData : DbState D → Type 0
  HasData st = 0 < size_or_zero (measure st.lookup)

  -- what an allowed swap of a database with data brings: at least half of its size, and every source
  allowed_size :
      (current loaded : Option ℕ) (failed : ℕ)
      → 0 < size_or_zero current
      → is_allowed measure empty (swap_refusal current loaded failed) ≡ true
      → (size_or_zero current ≤ 2 * size_or_zero loaded) × (failed ≡ 0)
  unfolding swap_refusal swap_refusal_size
  allowed_size none loaded failed h y = absurd (omega (arith, h))
  allowed_size (some current) loaded failed h y = (ground (arith, h, y), ground (arith, h, y))

  -- how a reload moves a database with data: the data stay, or all sources answered with at least
  -- half of its size
  abbrev pub IsSafeSwap : DbState D → Load D → DbState D → Type 0
  IsSafeSwap before answer after =
      (after.lookup ≡ before.lookup)
      ⊎ ((answer ≡ some (after.lookup, 0))
          × (size_or_zero (measure before.lookup) ≤ 2 * size_or_zero (measure after.lookup)))

  accept_lookup :
      (interval now failed : ℕ) (next : D) (st : DbState D)
      → (accept measure empty interval now next failed st).lookup ≡ next
  unfolding accept schedule_retry
  accept_lookup interval now failed next st =
      if_either (λ (s : DbState D). s.lookup ≡ next) (ltb 0 failed) _ _ refl λ whole. refl

  do_reload-IsSafeSwap :
      (interval now : ℕ) (answer : Load D) (st : DbState D)
      → HasData st
      → IsSafeSwap st answer (do_reload measure empty interval now answer st)
  unfolding do_reload schedule_retry
  do_reload-IsSafeSwap interval now none st h = inl refl
  do_reload-IsSafeSwap interval now (some (next, failed)) st h =
      elim (Bool-cases
        (is_allowed measure empty (swap_refusal (measure st.lookup) (measure next) failed))) [
          | inr n ↦ rw n (inl refl)
          | inl y ↦
              let (half, whole) = allowed_size (measure st.lookup) (measure next) failed h y in
              let e = accept_lookup interval now failed next st in
              rw y (
                inr (
                  ap (λ (p : D × ℕ). some p)
                      (pair next (accept measure empty interval now next failed st).lookup failed 0
                        (sym e) whole),
                  subst (λ d. size_or_zero (measure st.lookup) ≤ 2 * size_or_zero (measure d))
                      (sym e) half,
                ))
        ]
    where
      pair : (a b : D) (i j : ℕ) → a ≡ b → i ≡ j → ◌≡◌ {A = D × ℕ} (a, i) (b, j)
      pair a b i j e f = cc

  safe-HasData :
      (before after : DbState D) (answer : Load D)
      → HasData before
      → IsSafeSwap before answer after
      → HasData after
  safe-HasData before after answer h (inl same) =
      subst (λ d. 0 < size_or_zero (measure d)) (sym same) h
  safe-HasData before after answer h (inr swapped) = omega (arith, h, swapped.1)

  db_step-HasData :
      (interval : ℕ) (e : DbEvent measure empty) (db : Db measure empty)
      → HasData db.state
      → HasData (db_step measure empty interval e db).state
  unfolding db_step
  db_step-HasData interval (refresh_asked now) db h =
      if_either (λ (d : Db measure empty). HasData d.state)
        (not (is_stale measure empty interval now db.state)) _ _ h λ stale. h
  db_step-HasData interval (reload_ended now answer) db h =
      if_either (λ (d : Db measure empty). HasData d.state) (not db.is_reloading) _ _ h
        λ runs.
          safe-HasData db.state (do_reload measure empty interval now answer db.state) answer h
            (do_reload-IsSafeSwap interval now answer db.state h)

  -- A database with data has data after any reloads, whatever they return and whenever they are
  -- asked for and end.
  pub db_run-HasData :
      (interval : ℕ) (es : List (DbEvent measure empty)) (db : Db measure empty)
      → HasData db.state
      → HasData (db_run measure empty interval es db).state
  unfolding db_run
  db_run-HasData interval [] db h = h
  db_run-HasData interval (e ∷ es) db h =
      db_run-HasData interval es (db_step measure empty interval e db)
        (db_step-HasData interval e db h)
