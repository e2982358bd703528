-- ===== src/Geoblock/Tests.antt =====
-- internal/geoblock/store.go: runs of the definitions and instances of the theorems.
use sub_preprocessor.Base.{
  ◌+◌, ◌≡◌, refl, ◌≢◌, true, false, none, List, [], ◌∷◌, arith, ltb, if◌then◌else◌, AllSome, Bytes,
  codes, beq,
}
use sub_preprocessor.Geoblock.{Table, Store, host_key, is_blocked, block, open_store}
use sub_preprocessor.Geoblock.Verdicts.{IsStore, is_blocked-block}
use sub_preprocessor.Geoblock.Restart.{Operation, add, clear, run, fresh_store, open_store-run}

abbrev same_text : Bytes → Bytes
same_text s = s

abbrev store : Store
store = record {
  ttl = 100;
  blocked = (codes "a.com", 50) ∷ (codes "b.com", 90) ∷ [];
  rows = (codes "a.com", 50) ∷ (codes "b.com", 90) ∷ [];
}

store-IsStore : IsStore store
store-IsStore =
    unfold beq in record { cache = ((refl, tt), (tt, tt)); table = ((refl, tt), (tt, tt)) }

block_run :
    is_blocked same_text 60 (codes "A.COM.") (block same_text true 40 (codes "a.com") store).0
    ≡ true
unfolding is_blocked block
block_run = refl

is_blocked-block_example :
    is_blocked same_text 60 (codes "A.COM.") (block same_text false 40 (codes "a.com") store).0 ≡ (
      if beq (host_key same_text (codes "A.COM.")) (host_key same_text (codes "a.com"))
      then ltb 60 (40 + store.ttl)
      else is_blocked same_text 60 (codes "A.COM.") store)
is_blocked-block_example =
    is_blocked-block same_text false 40 60 (codes "a.com") (codes "A.COM.") store
      (λ e. ground (arith, e)) (λ e. ground (arith, e))

abbrev old_rows : Table
old_rows = (codes "A.com.", 70) ∷ (codes "a.com", 50) ∷ []

abbrev operations : List Operation
operations = add 10 (codes "A.com.") ∷ clear 20 ∷ add 30 (codes "b.com") ∷ []

open_store-run_example :
    (open_store same_text true true 100 40
        (run same_text operations (fresh_store same_text 100)).rows
      ≢ none)
    × AllSome
        (λ reopened.
          is_blocked same_text 115 (codes "b.com") reopened
          ≡ is_blocked same_text 115
              (codes "b.com")
              (run same_text operations (fresh_store same_text 100)))
        (open_store same_text true true 100 40
          (run same_text operations (fresh_store same_text 100)).rows)
open_store-run_example =
    open_store-run same_text 100 40 115 (codes "b.com") operations
      (unfold host_key in (refl, (tt, (refl, tt)))) (omega arith)
