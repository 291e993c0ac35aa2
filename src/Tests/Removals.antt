-- ===== src/Tests/Removals.antt =====
-- A removal in the example map, of a key that has an older entry.
use skl_rs.Prelude.{ℕ, ◌≡◌, refl, none, [], ◌∷◌, done, fault, panic, out_of_fuel, arith}
use skl_rs.Api.{get_or_remove}
use skl_rs.Comparator.{ascend, slice_cmp, u64_trailer}
use skl_rs.Comparator.Laws.{eq_of_slice_cmp}
use skl_rs.Map.{SkipMap}
use skl_rs.Search.{get}
use skl_rs.Spec.{Item, items_of, IsAbsent}
use skl_rs.Spec.Insert.{Adds, IsReady}
use skl_rs.Spec.Remove.{get_or_remove-Adds, remove-get}
use skl_rs.Splice.{fresh_inserter}
use skl_rs.Tests.Inserts.{table, example-Refines}
use skl_rs.Tests.Owned.{bump_laws}
use skl_rs.Tests.TwoKeys.{bump, example, cells}

abbrev removal : Item ℕ
removal = record { key = 1 ∷ []; trailer = 7; value = none }

removal-IsReady : IsReady ⦃tr = u64_trailer⦄ example table (1 ∷ []) []
unfolding ascend
removal-IsReady = record {
  sized = omega arith;
  levels = omega arith;
  covered = omega arith;
  room = omega arith;
  key_short = omega arith;
  value_short = omega arith;
  exact = λ d e. eq_of_slice_cmp (1 ∷ []) d e;
}

removal-IsAbsent : IsAbsent ⦃tr = u64_trailer⦄ ascend.cmp 7 (1 ∷ []) (items_of cells)
unfolding ascend slice_cmp
removal-IsAbsent = ((λ e. cc), ((λ e. cc), tt))

abbrev removed : SkipMap bump ℕ
removed = elim (get_or_remove {ar = bump} ⦃tr = u64_trailer⦄ table 3 7 (1 ∷ []) example) [
  | done r ↦ r.1
  | fault ↦ example
  | panic ↦ example
  | out_of_fuel ↦ example
]

get_or_remove-Adds_example :
    Adds ⦃tr = u64_trailer⦄ bump_laws example
      (items_of cells)
      removal
      (get_or_remove ⦃tr = u64_trailer⦄ table 3 7 (1 ∷ []) example)
get_or_remove-Adds_example =
    get_or_remove-Adds ⦃tr = u64_trailer⦄ bump_laws example (items_of cells) (1 ∷ []) 7 table 3
      example-Refines removal-IsReady refl removal-IsAbsent

remove-get_example : get ⦃tr = u64_trailer⦄ removed 7 (1 ∷ []) ≡ done none
unfolding get_or_remove fresh_inserter ascend
remove-get_example =
    remove-get ⦃tr = u64_trailer⦄ bump_laws example (items_of cells) (1 ∷ []) 7 table 3
      example-Refines removal-IsReady refl removal-IsAbsent none removed refl
