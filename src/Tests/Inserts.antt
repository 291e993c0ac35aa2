-- ===== src/Tests/Inserts.antt =====
-- An insertion into the example map.
use skl_rs.Prelude.{
  ℕ, ◌≡◌, refl, Option, none, some, List, [], ◌∷◌, done, fault, panic, out_of_fuel, arith,
}
use skl_rs.Api.{insert, get_or_insert}
use skl_rs.Comparator.{ascend, slice_cmp, u64_trailer}
use skl_rs.Comparator.Laws.{eq_of_slice_cmp}
use skl_rs.Map.{SkipMap, VersionedEntryRef}
use skl_rs.Search.{get}
use skl_rs.Spec.{Item, items_of, IsAbsent, Refines, find, shown, unless_removed}
use skl_rs.Spec.Insert.{Adds, IsReady, insert-Adds, get_or_insert-Adds}
use skl_rs.Spec.Read.{get-find, insert-get}
use skl_rs.Splice.{fresh_inserter}
use skl_rs.Tests.Owned.{bump_laws, example-IsOwned}
use skl_rs.Tests.TwoKeys.{bump, example, cells}

abbrev pub table : List ℕ
table = 5 ∷ 5 ∷ []

abbrev pub new_item : Item ℕ
new_item = record { key = 2 ∷ []; trailer = 7; value = some (8 ∷ 9 ∷ []) }

example-IsReady : IsReady ⦃tr = u64_trailer⦄ example table (2 ∷ []) (8 ∷ 9 ∷ [])
unfolding ascend
example-IsReady = record {
  sized = omega arith;
  levels = omega arith;
  covered = omega arith;
  room = omega arith;
  key_short = omega arith;
  value_short = omega arith;
  exact = λ d e. eq_of_slice_cmp (2 ∷ []) d e;
}

pub example-Refines : Refines ⦃tr = u64_trailer⦄ bump_laws example (items_of cells)
example-Refines = (cells, example-IsOwned, refl)

new_item-IsAbsent : IsAbsent ⦃tr = u64_trailer⦄ ascend.cmp 7 (2 ∷ []) (items_of cells)
unfolding ascend slice_cmp
new_item-IsAbsent = ((λ e. cc), ((λ e. cc), tt))

abbrev later : SkipMap bump ℕ
later = elim (insert {ar = bump} ⦃tr = u64_trailer⦄ table 3 7 (2 ∷ []) (8 ∷ 9 ∷ []) example) [
  | done r ↦ r.1
  | fault ↦ example
  | panic ↦ example
  | out_of_fuel ↦ example
]

insert-Adds_example :
    Adds ⦃tr = u64_trailer⦄ bump_laws example
      (items_of cells)
      new_item
      (insert ⦃tr = u64_trailer⦄ table 3 7 (2 ∷ []) (8 ∷ 9 ∷ []) example)
insert-Adds_example =
    insert-Adds ⦃tr = u64_trailer⦄ bump_laws example (items_of cells) (2 ∷ []) (8 ∷ 9 ∷ []) 7 table
      3 example-Refines example-IsReady new_item-IsAbsent

get_or_insert-Adds_example :
    Adds ⦃tr = u64_trailer⦄ bump_laws example
      (items_of cells)
      new_item
      (get_or_insert ⦃tr = u64_trailer⦄ table 3 7 (2 ∷ []) (8 ∷ 9 ∷ []) example)
get_or_insert-Adds_example =
    get_or_insert-Adds ⦃tr = u64_trailer⦄ bump_laws example (items_of cells) (2 ∷ []) (8 ∷ 9 ∷ []) 7
      table 3 example-Refines example-IsReady new_item-IsAbsent

get-find_example :
    (e : Option (VersionedEntryRef ℕ)) × (get ⦃tr = u64_trailer⦄ example 9 (1 ∷ []) ≡ done e)
    × (shown e
        ≡ unless_removed (find ⦃tr = u64_trailer⦄ example.cmp.cmp 9 (1 ∷ []) (items_of cells)))
get-find_example =
    get-find ⦃tr = u64_trailer⦄ bump_laws example (items_of cells) 9 (1 ∷ []) example-Refines

insert-get_example :
    (e : Option (VersionedEntryRef ℕ)) × (get ⦃tr = u64_trailer⦄ later 7 (2 ∷ []) ≡ done e)
    × (shown e ≡ some new_item)
unfolding insert fresh_inserter ascend
insert-get_example =
    insert-get ⦃tr = u64_trailer⦄ bump_laws example (items_of cells) (2 ∷ []) (8 ∷ 9 ∷ []) 7 table 3
      example-Refines example-IsReady new_item-IsAbsent none later refl
