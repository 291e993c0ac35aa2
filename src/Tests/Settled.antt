-- ===== src/Tests/Settled.antt =====
-- A run of calls on the example map: an insertion, a removal of what is there, and the first again.
use skl_rs.Prelude.{ℕ, ◌≡◌, refl, none, some, List, [], ◌∷◌, Option, Result, ok, done, arith}
use skl_rs.Api.{get_or_insert, get_or_remove}
use skl_rs.Capacity.{Error}
use skl_rs.Comparator.{ascend, slice_cmp, u64_trailer}
use skl_rs.Comparator.Laws.{eq_of_slice_cmp}
use skl_rs.Map.{SkipMap, VersionedEntryRef}
use skl_rs.Spec.{Item, items_of, exact, Refines, shown, unless_removed}
use skl_rs.Spec.Present.{present-returned}
use skl_rs.Spec.Runs.{settle_all-Refines}
use skl_rs.Spec.Settle.{settle_all, SettlesAll, IsFit}
use skl_rs.Tests.Inserts.{table, new_item, example-Refines}
use skl_rs.Tests.Owned.{bump_laws}
use skl_rs.Tests.TwoKeys.{bump, example, cells}

abbrev first_item : Item ℕ
first_item = record { key = 1 ∷ []; trailer = 5; value = some (9 ∷ []) }

abbrev calls : List (ℕ × Item ℕ)
calls = (3, new_item) ∷ (1, record first_item { value = none }) ∷ (7, new_item) ∷ []

new_item-IsFit : IsFit ascend new_item
unfolding ascend
new_item-IsFit = record {
  key_short = omega arith;
  value_short = omega arith;
  apart = λ d e. eq_of_slice_cmp (2 ∷ []) d e;
}

first_item-IsFit : IsFit ascend (record first_item { value = none })
unfolding ascend
first_item-IsFit = record {
  key_short = omega arith;
  value_short = omega arith;
  apart = λ d e. eq_of_slice_cmp (1 ∷ []) d e;
}

settle_all-Refines_example :
    (rs : List (Result (Option (VersionedEntryRef ℕ)) (Error bump.Error))) × (m' : SkipMap bump ℕ)
    × (after : List (Item ℕ)) × (settle_all ⦃tr = u64_trailer⦄ table calls example ≡ done (rs, m'))
    × Refines ⦃tr = u64_trailer⦄ bump_laws m' after
    × SettlesAll ⦃tr = u64_trailer⦄ ascend.cmp calls rs (items_of cells) after
settle_all-Refines_example =
    settle_all-Refines ⦃tr = u64_trailer⦄ bump_laws example (items_of cells) table calls (λ s. refl)
      (omega arith) (omega arith) (omega arith) example-Refines
      (new_item-IsFit, (first_item-IsFit, (new_item-IsFit, tt))) (omega arith)

present-returned_example :
    ((e : Option (VersionedEntryRef ℕ)) × (get_or_insert ⦃tr = u64_trailer⦄ table 3 5
          (1 ∷ [])
          (4 ∷ [])
          example
        ≡ done (ok e, example))
      × (shown e ≡ unless_removed (some first_item)))
    × ((e : Option (VersionedEntryRef ℕ)) × (get_or_remove ⦃tr = u64_trailer⦄ table 3 5
            (1 ∷ [])
            example
          ≡ done (ok e, example))
        × (shown e ≡ unless_removed (some first_item)))
unfolding exact ascend slice_cmp
present-returned_example =
    present-returned ⦃tr = u64_trailer⦄ bump_laws example (items_of cells) first_item (1 ∷ [])
      (4 ∷ []) 5 table 3 example-Refines refl refl
