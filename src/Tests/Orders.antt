-- ===== src/Tests/Orders.antt =====
-- The order of the entries that the example map yields, and an entry of it made owned.
use skl_rs.Prelude.{◌+◌, ◌*◌, ◌≡◌, refl, lt, List, ℕ, done, Pairwise}
use skl_rs.Comparator.{u64_trailer}
use skl_rs.Comparator.Laws.{comparators-IsLawful}
use skl_rs.Entry.{cmp_entry, to_owned, borrow}
use skl_rs.Entry.Owned.{borrow-to_owned}
use skl_rs.Api.{iter_all_versions, range_all_versions}
use skl_rs.Iterator.{range_full}
use skl_rs.Iterator.Collect.{collect, collect-Pairwise}
use skl_rs.Map.{VersionedEntryRef}
use skl_rs.Map.Repr.{entry_of}
use skl_rs.Codec.{decode_value_pointer}
use skl_rs.Capacity.{align_up}
use skl_rs.Entry.Laws.{IsOrd, cmp_entry-IsOrd}
use skl_rs.Tests.TwoKeys.{example, cells, first_cell, example-IsRepr}

cmp_entry-IsOrd_example : IsOrd ⦃tr = u64_trailer⦄ example
cmp_entry-IsOrd_example = cmp_entry-IsOrd ⦃tr = u64_trailer⦄ example comparators-IsLawful.0

collect-Pairwise_example :
    ((es : List (VersionedEntryRef ℕ)) × (collect ⦃tr = u64_trailer⦄ example 3
          (range_all_versions ⦃tr = u64_trailer⦄ example 9 range_full)
        ≡ done es)
      × Pairwise (λ a b. cmp_entry ⦃tr = u64_trailer⦄ example a b ≡ lt) es)
    × ((es : List (VersionedEntryRef ℕ)) × (collect ⦃tr = u64_trailer⦄ example 3
            (iter_all_versions ⦃tr = u64_trailer⦄ example 9)
          ≡ done es)
        × Pairwise (λ a b. cmp_entry ⦃tr = u64_trailer⦄ example a b ≡ lt) es)
collect-Pairwise_example =
    collect-Pairwise ⦃tr = u64_trailer⦄ example cells 9 range_full example-IsRepr

borrow-to_owned_example :
    borrow ⦃tr = u64_trailer⦄
      (to_owned ⦃tr = u64_trailer⦄ example (entry_of ⦃tr = u64_trailer⦄ example first_cell))
    ≡ done (entry_of ⦃tr = u64_trailer⦄ example first_cell)
unfolding decode_value_pointer align_up
borrow-to_owned_example =
    borrow-to_owned ⦃tr = u64_trailer⦄ example first_cell
      (record { value = 208 + 1 * 4294967296; key_offset = 200; key_size_and_height = 34 }) refl
      refl example-IsRepr.holds.0
