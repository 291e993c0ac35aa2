-- ===== src/Tests/Seeks.antt =====
-- The lower bounds of a map of two entries.
use skl_rs.Prelude.{◌≡◌, refl, some, [], ◌∷◌, done, arith}
use skl_rs.Comparator.{slice_cmp, included, excluded, u64_trailer, ascend}
use skl_rs.Iterator.Seek.{lower_bound}
use skl_rs.Iterator.Seek.Lower.{entry_at, lower_bound-first_from, lower_bound-newer}
use skl_rs.Map.Repr.{entry_of}
use skl_rs.Search.From.{first_from}
use skl_rs.Tests.TwoKeys.{example, cells, first_cell, last_cell, example-IsRepr}

lower_bound-first_from_example :
    (lower_bound ⦃tr = u64_trailer⦄ example 9 (included (1 ∷ []))
      ≡ done
          (entry_at ⦃tr = u64_trailer⦄ example (first_from ascend.cmp (included (1 ∷ [])) cells)))
    × (lower_bound ⦃tr = u64_trailer⦄ example 9 (excluded (1 ∷ []))
        ≡ done
            (entry_at ⦃tr = u64_trailer⦄ example (first_from ascend.cmp (excluded (1 ∷ [])) cells)))
unfolding ascend
lower_bound-first_from_example =
    lower_bound-first_from ⦃tr = u64_trailer⦄ example cells 9 (1 ∷ []) example-IsRepr (λ k. refl)
      (omega arith) (omega arith, (omega arith, tt))

-- A version that sees the second entry only.
lower_bound-newer_example :
    lower_bound ⦃tr = u64_trailer⦄ example 4 (included (1 ∷ []))
    ≡ done (some (entry_of ⦃tr = u64_trailer⦄ example first_cell))
unfolding ascend slice_cmp
lower_bound-newer_example =
    lower_bound-newer ⦃tr = u64_trailer⦄ example 4 (1 ∷ []) [] first_cell last_cell []
      example-IsRepr (λ k. refl) tt refl (omega arith) (omega arith) (omega arith) refl
