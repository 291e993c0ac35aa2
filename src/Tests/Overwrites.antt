-- ===== src/Tests/Overwrites.antt =====
-- An insertion over, and a removal of, the first entry of the example map.
use mathlib.Core.Path.{subst}
use skl_rs.Prelude.{◌+◌, ◌*◌, ◌≡◌, refl, inl, inr, some, [], ◌∷◌, arith}
use skl_rs.Api.{insert}
use skl_rs.Capacity.Bounds.{stored_size}
use skl_rs.Codec.{decode_value_pointer}
use skl_rs.Comparator.{ascend, slice_cmp, u64_trailer}
use skl_rs.Node
use skl_rs.Node.{Node}
use skl_rs.Spec.Overwrite.{Swaps, insert-Swaps}
use skl_rs.Tests.Inserts.{table}
use skl_rs.Tests.Owned.{bump_laws, example-IsOwned}
use skl_rs.Tests.TwoKeys.{example, first_cell, last_cell}
use skl_rs.Value.Lone.{Clear, IsClearKey, IsClear}
use skl_rs.Value.Overwrite.{IsReleasable}

-- What holds of a node that was found holds of what is found there.
found_lem : (P : Node → Type 0) (a b : Node) → some a ≡ some b → P a → P b
found_lem P a b e p = let same : a ≡ b = cc in subst P same p

first_cell-IsClearKey : IsClearKey ⦃tr = u64_trailer⦄ example 208 9 first_cell
unfolding Node.key_size decode_value_pointer
first_cell-IsClearKey = record {
  tower_clear = λ q low high. inl (omega arith);
  key_clear = λ n e.
      found_lem (λ k. Clear 208 9 k.key_offset (Node.key_size k)) _ n e
        (λ q low high. inl (omega arith));
}

last_cell-IsClear : IsClear ⦃tr = u64_trailer⦄ example 208 9 last_cell
unfolding Node.key_size decode_value_pointer
last_cell-IsClear = record {
  key = record {
    tower_clear = λ q low high. inl (omega arith);
    key_clear = λ n e.
        found_lem (λ k. Clear 208 9 k.key_offset (Node.key_size k)) _ n e
          (λ q low high. inl (omega arith));
  };
  value_clear = λ n e.
      found_lem
        (λ k.
          Clear 208 9 (decode_value_pointer k.value).0
            (8 + stored_size (decode_value_pointer k.value).1))
        _ n e (λ q low high. inr (omega arith));
}

first_cell-IsReleasable :
    IsReleasable ⦃tr = u64_trailer⦄ bump_laws example [] first_cell (last_cell ∷ [])
unfolding decode_value_pointer
first_cell-IsReleasable = record {
  node = record { value = 208 + 1 * 4294967296; key_offset = 200; key_size_and_height = 34 };
  node_at = refl;
  fits = omega arith;
  aligned = refl;
  lone = record {
    passed_clear = tt;
    own_clear = first_cell-IsClearKey;
    ahead_clear = (last_cell-IsClear, tt);
    head_clear = λ q low high. inl (omega arith);
    tail_clear = λ q low high. inl (omega arith);
  };
}

insert-Swaps_example :
    Swaps ⦃tr = u64_trailer⦄ bump_laws example [] first_cell
      (last_cell ∷ [])
      (1 ∷ [])
      5
      (4 ∷ 4 ∷ [])
      (insert ⦃tr = u64_trailer⦄ table 3 5 (1 ∷ []) (4 ∷ 4 ∷ []) example)
unfolding ascend slice_cmp
insert-Swaps_example =
    insert-Swaps ⦃tr = u64_trailer⦄ bump_laws example [] first_cell (last_cell ∷ []) (1 ∷ [])
      (4 ∷ 4 ∷ []) 5 table 3 example-IsOwned first_cell-IsReleasable refl refl (omega arith)
      (omega arith)

abbrev first_node : Node
first_node = record { value = 208 + 1 * 4294967296; key_offset = 200; key_size_and_height = 34 }

-- The node keeps the offset of its trailer, with the size that marks a removal.
abbrev removed_first : Node
removed_first = record first_node { value = 208 + 4294967295 * 4294967296 }
