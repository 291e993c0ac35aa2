-- ===== src/Tests/Owned.antt =====
-- The arena of the examples keeps the laws of an allocator, and the example map is in use.
use skl_rs.Prelude.{ℕ, ◌+◌, ◌*◌, ◌≤◌, ◌≡◌, refl, sym, inl, inr, Bool-cases, ltb, ltb→lt, arith}
use skl_rs.Alloc.Owned.{IsOwned, IsStored}
use skl_rs.Codec.{decode_value_pointer}
use skl_rs.Comparator.{u64_trailer}
use skl_rs.Node
use skl_rs.Node.Allocator.{IsBlock, IsAllocator}
use skl_rs.Node.Arena.{refused, block}
use skl_rs.Tests.TwoKeys.{bump, behind, example, cells, first_cell, last_cell, example-IsRepr}

pub behind-IsBlock :
    (size offset capacity s s' : ℕ)
    → behind size s ≡ block offset capacity s'
    → IsBlock (λ q. q ≤ s) (λ q. q ≤ s') offset size capacity
behind-IsBlock size offset capacity s s' e = elim (Bool-cases (ltb (s + 1 + size) 4294967296)) [
  | inl fits ↦
      let e' : block (s + 1) size (s + size) ≡ block offset capacity s' = rw fits at e in
      let at : s + 1 ≡ offset = cc in
      let cap : size ≡ capacity = cc in
      let next : s + size ≡ s' = cc in
      let below = ltb→lt (s + 1 + size) 4294967296 fits in
      record {
        fresh = λ q above under used. omega arith;
        used = λ q above under. omega arith;
        keeps = λ q used. omega arith;
        ends = omega arith;
        not_null = λ p. omega arith;
        sized = sym cap;
      }
  | inr full ↦ let e' : refused tt ≡ block offset capacity s' = rw full at e in cc
]

abbrev pub bump_laws : IsAllocator bump
bump_laws = record {
  Used = λ s q. q ≤ s;
  aligned_bytes = λ size align extra offset capacity s s' e.
      (behind-IsBlock (size + extra) offset capacity s s' e, refl);
  plain_bytes = λ size offset capacity s s' e. behind-IsBlock size offset capacity s s' e;
  value = λ size align offset capacity s s' e. (behind-IsBlock size offset capacity s s' e, refl);
  released = λ offset capacity q s u away. u;
  freed = λ offset size q s u away. u;
}

first_cell-IsStored : IsStored ⦃tr = u64_trailer⦄ bump_laws example first_cell
unfolding Node.key_size decode_value_pointer
first_cell-IsStored = record {
  node = record { value = 208 + 1 * 4294967296; key_offset = 200; key_size_and_height = 34 };
  node_at = refl;
  tower_used = λ q above below. omega arith;
  key_low = omega arith;
  key_used = λ q above below. omega arith;
  value_used = λ q above below. omega arith;
}

last_cell-IsStored : IsStored ⦃tr = u64_trailer⦄ bump_laws example last_cell
unfolding Node.key_size decode_value_pointer
last_cell-IsStored = record {
  node = record {
    value = 224 + 4294967295 * 4294967296;
    key_offset = 201;
    key_size_and_height = 33;
  };
  node_at = refl;
  tower_used = λ q above below. omega arith;
  key_low = omega arith;
  key_used = λ q above below. omega arith;
  value_used = λ q above below. omega arith;
}

pub example-IsOwned : IsOwned ⦃tr = u64_trailer⦄ bump_laws example cells
unfolding Node.key_size
example-IsOwned = record {
  repr = example-IsRepr;
  stored = (first_cell-IsStored, (last_cell-IsStored, tt));
  head_used = λ q above below. omega arith;
  tail_used = λ q above below. omega arith;
  tail_node = record { value = 0; key_offset = 0; key_size_and_height = 2 };
  tail_at = refl;
  tail_size = refl;
}
