-- ===== src/Comparator.antt =====
-- Key comparison and trailers (src/lib.rs): the traits `Comparator` and `Trailer`, the comparators
-- `Ascend` and `Descend`, and what they use of the standard library, the order of byte slices and
-- `RangeBounds::contains`. A range is one over byte slices.
pub mod Laws
use skl_rs.Prelude.{
  ℕ, zero, suc, compare, Ordering, lt, eq, gt, Bool, true, false, not, ◌&&◌, List, [], ◌∷◌,
  then_with, is_lt, is_gt,
}

abbrev pub Bytes : Type 0
Bytes = List ℕ

-- The order of `[u8]`: lexicographic.
unfoldable pub slice_cmp : Bytes → Bytes → Ordering
slice_cmp [] [] = eq
slice_cmp [] (y ∷ ys) = lt
slice_cmp (x ∷ xs) [] = gt
slice_cmp (x ∷ xs) (y ∷ ys) = then_with (compare x y) (slice_cmp xs ys)

-- `core::ops::Bound`
pub data Bound : Type 0 where
  included : Bytes → Bound
  excluded : Bytes → Bound
  unbounded : Bound

-- `RangeBounds`
pub record Range : Type 0 where
  pub start_bound : Bound
  pub end_bound : Bound

above_start : Bound → Bytes → Bool
above_start (included s) item = not (is_gt (slice_cmp s item))
above_start (excluded s) item = is_lt (slice_cmp s item)
above_start unbounded item = true

below_end : Bound → Bytes → Bool
below_end (included e) item = not (is_gt (slice_cmp item e))
below_end (excluded e) item = is_lt (slice_cmp item e)
below_end unbounded item = true

-- `RangeBounds::contains`
unfoldable pub range_contains : Range → Bytes → Bool
unfolding above_start below_end slice_cmp
range_contains r item = above_start r.start_bound item && below_end r.end_bound item

-- The trait `Comparator`.
pub record Comparator : Type 0 where
  pub cmp : Bytes → Bytes → Ordering
  pub contains : Range → Bytes → Bool

unfoldable pub ascend : Comparator
unfolding slice_cmp range_contains
ascend = record { cmp = λ a b. slice_cmp a b; contains = range_contains }

unfoldable pub descend : Comparator
unfolding slice_cmp range_contains
descend = record { cmp = λ a b. slice_cmp b a; contains = range_contains }

-- The trait `Trailer`, with the size and the alignment that the compiler gives the type.
pub record Trailer (T : Type 0) : Type 0 where
  pub version : T → ℕ
  pub size_of : ℕ
  pub align_of : ℕ

-- `impl Trailer for u64`
abbrev pub u64_trailer : Trailer ℕ
u64_trailer = record { version = λ t. t; size_of = 8; align_of = 8 }

-- `impl Trailer for ()`
abbrev pub unit_trailer : Trailer (Unit {0})
unit_trailer = record { version = λ _. 0; size_of = 0; align_of = 1 }
