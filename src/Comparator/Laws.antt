-- ===== src/Comparator/Laws.antt =====
-- The laws that a comparator (src/lib.rs) owes the map.
use skl_rs.Prelude.{◌≡◌, refl, Ordering, lt, eq, [], ◌∷◌, reverse_order, arith}
use skl_rs.Comparator.{Bytes, slice_cmp, ascend, descend}

-- A total preorder on keys: keys that compare equal need not be equal bytes.
pub record IsLawful (cmp : Bytes → Bytes → Ordering) : Type 0 where
  pub cmp_refl : (a : Bytes) → cmp a a ≡ eq
  pub cmp_flip : (a b : Bytes) → cmp b a ≡ reverse_order (cmp a b)
  pub lt_trans : (a b c : Bytes) → cmp a b ≡ lt → cmp b c ≡ lt → cmp a c ≡ lt
  pub eq_cmp : (a b c : Bytes) → cmp a b ≡ eq → cmp a c ≡ cmp b c

slice_cmp_refl : (a : Bytes) → slice_cmp a a ≡ eq
unfolding slice_cmp
slice_cmp_refl [] = refl
slice_cmp_refl (x ∷ xs) = ground (arith, slice_cmp_refl xs)

slice_cmp_flip : (a b : Bytes) → slice_cmp b a ≡ reverse_order (slice_cmp a b)
unfolding slice_cmp
slice_cmp_flip [] [] = refl
slice_cmp_flip [] (y ∷ ys) = refl
slice_cmp_flip (x ∷ xs) [] = refl
slice_cmp_flip (x ∷ xs) (y ∷ ys) = ground (arith, slice_cmp_flip xs ys)

pub eq_of_slice_cmp : (a b : Bytes) → slice_cmp a b ≡ eq → a ≡ b
unfolding slice_cmp
eq_of_slice_cmp [] [] h = refl
eq_of_slice_cmp [] (y ∷ ys) h = ground arith
eq_of_slice_cmp (x ∷ xs) [] h = ground arith
eq_of_slice_cmp (x ∷ xs) (y ∷ ys) h = ground (arith, eq_of_slice_cmp xs ys)

slice_cmp_trans : (a b c : Bytes) → slice_cmp a b ≡ lt → slice_cmp b c ≡ lt → slice_cmp a c ≡ lt
unfolding slice_cmp
slice_cmp_trans [] [] c h k = ground arith
slice_cmp_trans [] (y ∷ ys) [] h k = ground arith
slice_cmp_trans [] (y ∷ ys) (z ∷ zs) h k = refl
slice_cmp_trans (x ∷ xs) [] c h k = ground arith
slice_cmp_trans (x ∷ xs) (y ∷ ys) [] h k = ground arith
slice_cmp_trans (x ∷ xs) (y ∷ ys) (z ∷ zs) h k = ground (arith, slice_cmp_trans xs ys zs)

slice_cmp-eq : (a b c : Bytes) → slice_cmp a b ≡ eq → slice_cmp a c ≡ slice_cmp b c
slice_cmp-eq a b c h = let e = eq_of_slice_cmp a b h in rw e refl

slice_cmp-IsLawful : IsLawful slice_cmp
slice_cmp-IsLawful = record {
  cmp_refl = slice_cmp_refl;
  cmp_flip = slice_cmp_flip;
  lt_trans = slice_cmp_trans;
  eq_cmp = slice_cmp-eq;
}

-- A comparator that swaps the arguments of a lawful one is lawful.
flip-IsLawful : {cmp : Bytes → Bytes → Ordering} → IsLawful cmp → IsLawful (λ a b. cmp b a)
flip-IsLawful {cmp} l = record {
  cmp_refl = l.cmp_refl;
  cmp_flip = λ a b. l.cmp_flip b a;
  lt_trans = λ a b c h k. l.lt_trans c b a k h;
  eq_cmp =
      λ a b c h. ground (arith, l.eq_cmp a b c, l.cmp_flip a b, l.cmp_flip a c, l.cmp_flip b c);
}

-- Both comparators of the crate are total preorders: reflexive, antisymmetric up to reversal,
-- transitive, and compatible with keys that compare equal.
pub comparators-IsLawful : IsLawful ascend.cmp × IsLawful descend.cmp
unfolding ascend descend
comparators-IsLawful = (slice_cmp-IsLawful, flip-IsLawful slice_cmp-IsLawful)
