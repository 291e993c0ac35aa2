-- ===== src/Splice/SharedKey.antt =====
-- The stored keys that `find_splice_for_level` (src/map.rs) offers for a new key.
use mathlib.Core.Path.{subst}
use mathlib.Core.Option.{some-injective}
use skl_rs.Prelude.{
  ℕ, zero, suc, ◌+◌, ◌≡◌, refl, sym, ◌∙◌, true, false, some, Ordering, lt, eq, gt, [], ◌∷◌, length,
  arith, inl, inr, Bool-cases, Ordering-cases,
}
use skl_rs.Comparator.{Bytes, slice_cmp}
use skl_rs.Comparator.Laws.{eq_of_slice_cmp}
use skl_rs.Node
use skl_rs.Node.{Node, Memory, get_bytes}
use skl_rs.Splice.{Pointer, starts_with, shared_key}

-- The bytes that a key begins with are read with the key's own length.
get_bytes-starts_with :
    {T : Type 0} (m : Memory T) (offset size : ℕ) (stored key : Bytes)
    → get_bytes m offset size ≡ stored
    → starts_with stored key ≡ true
    → get_bytes m offset (length key) ≡ key
unfolding get_bytes starts_with
get_bytes-starts_with m offset size stored [] e s = refl
get_bytes-starts_with m offset size [] (y ∷ ys) e s = ground arith
get_bytes-starts_with m offset zero (x ∷ xs) (y ∷ ys) e s = ground arith
get_bytes-starts_with m offset (suc size) (x ∷ xs) (y ∷ ys) e s =
    ground (arith, get_bytes-starts_with m (offset + 1) size xs ys)

starts_with-slice_cmp :
    (key stored : Bytes) → slice_cmp key stored ≡ gt → starts_with stored key ≡ false
unfolding slice_cmp starts_with
starts_with-slice_cmp [] [] e = ground arith
starts_with-slice_cmp [] (y ∷ ys) e = ground arith
starts_with-slice_cmp (x ∷ xs) [] e = refl
starts_with-slice_cmp (x ∷ xs) (y ∷ ys) e = ground (arith, starts_with-slice_cmp xs ys)

-- Where `find_splice_for_level` offers the stored key of a node for a new key, the bytes at the
-- pointer are the new key, provided that keys which compare equal are equal.
pub shared_key-get_bytes :
    {T : Type 0} (m : Memory T) (o : Ordering) (key stored : Bytes) (n : Node) (p : Pointer)
    → get_bytes m n.key_offset (Node.key_size n) ≡ stored
    → (o ≡ eq → key ≡ stored)
    → shared_key o key stored n ≡ some p
    → get_bytes m p.offset p.size ≡ key
unfolding shared_key
shared_key-get_bytes m lt key stored n p read same e = ground arith
shared_key-get_bytes m eq key stored n p read same e =
    subst (λ q. get_bytes m q.offset q.size ≡ key) (some-injective _ p e) (read ∙ sym (same refl))
shared_key-get_bytes m gt key stored n p read same e = elim (Bool-cases (starts_with stored key)) [
  | inl prefix ↦
      subst (λ q. get_bytes m q.offset q.size ≡ key) (some-injective _ p (rw prefix at e))
        (get_bytes-starts_with m n.key_offset (Node.key_size n) stored key read prefix)
  | inr other ↦ ground arith
]

-- In the order of the bytes, as with `Ascend`, a stored key is offered only for an equal key: a key
-- that is above a stored one is never a prefix of it.
pub shared_key-slice_cmp :
    (key stored : Bytes) (n : Node) (p : Pointer)
    → shared_key (slice_cmp key stored) key stored n ≡ some p
    → key ≡ stored
unfolding shared_key
shared_key-slice_cmp key stored n p e = elim (Ordering-cases (slice_cmp key stored)) [
  | inl below ↦ ground (arith, below)
  | inr (inl same) ↦ eq_of_slice_cmp key stored same
  | inr (inr above) ↦ ground (arith, starts_with-slice_cmp key stored above)
]
