-- ===== src/Map/Reads.antt =====
-- The reads of a node (src/map.rs), where it is known which node lies at an offset.
use mathlib.Core.Path.{ap₂}
use skl_rs.Prelude.{
  ℕ, zero, suc, ◌+◌, ◌≤◌, ◌<◌, ◌≡◌, refl, Bool-cases, inl, inr, some, none, Option, ◌∷◌,
  if◌then◌else◌, ◌==◌, done, ◌>>=◌, arith,
}
use skl_rs.Codec.{decode_value_pointer, u32_max}
use skl_rs.Comparator.{Bytes, Trailer}
use skl_rs.Map.{SkipMap, get_key, get_trailer, get_value_and_trailer, read_trailer, as_ref}
use skl_rs.Node
use skl_rs.Node.{Node, Memory, get_bytes, deref}
use skl_rs.Node.Arena.{Arena}

-- Bytes that are the same are read the same.
pub get_bytes-same :
    {T : Type 0} (m m' : Memory T) (offset len : ℕ)
    → ((q : ℕ) → offset ≤ q → q < offset + len → m'.bytes q ≡ m.bytes q)
    → get_bytes m' offset len ≡ get_bytes m offset len
unfolding get_bytes
get_bytes-same m m' offset zero same = refl
get_bytes-same m m' offset (suc len) same =
    ap₂ (λ b bs. b ∷ bs) (same offset (omega arith) (omega arith))
      (get_bytes-same m m' (offset + 1) len (λ q low high. same q (omega arith) (omega arith)))

module _ {ar : Arena} {T : Type 0} ⦃tr : Trailer T⦄ where
  -- Where the trailer of a node lies.
  abbrev pub trailer_ptr : SkipMap ar T → Node → ℕ
  trailer_ptr m n = ar.get_aligned_pointer tr.align_of (decode_value_pointer n.value).0

  -- The value of a node, read behind its trailer.
  abbrev pub value_of : SkipMap ar T → Node → Option Bytes
  value_of m n =
      if (decode_value_pointer n.value).1 == u32_max
      then none
      else some (get_bytes m.memory (trailer_ptr m n + tr.size_of) (decode_value_pointer n.value).1)

  module _ (m : SkipMap ar T) (nd : ℕ) (n : Node) (e : m.memory.nodes nd ≡ some n) where
    pub get_key-node : get_key m nd ≡ done (get_bytes m.memory n.key_offset (Node.key_size n))
    unfolding get_key as_ref
    get_key-node = rw e

    pub get_trailer-node : get_trailer m nd ≡ deref (m.memory.trailers (trailer_ptr m n))
    unfolding get_trailer as_ref read_trailer
    get_trailer-node = rw e

    pub get_value_and_trailer-node :
        get_value_and_trailer m nd
        ≡ (deref (m.memory.trailers (trailer_ptr m n)) >>= λ t. done (t, value_of m n))
    unfolding get_value_and_trailer as_ref
    get_value_and_trailer-node = elim (Bool-cases ((decode_value_pointer n.value).1 == u32_max)) [
      | inl removed ↦ rw (e, removed)
      | inr valued ↦ rw (e, valued)
    ]
