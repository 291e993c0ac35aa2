-- ===== src/Value/Clear.antt =====
-- `clear_value` (src/map.rs) on a node of the list, by a thread that is not interrupted.
use skl_rs.Prelude.{
  ℕ, ◌+◌, ◌^◌, ◌<◌, ◌≤◌, ◌≡◌, ◌&&◌, leb, ltb, true, fault, refl, ap, ◌∙◌, inl, inr, Option, none,
  some, ==_refl, ◌==◌, Bool-cases, le→ltb, done, ok, arith,
}
use skl_rs.Alloc.{write_node, give_back_value, overlaid}
use skl_rs.Capacity.Bounds.{stored_size}
use skl_rs.Codec.{u32, u32_max, remove_size, encode_value_pointer, decode_value_pointer}
use skl_rs.Codec.RoundTrip.{decode-encode_value_pointer}
use skl_rs.Comparator.{Trailer}
use skl_rs.Link.{update}
use skl_rs.Map.{SkipMap, as_ref, get_trailer}
use skl_rs.Map.Reads.{get_trailer-node, trailer_ptr}
use skl_rs.Node.{Node, deref}
use skl_rs.Node.Arena.{Arena}
use skl_rs.Value.{clear_value, compare_remove}

pub some_of_deref : {A : Type 0} (x : Option A) (a : A) → deref x ≡ done a → x ≡ some a
some_of_deref none a e = cc
some_of_deref (some b) a e = cc

overlaid-inside :
    {A : Type 0} (offset size : ℕ) (over under : ℕ → A) (q : ℕ)
    → offset ≤ q
    → q < offset + size
    → overlaid offset size over under q ≡ over q
unfolding overlaid
overlaid-inside offset size over under q low high =
    let within : (leb offset q && ltb q (offset + size)) ≡ true = ground (arith, low, high) in
    rw (within) refl

module _ {ar : Arena} {T : Type 0} ⦃tr : Trailer T⦄ (m : SkipMap ar T) (nd : ℕ) (n : Node) where
  abbrev pub old : ℕ
  old = (decode_value_pointer n.value).0

  abbrev pub old_size : ℕ
  old_size = tr.size_of + stored_size (decode_value_pointer n.value).1

  abbrev pub removed_node : Node
  removed_node = record n { value = encode_value_pointer old remove_size }

  -- The node is marked as removed, and the block of its trailer and value is given back.
  abbrev pub cleared_map : SkipMap ar T
  cleared_map = record m {
    arena = (ar.dealloc old old_size m.arena).1;
    memory = record m.memory {
      nodes = update m.memory.nodes nd (some removed_node);
      trailers = overlaid old old_size (λ q. none) m.memory.trailers;
      bytes =
          overlaid old old_size (ar.leftover (ar.dealloc old old_size m.arena).1) m.memory.bytes;
    };
  }

  pub clear_value-runs :
      {E : Type 0}
      → m.memory.nodes nd ≡ some n
      → old_size < 2 ^ 32
      → clear_value {E = E} (λ m'. m') nd m ≡ done (ok (ok tt), cleared_map)
  unfolding clear_value compare_remove as_ref write_node give_back_value
  clear_value-runs node_at low =
      let small : u32 tr.size_of ≡ tr.size_of = omega (arith, low) in
      elim (Bool-cases ((decode_value_pointer n.value).1 == u32_max)) [
        | inl removed ↦
            let whole : tr.size_of + 0 ≡ tr.size_of = omega arith in
            rw (node_at, node_at, ==_refl n.value, removed, small, whole) refl
        | inr valued ↦
            let low' : tr.size_of + (decode_value_pointer n.value).1 < 2 ^ 32 = rw valued at low in
            rw
              (
                node_at,
                node_at,
                ==_refl n.value,
                valued,
                small,
                le→ltb u32_max (tr.size_of + (decode_value_pointer n.value).1)
                    (omega (arith, low')),
              )
              refl
      ]

  old_low : old < 2 ^ 32
  unfolding decode_value_pointer
  old_low = omega arith

  pub removed_mark : (decode_value_pointer removed_node.value).1 ≡ remove_size
  removed_mark = ap (λ d. d.1) (decode-encode_value_pointer old remove_size old_low (omega arith))

  -- The removed node still points to what was given back.
  pub removed_ptr :
      ar.get_aligned_pointer tr.align_of old ≡ old → trailer_ptr cleared_map removed_node ≡ old
  removed_ptr aligned =
      ap (λ d. ar.get_aligned_pointer tr.align_of d.0)
        (decode-encode_value_pointer old remove_size old_low (omega arith))
      ∙ aligned

  -- No trailer can be read where it points.
  pub removed_trailer :
      0 < tr.size_of
      → ar.get_aligned_pointer tr.align_of old ≡ old
      → get_trailer cleared_map nd ≡ fault
  removed_trailer sized aligned =
      let node_at : cleared_map.memory.nodes nd ≡ some removed_node = rw (==_refl nd) refl in
      get_trailer-node cleared_map nd removed_node node_at
      ∙ ap (λ at. deref (cleared_map.memory.trailers at)) (removed_ptr aligned)
      ∙ ap deref (
          overlaid-inside old old_size (λ q. none) m.memory.trailers old (omega arith)
            (omega (arith, sized)))
