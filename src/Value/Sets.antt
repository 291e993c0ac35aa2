-- ===== src/Value/Sets.antt =====
-- `set_value` (src/map.rs) with a closure that fills the value: what is in memory then.
use skl_rs.Prelude.{
  ℕ, ◌+◌, ◌-◌, ◌^◌, ◌<◌, ◌≡◌, ap, ◌∙◌, inl, inr, none, some, length, Run, done, Result, ok, err,
  arith, le→ltb,
}
use skl_rs.Alloc.{
  Filler, releasing, write_node, write_trailer, give_back, give_back_value, overlaid, put_bytes,
  with_bytes, fill_slice,
}
use skl_rs.Alloc.Fill.{Fills, fill_slice-Fills}
use skl_rs.Alloc.Reason.{IsRefusal, of_aligned_bytes}
use skl_rs.Attempt.{Either, right}
use skl_rs.Capacity.{Error}
use skl_rs.Codec.{u32, u32_max, encode_value_pointer, decode_value_pointer}
use skl_rs.Comparator.{Bytes, Trailer}
use skl_rs.Map.{SkipMap, as_ref}
use skl_rs.Node.{Node}
use skl_rs.Node.Allocator.{IsBlock, IsAllocator, Allocation-cases}
use skl_rs.Node.Arena.{Arena}
use skl_rs.Value.{set_value, swap}

module _ {ar : Arena} {T : Type 0} ⦃tr : Trailer T⦄ (m : SkipMap ar T) (nd : ℕ) (n : Node) (t : T)
    (v : Bytes) where
  abbrev new_value : ℕ → Node
  new_value to = record n { value = encode_value_pointer to (length v) }

  -- A trailer and a value are in their new block.
  abbrev pub filled : ar.State → ℕ → SkipMap ar T
  filled a to =
      write_trailer
        (with_bytes (record m { arena = a }) (put_bytes m.memory.bytes (to + tr.size_of) v)) to t

  -- The node has them, and the old ones are given back.
  abbrev pub replaced : ar.State → ℕ → SkipMap ar T
  replaced a to =
      let (offset, size) = decode_value_pointer n.value in
      let a' = (ar.dealloc offset (tr.size_of + size) a).1 in
      let put = write_node (filled a to) nd (new_value to) in
      record put {
        arena = a';
        memory = record put.memory {
          trailers = overlaid offset (tr.size_of + size) (λ q. none) put.memory.trailers;
          bytes = overlaid offset (tr.size_of + size) (ar.leftover a') put.memory.bytes;
        };
      }

module _ {ar : Arena} {T E : Type 0} ⦃tr : Trailer T⦄ (laws : IsAllocator ar) (m : SkipMap ar T)
    (nd : ℕ) (n : Node) (t : T) (v : Bytes) where
  pub data Sets : Run (Result (Unit {0}) (Either E (Error ar.Error)) × SkipMap ar T) → Type 0 where
    set :
        (to tc : ℕ) (a : ar.State)
        → IsBlock (laws.Used m.arena) (laws.Used a) to (tr.size_of + length v) tc
        → ar.get_aligned_pointer tr.align_of to ≡ to
        → Sets (done (ok tt, replaced m nd n t v a to))
    not_set : (e : ar.Error) → IsRefusal ar e → Sets (done (err (right (Error.arena e)), m))

  pub set_value-Sets :
      (f : Filler E)
      → Fills f v
      → m.memory.nodes nd ≡ some n
      → tr.size_of + (decode_value_pointer n.value).1 < 2 ^ 32
      → Sets (set_value nd t (length v) f m)
  unfolding set_value releasing swap give_back give_back_value as_ref write_node
  set_value-Sets f fills node_at low =
      elim (Allocation-cases (ar.alloc_aligned_bytes tr.size_of tr.align_of (length v) m.arena)) [
        | inl (e, x) ↦ rw x (not_set e (of_aligned_bytes _ _ _ _ x))
        | inr (to, tc, a, x) ↦
            let (fresh, aligned) =
              laws.aligned_bytes tr.size_of tr.align_of (length v) to tc m.arena a x in
            let nothing : length v - length v ≡ 0 = omega arith in
            let value_at : u32 (to + tr.size_of) ≡ to + tr.size_of = omega (arith, fresh.ends) in
            let at : u32 to ≡ to = omega (arith, fresh.ends) in
            let small : u32 tr.size_of ≡ tr.size_of = omega (arith, low) in
            let fill =
              ap (λ o. fill_slice (length v) o f (record m { arena = a })) value_at
              ∙ fill_slice-Fills (record m { arena = a }) f v fills (to + tr.size_of) in
            rw
              (
                x,
                fill,
                le→ltb (length v) (length v) (omega arith),
                nothing,
                at,
                small,
                node_at,
                le→ltb u32_max (tr.size_of + (decode_value_pointer n.value).1) (omega arith),
              )
              (set to tc a fresh aligned)
      ]
