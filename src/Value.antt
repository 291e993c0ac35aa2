-- ===== src/Value.antt =====
-- The value of a node (src/map.rs): its packed pointer, how it is read, replaced and removed. An
-- exchange finds what other threads have left there since the read.
pub mod Sets
pub mod Lone
pub mod Exchange
pub mod Exchanged
pub mod Overwrite
pub mod Clear
use skl_rs.Prelude.{
  ℕ, ◌+◌, Bool, Option, none, some, if◌then◌else◌, ◌==◌, Run, done, Result, ok, err,
}
use skl_rs.Prelude
use skl_rs.Alloc.{
  Filler, Operation, write_node, write_trailer, alloc_aligned_bytes, releasing, give_back,
  give_back_value, fill_slice,
}
use skl_rs.Attempt.{left, pure, fail, ◌>>=◌, reading, lift, modify}
use skl_rs.Buffer
use skl_rs.Capacity.{align_up}
use skl_rs.Codec.{u32, u32_max, add_u32, remove_size, encode_value_pointer, decode_value_pointer}
use skl_rs.Comparator.{Bytes, Trailer}
use skl_rs.Map.{SkipMap, as_ref}
use skl_rs.Node.{get_bytes}
use skl_rs.Node.Arena.{Arena}

-- `AtomicValuePointer::compare_remove` on a cell that held `old` at the read and holds `now` at the
-- exchange; with what the cell holds then.
unfoldable pub compare_remove : (old now : ℕ) → Result (ℕ × ℕ) (ℕ × ℕ) × ℕ
unfolding encode_value_pointer decode_value_pointer
compare_remove old now =
    let new = encode_value_pointer (decode_value_pointer old).0 remove_size in
    if now == old
    then (ok (decode_value_pointer old), new)
    else (err (decode_value_pointer now), now)

module _ {ar : Arena} {T : Type 0} ⦃tr : Trailer T⦄ (m : SkipMap ar T) where
  -- `Node::get_value_by_offset`
  unfoldable pub get_value_by_offset : (offset len : ℕ) → Option Bytes
  unfolding align_up get_bytes
  get_value_by_offset offset len =
      if len == u32_max
      then none
      else some (get_bytes m.memory (align_up tr.align_of offset + tr.size_of) len)

  -- `Node::get_value`
  unfoldable pub get_value : ℕ → Run (Option Bytes)
  unfolding as_ref decode_value_pointer get_value_by_offset
  get_value nd = Prelude.◌>>=◌ (as_ref m nd) (λ n.
      let (offset, len) = decode_value_pointer n.value in done (get_value_by_offset offset len))

module _ {ar : Arena} {T E : Type 0} where
  -- `AtomicValuePointer::swap`
  unfoldable pub swap : (nd offset len : ℕ) → Operation ar T E (ℕ × ℕ)
  unfolding as_ref write_node encode_value_pointer decode_value_pointer
  swap nd offset len = do
    n ← reading (λ m. as_ref m nd)
    _ ← modify (λ m. write_node m nd (record n { value = encode_value_pointer offset len }))
    pure (decode_value_pointer n.value)

module _ {ar : Arena} {T E : Type 0} ⦃tr : Trailer T⦄ where
  -- The new trailer and value of a node; the block of the old ones is given back.
  unfoldable pub set_value : ℕ → T → ℕ → Filler E → Operation ar T E (Unit {0})
  unfolding alloc_aligned_bytes releasing fill_slice Buffer.remaining give_back give_back_value
      write_trailer swap
  set_value nd trailer value_size f = do
    bytes ← alloc_aligned_bytes tr.size_of tr.align_of value_size
    let value_offset = bytes.offset + tr.size_of
    discard ← releasing bytes (do
      (filled, oval) ← fill_slice value_size (u32 value_offset) f
      elim filled [
        | err e ↦ fail (left e)
        | ok _ ↦ do
          remaining ← lift (Buffer.remaining oval)
          if remaining == 0 then pure 0 else do
            listed ← give_back (u32 (value_offset + oval.len)) (u32 remaining)
            pure (if listed then 0 else remaining)
      ])
    _ ← modify (λ m. write_trailer m bytes.offset trailer)
    _ ← modify (λ m.
        if discard == 0
        then m
        else record m { arena = ar.increase_discarded (u32 discard) m.arena })
    (old_offset, old_size) ← swap nd (u32 bytes.offset) value_size
    size ← lift (add_u32 (u32 tr.size_of) old_size)
    _ ← give_back_value old_offset size
    pure tt

  -- What `clear_value` gives back: the trailer, and the value where there was one.
  cleared : Result (ℕ × ℕ) (ℕ × ℕ) → Operation ar T E (Result (Unit {0}) (ℕ × ℕ))
  unfolding give_back_value
  cleared (err current) = pure (err current)
  cleared (ok (offset, size)) = do
    size ← (if size == u32_max then pure (u32 tr.size_of) else lift (add_u32 (u32 tr.size_of) size))
    _ ← give_back_value offset size
    pure (ok tt)

  -- `others` is what other threads do between the read and the exchange.
  unfoldable pub clear_value :
      (SkipMap ar T → SkipMap ar T) → ℕ → Operation ar T E (Result (Unit {0}) (ℕ × ℕ))
  unfolding as_ref compare_remove write_node cleared
  clear_value others nd = do
    old ← reading (λ m. as_ref m nd)
    _ ← modify others
    now ← reading (λ m. as_ref m nd)
    let (r, value) = compare_remove old.value now.value
    _ ← modify (λ m. write_node m nd (record now { value = value }))
    cleared r
