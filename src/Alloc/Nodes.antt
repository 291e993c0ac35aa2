-- ===== src/Alloc/Nodes.antt =====
-- The four allocations of a node with its trailer, with or without room for its key and its value,
-- and `new_node`, which chooses among them by the kind of key (src/map.rs).
use skl_rs.Prelude.{
  ℕ, ◌+◌, ◌*◌, Option, none, some, List, length, Run, done, fault, panic, out_of_fuel, Result, ok,
  err,
}
use skl_rs.Alloc.{
  Filler, Operation, write_key, write_node, write_trailer, alloc_aligned_bytes, alloc_bytes, alloc,
  releasing, give_back, fill_vacant_key, fill_vacant_value,
}
use skl_rs.Attempt.{Either, right, pure, ◌>>=◌, modify}
use skl_rs.Capacity.{Error, check_node_size}
use skl_rs.Codec.{u32, u8, remove_size, encode_value_pointer, encode_key_size_and_height}
use skl_rs.Comparator.{Trailer}
use skl_rs.Height.{random_height}
use skl_rs.Key.{Key, occupied, vacant, pointer, remove, remove_vacant, remove_pointer}
use skl_rs.Link.{Deallocator}
use skl_rs.Map.{SkipMap}
use skl_rs.Meta.{raise_height}
use skl_rs.Node.{Node, node_size, node_align, link_size}
use skl_rs.Node.Arena.{Arena}
use skl_rs.Splice
use skl_rs.Splice.{Pointer}

-- The three fields of a new node.
unfoldable pub node_of : (trailer_offset value_size key_offset key_size height : ℕ) → Node
unfolding encode_value_pointer encode_key_size_and_height
node_of trailer_offset value_size key_offset key_size height = record {
  value = encode_value_pointer (u32 trailer_offset) value_size;
  key_offset = u32 key_offset;
  key_size_and_height = encode_key_size_and_height (u32 key_size) (u8 height);
}

module _ {ar : Arena} {T E : Type 0} ⦃tr : Trailer T⦄ where
  -- An error of `check_node_size` is one of the map.
  abbrev checked :
      SkipMap ar T
      → Run (Result (Unit {0}) (Error ar.Error))
      → Run (Result (Unit {0}) (Either E (Error ar.Error)) × SkipMap ar T)
  checked m (done (ok u)) = done (ok u, m)
  checked m (done (err e)) = done (err (right e), m)
  checked m fault = fault
  checked m panic = panic
  checked m out_of_fuel = out_of_fuel

  abbrev check_size : (height key_size value_size : ℕ) → Operation ar T E (Unit {0})
  check_size height key_size value_size m = checked m (check_node_size m height key_size value_size)

  unfoldable pub allocate_entry_node :
      ℕ → T → ℕ → Filler E → ℕ → Filler E → Operation ar T E (ℕ × Deallocator)
  unfolding check_node_size alloc_aligned_bytes alloc_bytes releasing write_trailer write_node
      node_of fill_vacant_key fill_vacant_value Splice.pointer
  allocate_entry_node height trailer key_size kf value_size vf = do
    _ ← check_size height key_size value_size
    node ← alloc_aligned_bytes node_size node_align (height * link_size)
    releasing node (do
      key ← alloc_bytes key_size
      tv ← releasing key (alloc_aligned_bytes tr.size_of tr.align_of value_size)
      _ ← modify (λ m. write_trailer m tv.offset trailer)
      _ ← modify (λ m.
          write_node m node.offset (node_of tv.offset value_size key.offset key.capacity height))
      (_, key_info) ← releasing tv (fill_vacant_key (u32 key.capacity) (u32 key.offset) kf)
      (_, value_info) ←
          fill_vacant_value (u32 tv.offset) (u32 tv.capacity) value_size
            (u32 (tv.offset + tr.size_of)) vf
      pure (
        u32 node.offset,
        record {
          node = some (Splice.pointer (u32 node.offset) (u32 node.capacity));
          key = some key_info;
          value = some value_info;
        },
      ))

  unfoldable pub allocate_node :
      ℕ → T → (key_offset key_size value_size : ℕ) → Operation ar T E (ℕ × Deallocator)
  unfolding check_node_size alloc_aligned_bytes alloc releasing write_trailer write_node node_of
      Splice.pointer
  allocate_node height trailer key_offset key_size value_size = do
    _ ← check_size height key_size value_size
    node ← alloc_aligned_bytes node_size node_align (height * link_size)
    releasing node (do
      t ← alloc tr.size_of tr.align_of
      _ ← modify (λ m. write_trailer m t.offset trailer)
      _ ←
          modify
            (λ m. write_node m node.offset (node_of t.offset value_size key_offset key_size height))
      pure (
        u32 node.offset,
        record {
          node = some (Splice.pointer (u32 node.offset) (u32 node.capacity));
          key = none;
          value = some (Splice.pointer (u32 t.offset) (u32 tr.size_of));
        },
      ))

  unfoldable pub allocate_key_node : ℕ → T → ℕ → Filler E → ℕ → Operation ar T E (ℕ × Deallocator)
  unfolding check_node_size alloc_aligned_bytes alloc_bytes alloc releasing write_trailer write_node
      node_of fill_vacant_key Splice.pointer
  allocate_key_node height trailer key_size kf value_size = do
    _ ← check_size height key_size value_size
    node ← alloc_aligned_bytes node_size node_align (height * link_size)
    releasing node (do
      key ← alloc_bytes key_size
      t ← releasing key (alloc tr.size_of tr.align_of)
      _ ← modify (λ m. write_trailer m t.offset trailer)
      _ ← modify (λ m.
          write_node m node.offset (node_of t.offset value_size key.offset key.capacity height))
      (_, key_info) ← releasing t (fill_vacant_key (u32 key.capacity) (u32 key.offset) kf)
      pure (
        u32 node.offset,
        record {
          node = some (Splice.pointer (u32 node.offset) (u32 node.capacity));
          key = some key_info;
          value = some (Splice.pointer (u32 t.offset) (u32 tr.size_of));
        },
      ))

  unfoldable pub allocate_value_node :
      ℕ → T → (key_size key_offset value_size : ℕ) → Filler E → Operation ar T E (ℕ × Deallocator)
  unfolding check_node_size alloc_aligned_bytes releasing write_trailer write_node node_of
      fill_vacant_value Splice.pointer
  allocate_value_node height trailer key_size key_offset value_size vf = do
    _ ← check_size height key_size value_size
    node ← alloc_aligned_bytes node_size node_align (height * link_size)
    releasing node (do
      tv ← alloc_aligned_bytes tr.size_of tr.align_of value_size
      _ ← modify (λ m. write_trailer m tv.offset trailer)
      _ ←
          modify (λ m.
            write_node m node.offset (node_of tv.offset value_size key_offset key_size height))
      (_, value_info) ←
          fill_vacant_value (u32 tv.offset) (u32 tv.capacity) value_size
            (u32 (tv.offset + tr.size_of)) vf
      pure (
        u32 node.offset,
        record {
          node = some (Splice.pointer (u32 node.offset) (u32 node.capacity));
          key = none;
          value = some value_info;
        },
      ))

  -- The `match` of `new_node` on its key.
  unfoldable pub allocate_for : Key → ℕ → T → ℕ → Filler E → Operation ar T E (ℕ × Deallocator)
  unfolding allocate_entry_node allocate_node allocate_key_node allocate_value_node write_key
  allocate_for (occupied key) height trailer value_size f =
      allocate_entry_node height trailer (u32 (length key)) (write_key key) value_size f
  allocate_for (vacant key) height trailer value_size f =
      allocate_value_node height trailer (u32 key.len) key.offset value_size f
  allocate_for (pointer offset len) height trailer value_size f =
      allocate_value_node height trailer len offset value_size f
  allocate_for (remove key) height trailer value_size f =
      allocate_key_node height trailer (u32 (length key)) (write_key key) remove_size
  allocate_for (remove_vacant key) height trailer value_size f =
      allocate_node height trailer key.offset (u32 key.len) remove_size
  allocate_for (remove_pointer offset len) height trailer value_size f =
      allocate_node height trailer offset len remove_size

  -- The table of probabilities and the random word are arguments.
  unfoldable pub new_node :
      List ℕ → ℕ → Key → T → ℕ → Filler E → Operation ar T E (ℕ × ℕ × Deallocator)
  unfolding random_height allocate_for raise_height
  new_node probabilities rnd key trailer value_size f m0 =
      elim (random_height probabilities rnd m0.opts.max_height) [
        | done height ↦
            (do
              (nd, deallocator) ← allocate_for key height trailer value_size f
              _ ← modify (λ m. record m { meta = raise_height (u8 height) m.meta })
              pure (nd, height, deallocator))
              m0
        | fault ↦ fault
        | panic ↦ panic
        | out_of_fuel ↦ out_of_fuel
      ]

-- `Deallocator::dealloc`
module _ {ar : Arena} {T E : Type 0} where
  give_back_at : Option Pointer → Operation ar T E (Unit {0})
  unfolding give_back
  give_back_at none = pure tt
  give_back_at (some p) = do _ ← give_back p.offset p.size; pure tt

  unfoldable pub dealloc : Deallocator → Operation ar T E (Unit {0})
  unfolding give_back_at
  dealloc d = do _ ← give_back_at d.node; _ ← give_back_at d.key; give_back_at d.value
