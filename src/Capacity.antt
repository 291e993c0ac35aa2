-- ===== src/Capacity.antt =====
-- The checks before an allocation (src/map.rs): whether an arena holds an empty map, and whether an
-- entry is not too large.
pub mod Bounds
use skl_rs.Prelude.{
  ℕ, ◌+◌, ◌-◌, ◌*◌, ◌/◌, if◌then◌else◌, ltb, ◌==◌, ◌||◌, Run, done, panic, Result, ok, err,
}
use skl_rs.Codec.{u32, u32_max, u8}
use skl_rs.Comparator.{Trailer}
use skl_rs.Map.{SkipMap}
use skl_rs.Node
use skl_rs.Node.{node_size, node_align, link_size}
use skl_rs.Node.Arena.{Arena}

-- `Error` of the map (src/map/error.rs).
pub data Error (E : Type 0) : Type 0 where
  arena : E → Error E
  value_too_large : ℕ → Error E
  key_too_large : ℕ → Error E
  entry_too_large : ℕ → Error E
  arena_too_small : Error E

-- `mem::size_of::<Meta>()`: two u64, a u32, a u16 and two u8.
abbrev pub meta_size : ℕ
meta_size = 24

-- `mem::align_of::<Meta>()`
abbrev pub meta_align : ℕ
meta_align = 8

-- `(offset + alignment - 1) & !(alignment - 1)`, for a power of two.
unfoldable pub align_up : (alignment offset : ℕ) → ℕ
align_up alignment offset = (offset + alignment - 1) / alignment * alignment

module _ (trailer_size trailer_align max_height : ℕ) where
  -- Where the trailer of a node ends that lies behind an offset, or the node where there is none.
  trailer_end : ℕ → ℕ
  unfolding align_up
  trailer_end node_end =
      if trailer_size == 0 then node_end else align_up trailer_align node_end + trailer_size

  node_end : ℕ → ℕ
  node_end node_offset = node_offset + node_size + link_size * max_height

  -- The offsets of the header, of the head and of the tail, and where the map's data begins.
  pub record Layout : Type 0 where
    pub meta_offset : ℕ
    pub head_offset : ℕ
    pub tail_offset : ℕ
    pub end : ℕ

  unfoldable pub layout : ℕ → Layout
  unfolding align_up trailer_end node_end
  layout offset =
      let meta_offset = align_up meta_align offset in
      let head_offset = align_up node_align (meta_offset + meta_size) in
      let tail_offset = align_up node_align (trailer_end (node_end head_offset)) in
      record {
        meta_offset = meta_offset;
        head_offset = head_offset;
        tail_offset = tail_offset;
        end = trailer_end (node_end tail_offset);
      }

module _ (ar : Arena) (T : Type 0) ⦃tr : Trailer T⦄ where
  unfoldable pub check_capacity : ar.State → ℕ → Result ℕ (Error ar.Error)
  unfolding layout
  check_capacity a max_height =
      let l = layout tr.size_of tr.align_of max_height (ar.data_offset a) in
      if ltb (ar.capacity a) l.end then err arena_too_small else ok (u32 l.end)

module _ {ar : Arena} {T : Type 0} where
  unfoldable pub check_node_size :
      SkipMap ar T → (height key_size value_size : ℕ) → Run (Result (Unit {0}) (Error ar.Error))
  unfolding Node.size
  check_node_size m height key_size value_size =
      let value_size = if value_size == u32_max then 0 else value_size in
      let entry_size = value_size + key_size + Node.size (u8 height) in
      if ltb height 1 || ltb m.opts.max_height height
      then panic
      else if ltb m.opts.max_key_size key_size
      then done (err (key_too_large key_size))
      else if ltb m.opts.max_value_size value_size
      then done (err (value_too_large value_size))
      else if ltb u32_max entry_size
      then done (err (entry_too_large entry_size))
      else done (ok tt)
