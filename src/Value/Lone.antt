-- ===== src/Value/Lone.antt =====
-- Blocks of the arena that have no byte in common with what a map has in use, so that they can be
-- given back (`Node::set_value` of src/map.rs).
use skl_rs.Prelude.{
  ℕ, ◌+◌, ◌*◌, ◌≤◌, ◌<◌, ◌≡◌, refl, ◌⊎◌, some, List, All, ◌&&◌, leb, ltb, false, arith,
}
use skl_rs.Alloc.{overlaid}
use skl_rs.Capacity.Bounds.{stored_size}
use skl_rs.Codec.{decode_value_pointer}
use skl_rs.Comparator.{Trailer}
use skl_rs.Map.{SkipMap}
use skl_rs.Map.Order.{Cell}
use skl_rs.Map.Reads.{trailer_ptr}
use skl_rs.Node
use skl_rs.Node.{Node, node_size, link_size}
use skl_rs.Node.Allocator.{InUse}
use skl_rs.Node.Arena.{Arena}

-- A byte lies outside a block.
abbrev pub Outside : (offset size q : ℕ) → Type 0
Outside offset size q = (q < offset) ⊎ (offset + size ≤ q)

-- No byte of a block lies in another.
abbrev pub Clear : (offset size start part : ℕ) → Type 0
Clear offset size start part = InUse (Outside offset size) start part

-- Outside the block that lies over it, a memory is as it was.
pub overlaid-Outside :
    {A : Type 0} (offset size : ℕ) (over under : ℕ → A) (q : ℕ)
    → Outside offset size q
    → overlaid offset size over under q ≡ under q
unfolding overlaid
overlaid-Outside offset size over under q away =
    let missed : (leb offset q && ltb q (offset + size)) ≡ false = ground (arith, away) in
    rw (missed) refl

module _ {ar : Arena} {T : Type 0} ⦃tr : Trailer T⦄ (m : SkipMap ar T) (offset size : ℕ) where
  -- The tower and the key of a cell lie outside a block.
  pub record IsClearKey (c : Cell T) : Type 0 where
    pub tower_clear : Clear offset size c.offset (node_size + c.height * link_size)
    pub key_clear :
        (n : Node)
        → m.memory.nodes c.offset ≡ some n
        → Clear offset size n.key_offset (Node.key_size n)

  -- So do its trailer and its value.
  pub record IsClear (c : Cell T) : Type 0 where
    pub key : IsClearKey c
    pub value_clear :
        (n : Node)
        → m.memory.nodes c.offset ≡ some n
        → Clear offset size
            (trailer_ptr m n)
            (tr.size_of + stored_size (decode_value_pointer n.value).1)

  -- All that the map has in use, but for the value of one cell, lies outside a block.
  pub record IsLone (passed : List (Cell T)) (y : Cell T) (ahead : List (Cell T)) : Type 0 where
    pub passed_clear : All IsClear passed
    pub own_clear : IsClearKey y
    pub ahead_clear : All IsClear ahead
    pub head_clear : Clear offset size m.head (node_size + m.opts.max_height * link_size)
    pub tail_clear : Clear offset size m.tail (node_size + m.opts.max_height * link_size)
