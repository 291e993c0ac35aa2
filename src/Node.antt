-- ===== src/Node.antt =====
-- Nodes in the arena (src/map.rs): the node record, its tower of links, and the offsets at which they
-- lie. A `NodePtr` is an offset, and offset 0 is the null pointer. Memory is typed: what lies at
-- an offset is a node, a link, a trailer or a byte, and a read of anything else is a fault.
pub mod Arena
pub mod Allocator
use skl_rs.Prelude.{
  ℕ, zero, suc, ◌+◌, ◌*◌, Bool, Option, none, some, List, [], ◌∷◌, if◌then◌else◌, ◌==◌, Run, done,
  fault,
}
use skl_rs.Comparator.{Bytes}
use skl_rs.Codec.{
  encode_value_pointer, decode_value_pointer, encode_key_size_and_height,
  decode_key_size_and_height,
}

pub record Node : Type 0 where
  pub value : ℕ
  pub key_offset : ℕ
  pub key_size_and_height : ℕ

pub record Link : Type 0 where
  pub next_offset : ℕ
  pub prev_offset : ℕ

-- `Node::<T>::SIZE`: a u64 and two u32.
abbrev pub node_size : ℕ
node_size = 16

-- `Node::<T>::ALIGN`
abbrev pub node_align : ℕ
node_align = 8

-- `Link::SIZE`: two u32.
abbrev pub link_size : ℕ
link_size = 8

-- `Node::full`
unfoldable pub full : ℕ → ℕ → Node
unfolding encode_value_pointer encode_key_size_and_height
full value_offset max_height = record {
  value = encode_value_pointer value_offset 0;
  key_offset = 0;
  key_size_and_height = encode_key_size_and_height 0 max_height;
}

-- `Node::size`
unfoldable pub size : ℕ → ℕ
size max_height = node_size + max_height * link_size

unfoldable pub key_size : Node → ℕ
unfolding decode_key_size_and_height
key_size n = (decode_key_size_and_height n.key_size_and_height).0

unfoldable pub height : Node → ℕ
unfolding decode_key_size_and_height
height n = (decode_key_size_and_height n.key_size_and_height).1

-- The memory of the arena that holds the map's data.
pub record Memory (T : Type 0) : Type 0 where
  pub nodes : ℕ → Option Node
  pub links : ℕ → Option Link
  pub trailers : ℕ → Option T
  pub bytes : ℕ → ℕ

-- `Arena::get_bytes`: `len` bytes from `offset` on.
unfoldable pub get_bytes : {T : Type 0} → Memory T → ℕ → ℕ → Bytes
get_bytes m offset zero = []
get_bytes m offset (suc len) = m.bytes offset ∷ get_bytes m (offset + 1) len

-- A read through a pointer.
abbrev pub deref : {A : Type 0} → Option A → Run A
deref none = fault
deref (some a) = done a

unfoldable pub is_null : ℕ → Bool
is_null nd = nd == 0

abbrev pub tower_offset : ℕ → ℕ → ℕ
tower_offset nd idx = nd + node_size + idx * link_size
