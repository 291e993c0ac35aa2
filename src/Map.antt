-- ===== src/Map.antt =====
-- The map (src/map.rs): its state, and the reads of nodes and links that all operations are made of.
pub mod Repr
pub mod Revalue
pub mod Reads
pub mod Order
use skl_rs.Prelude.{
  ℕ, zero, suc, ◌+◌, ◌-◌, ◌*◌, ◌/◌, Bool, true, false, Option, none, some, Ordering, lt, eq, gt,
  compare, if◌then◌else◌, ◌==◌, ◌||◌, Run, done, fault, ◌>>=◌,
}
use skl_rs.Comparator.{Bytes, Comparator, Trailer}
use skl_rs.Codec.{decode_value_pointer, u32_max}
use skl_rs.Options.{Options}
use skl_rs.Meta.{Meta}
use skl_rs.Node
use skl_rs.Node.{Node, Link, Memory, get_bytes, deref, is_null, tower_offset}
use skl_rs.Node.Arena.{Arena}

-- `head` and `tail` are offsets of nodes.
pub record SkipMap (ar : Arena) (T : Type 0) : Type 0 where
  pub arena : ar.State
  pub memory : Memory T
  pub meta : Meta
  pub head : ℕ
  pub tail : ℕ
  pub data_offset : ℕ
  pub opts : Options ar.Freelist
  pub cmp : Comparator

-- `VersionedEntryRef`, without its reference to the map. `EntryRef` wraps one with a value. The source
-- borrows the key and the value from the arena; here they are what was read when the reference was
-- made, and what becomes of the slices when their block is given back is not followed.
pub record VersionedEntryRef (T : Type 0) : Type 0 where
  pub key : Bytes
  pub trailer : T
  pub value : Option Bytes
  pub ptr : ℕ

module _ {ar : Arena} {T : Type 0} (m : SkipMap ar T) where
  unfoldable pub as_ref : ℕ → Run Node
  as_ref nd = deref (m.memory.nodes nd)

  unfoldable pub tower : ℕ → ℕ → Run Link
  tower nd idx = deref (m.memory.links (tower_offset nd idx))

  unfoldable pub get_next : ℕ → ℕ → Run ℕ
  unfolding tower is_null
  get_next nd height = if is_null nd then done 0 else (do l ← tower nd height; done l.next_offset)

  unfoldable pub get_prev : ℕ → ℕ → Run ℕ
  unfolding tower is_null
  get_prev nd height = if is_null nd then done 0 else (do l ← tower nd height; done l.prev_offset)

  unfoldable pub get_key : ℕ → Run Bytes
  unfolding as_ref Node.key_size get_bytes
  get_key nd = do n ← as_ref nd; done (get_bytes m.memory n.key_offset (Node.key_size n))

module _ {ar : Arena} {T : Type 0} ⦃tr : Trailer T⦄ (m : SkipMap ar T) where
  -- `Arena::get_aligned_pointer::<T>`, read.
  unfoldable pub read_trailer : ℕ → Run T
  read_trailer offset = deref (m.memory.trailers (ar.get_aligned_pointer tr.align_of offset))

  unfoldable pub get_trailer : ℕ → Run T
  unfolding as_ref decode_value_pointer read_trailer
  get_trailer nd = do n ← as_ref m nd; read_trailer (decode_value_pointer n.value).0

  unfoldable pub get_value_and_trailer : ℕ → Run (T × Option Bytes)
  unfolding as_ref decode_value_pointer read_trailer get_bytes
  get_value_and_trailer nd = do
    n ← as_ref m nd
    let (offset, len) = decode_value_pointer n.value
    let ptr = ar.get_aligned_pointer tr.align_of offset
    trailer ← deref (m.memory.trailers ptr)
    if len == u32_max
        then done (trailer, none)
        else done (trailer, some (get_bytes m.memory (ptr + tr.size_of) len))

  -- `VersionedEntryRef::from_node`
  unfoldable pub from_node : ℕ → Run (VersionedEntryRef T)
  unfolding get_value_and_trailer get_key
  from_node nd = do
    (trailer, value) ← get_value_and_trailer nd
    key ← get_key m nd
    done (record { key = key; trailer = trailer; value = value; ptr = nd })

  -- `compare(key, node.key).then_with(|| node.version.cmp(&version))`
  unfoldable pub order_at : ℕ → Bytes → ℕ → Run Ordering
  unfolding get_key get_trailer
  order_at version key nd = do
    node_key ← get_key m nd
    elim (m.cmp.cmp key node_key) [
      | eq ↦ do t ← get_trailer nd; done (compare (tr.version t) version)
      | lt ↦ done lt
      | gt ↦ done gt
    ]
